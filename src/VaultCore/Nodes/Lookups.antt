-- ===== src/VaultCore/Nodes/Lookups.antt =====
-- What the calls leave at a path.
use kb_1_daemon.Prelude.{
  ◌≡◌, refl, sym, inl, inr, Bool-cases, List, [], ◌∷◌, ◌++◌, All, Option, none, some, Text, text_eq,
  text_eq_iff, text_eq_self, text_eq→eq, arith, if◌then◌else◌, ok, bind-ok,
}
use kb_1_daemon.VaultCore.Metadata.{is_within}
use kb_1_daemon.VaultCore.Nodes.{
  Node, file_node, folder_node, Nodes, FsError, node_at, set_node, remove, make_one, make_folders,
}

pub node_at-set_node :
    (key k : Text) (n : Node) (nodes : Nodes)
    → node_at key (set_node k n nodes) ≡ (if text_eq k key then some n else node_at key nodes)
unfolding node_at set_node
node_at-set_node key k n [] = refl
node_at-set_node key k n ((j, m) ∷ nodes) =
    ground
      (arith, text_eq_iff j k, text_eq_iff j key, text_eq_iff k key, node_at-set_node key k n nodes)

pub node_at-remove :
    (key path : Text) (nodes : Nodes)
    → node_at key (remove path nodes) ≡ (if is_within path key then none else node_at key nodes)
unfolding node_at remove
node_at-remove key path [] = ground arith
node_at-remove key path ((k, n) ∷ nodes) = elim (Bool-cases (text_eq k key)) [
  | inl e ↦
      let same : k ≡ key = text_eq→eq k key e in
      rw same (ground (arith, text_eq_self key, node_at-remove key path nodes))
  | inr e ↦ ground (arith, node_at-remove key path nodes)
]

node_at-append :
    (key k : Text) (n m : Node) (nodes : Nodes)
    → node_at key nodes ≡ some n
    → node_at key (nodes ++ (k, m) ∷ []) ≡ some n
unfolding node_at
node_at-append key k n m [] h = cc
node_at-append key k n m ((j, i) ∷ nodes) h = ground (arith, node_at-append key k n m nodes)

node_at-new :
    (key : Text) (m : Node) (nodes : Nodes)
    → node_at key nodes ≡ none
    → node_at key (nodes ++ (key, m) ∷ []) ≡ some m
unfolding node_at
node_at-new key m [] h = rw (text_eq_self key) refl
node_at-new key m ((j, i) ∷ nodes) h = ground (arith, node_at-new key m nodes)

-- What was there stays, and the folder is there.
make_one_lem :
    (o : Option Node) (path : Text) (nodes made : Nodes) (e : FsError)
    → node_at path nodes ≡ o
    → make_one o path nodes e ≡ ok made
    → (node_at path made ≡ some folder_node)
      × ((key : Text) (n : Node) → node_at key nodes ≡ some n → node_at key made ≡ some n)
make_one_lem none path nodes made e h r =
    let same : nodes ++ (path, folder_node) ∷ [] ≡ made = cc in
    rw (sym same) (
      node_at-new path folder_node nodes h,
      λ key n k. node_at-append key path n folder_node nodes k,
    )
make_one_lem (some folder_node) path nodes made e h r =
    let same : nodes ≡ made = cc in rw (sym same) (h, λ key n k. k)
make_one_lem (some (file_node bytes)) path nodes made e h r = cc

pub make_folders_lem :
    (paths : List Text) (nodes made : Nodes)
    → make_folders paths nodes ≡ ok made
    → All (λ p. node_at p made ≡ some folder_node) paths
      × ((key : Text) (n : Node) → node_at key nodes ≡ some n → node_at key made ≡ some n)
unfolding make_folders
make_folders_lem [] nodes made r = let same : nodes ≡ made = cc in (tt, λ key n k. rw (sym same) k)
make_folders_lem (path ∷ []) nodes made r =
    let (there, kept) = make_one_lem (node_at path nodes) path nodes made _ refl r in
    ((there, tt), kept)
make_folders_lem (path ∷ next ∷ paths) nodes made r =
    let (first, e, f) =
      bind-ok (make_one (node_at path nodes) path nodes _) (λ m. make_folders (next ∷ paths) m) r in
    let (there, kept) = make_one_lem (node_at path nodes) path nodes first _ refl e in
    let (all_there, all_kept) = make_folders_lem (next ∷ paths) first made f in
    ((all_kept path folder_node there, all_there), λ key n k. all_kept key n (kept key n k))
