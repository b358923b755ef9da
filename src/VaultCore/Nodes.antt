-- ===== src/VaultCore/Nodes.antt =====
-- The files and folders below a vault's root, and the calls of `node:fs/promises` that
-- packages/vault-core/src makes, among them `statOrNull` of fs.ts. A node is named by its path from the
-- root, which is what `resolveVaultPath` puts behind the root.
pub mod Lookups
use kb_1_daemon.Prelude.{
  ℕ, zero, suc, Bool, true, false, not, ◌&&◌, ◌||◌, List, [], ◌∷◌, ◌++◌, Option, none, some, Text,
  text_eq, ◌==◌, any, if◌then◌else◌, Result, ok, err, ◌>>=◌,
}
use kb_1_daemon.VaultCore.Path.{slash, relative_descendant_path}
use kb_1_daemon.VaultCore.Metadata.{is_within, join_rest}

abbrev pub Bytes : Type 0
Bytes = List ℕ

pub data Node : Type 0 where
  file_node : Bytes → Node
  folder_node : Node

abbrev pub Nodes : Type 0
Nodes = List (Text × Node)

-- `other_error` stands for any other code.
pub data FsError : Type 0 where
  enotdir eexist eisdir enoent other_error : FsError

unfoldable pub node_at : Text → Nodes → Option Node
node_at key [] = none
node_at key ((k, n) ∷ nodes) = if text_eq k key then some n else node_at key nodes

unfoldable pub set_node : Text → Node → Nodes → Nodes
set_node key n [] = (key, n) ∷ []
set_node key n ((k, m) ∷ nodes) =
    let rest = set_node key n nodes in if text_eq k key then (k, n) ∷ nodes else (k, m) ∷ rest

-- The folders on the way to a path, from the top, where `seen` is before.
unfoldable pub ancestors_from : Text → Text → List Text
ancestors_from seen [] = []
ancestors_from seen (c ∷ s) =
    let rest = ancestors_from (seen ++ c ∷ []) s in if c == slash then seen ∷ rest else rest

abbrev pub ancestors : Text → List Text
ancestors path = ancestors_from [] path

abbrev pub is_file_node : Option Node → Bool
is_file_node (some (file_node bytes)) = true
is_file_node _ = false

abbrev pub is_folder_node : Option Node → Bool
is_folder_node (some folder_node) = true
is_folder_node _ = false

abbrev pub is_there : Option Node → Bool
is_there none = false
is_there (some n) = true

-- `stat` throws ENOTDIR where a file is on the way, and `statOrNull` passes that on.
unfoldable pub stat_or_null : Text → Nodes → Result FsError (Option Node)
unfolding ancestors_from node_at
stat_or_null path nodes =
    if any (λ a. is_file_node (node_at a nodes)) (ancestors path)
    then err enotdir
    else ok (node_at path nodes)

-- One folder of `mkdir(path, { recursive: true })`; a file in its place is an error.
abbrev pub make_one : Option Node → Text → Nodes → FsError → Result FsError Nodes
make_one none path nodes e = ok (nodes ++ (path, folder_node) ∷ [])
make_one (some folder_node) path nodes e = ok nodes
make_one (some (file_node bytes)) path nodes e = err e

unfoldable pub make_folders : List Text → Nodes → Result FsError Nodes
unfolding node_at
make_folders [] nodes = ok nodes
make_folders (path ∷ []) nodes = make_one (node_at path nodes) path nodes eexist
make_folders (path ∷ next ∷ paths) nodes =
    make_one (node_at path nodes) path nodes enotdir >>= λ made. make_folders (next ∷ paths) made

-- `writeFile`, for a path whose folder is there
abbrev pub write_over : Option Node → Text → Bytes → Nodes → Result FsError Nodes
write_over (some folder_node) path bytes nodes = err eisdir
write_over _ path bytes nodes = ok (set_node path (file_node bytes) nodes)

unfoldable pub write_file : Text → Bytes → Nodes → Result FsError Nodes
unfolding node_at set_node
write_file path bytes nodes = write_over (node_at path nodes) path bytes nodes

-- `rm(path, { recursive: true })`
unfoldable pub remove : Text → Nodes → Nodes
unfolding is_within
remove path [] = []
remove path ((k, n) ∷ nodes) =
    let rest = remove path nodes in if is_within path k then rest else (k, n) ∷ rest

abbrev pub renamed_key : Option Text → Text → Text → Text
renamed_key none to key = key
renamed_key (some rest) to key = join_rest to rest

unfoldable pub rename_keys : Text → Text → Nodes → Nodes
rename_keys from to [] = []
rename_keys from to ((k, n) ∷ nodes) =
    (renamed_key (relative_descendant_path from k) to k, n) ∷ rename_keys from to nodes

-- `rename`, for a target that is not there and whose folder is
unfoldable pub rename : Text → Text → Nodes → Result FsError Nodes
unfolding node_at rename_keys
rename from to nodes =
    if is_there (node_at from nodes) then ok (rename_keys from to nodes) else err enoent
