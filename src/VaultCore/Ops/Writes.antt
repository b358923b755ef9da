-- ===== src/VaultCore/Ops/Writes.antt =====
-- A file that was written is read as it was written.
use mathlib.Core.Path.{subst}
use kb_1_daemon.Prelude.{
  suc, ◌+◌, ◌<◌, ◌≡◌, refl, sym, ap, Bool, false, not, ◌&&◌, Bool-cases, inl, inr, List, [], ◌∷◌,
  ◌++◌, All, any, Option, none, some, Text, text_eq, text_eq→eq, text_eq_self, length,
  length-append, arith, ◌==◌, Result, ok, err, fail_if, bind-ok,
}
use kb_1_daemon.VaultCore.Path.{Platform, file, slash}
use kb_1_daemon.VaultCore.Nodes.{
  Bytes, Node, file_node, folder_node, Nodes, FsError, enotdir, eexist, eisdir, enoent, other_error,
  node_at, set_node, ancestors_from, ancestors, is_file_node, is_there, stat_or_null, make_folders,
  write_over, write_file,
}
use kb_1_daemon.VaultCore.Nodes.Lookups.{node_at-set_node, make_folders_lem}
use kb_1_daemon.VaultCore.Metadata.{already_exists}
use kb_1_daemon.VaultCore.Ops.{
  Vault, Faults, AuditEntry, append_audit, Failure, fails, throws, Run, checked, on_disk,
  classify_fs_collision, with_nodes, valid, ensure_editable_artifact, write_at, write_vault_file,
  read_vault_file,
}

module _ {A : Type 0} where
  pub checked-ok : (v : Vault) (r : Result Failure A) (a : A) → checked v r ≡ ok a → r ≡ ok a
  checked-ok v (err f) a e = cc
  checked-ok v (ok b) a e = let same : b ≡ a = cc in ap ok same

  pub on_disk-ok : (v : Vault) (r : Result FsError A) (a : A) → on_disk v r ≡ ok a → r ≡ ok a
  on_disk-ok v (err f) a e = cc
  on_disk-ok v (ok b) a e = let same : b ≡ a = cc in ap ok same

  classify-ok : (r : Run A) (a : A) → classify_fs_collision r ≡ ok a → r ≡ ok a
  classify-ok (err (throws enotdir, u)) a e = cc
  classify-ok (err (throws eexist, u)) a e = cc
  classify-ok (err (throws eisdir, u)) a e = cc
  classify-ok (err (throws enoent, u)) a e = cc
  classify-ok (err (throws other_error, u)) a e = cc
  classify-ok (err (fails c, u)) a e = cc
  classify-ok (ok b) a e = e

-- The audit trail is not among the nodes.
append_audit-nodes :
    (o : Option FsError) (entry : AuditEntry) (u w : Vault)
    → append_audit o entry u ≡ ok w
    → u.nodes ≡ w.nodes
append_audit-nodes (some x) entry u w e = cc
append_audit-nodes none entry u w e =
    let same : record u { audits = u.audits ++ entry ∷ [] } ≡ w = cc in ap (λ t. t.nodes) same

-- An ancestor is shorter than the path.
ancestors_shorter :
    (seen s : Text) → All (λ a. length a < length seen + length s) (ancestors_from seen s)
unfolding ancestors_from
ancestors_shorter seen [] = tt
ancestors_shorter seen (c ∷ s) =
    let z : length (seen ++ c ∷ []) + length s ≡ length seen + suc (length s) =
      omega (arith, length-append seen (c ∷ [])) in
    let later : All (λ a. length a < length seen + suc (length s))
        (ancestors_from (seen ++ c ∷ []) s) =
      subst (λ n. All (λ a. length a < n) (ancestors_from (seen ++ c ∷ []) s)) z
        (ancestors_shorter (seen ++ c ∷ []) s) in
    elim (Bool-cases (c == slash)) [ inl e ↦ rw e (omega arith, later) | inr e ↦ rw e later ]

no_file :
    (rel : Text) (n : Node) (paths : List Text) (made : Nodes)
    → All (λ a. length a < length rel) paths
    → All (λ a. node_at a made ≡ some folder_node) paths
    → any (λ a. is_file_node (node_at a (set_node rel n made))) paths ≡ false
no_file rel n [] made s f = refl
no_file rel n (a ∷ paths) made (s, ss) (f, fs) =
    let differ : text_eq rel a ≡ false = elim (Bool-cases (text_eq rel a)) [
      | inr e ↦ e
      | inl e ↦
          absurd (let l : length rel ≡ length a = ap length (text_eq→eq rel a e) in omega arith)
    ] in
    rw (node_at-set_node a rel n made, differ, f) (no_file rel n paths made ss fs)

write_file-ok :
    (o : Option Node) (path : Text) (bytes : Bytes) (nodes written : Nodes)
    → write_over o path bytes nodes ≡ ok written
    → set_node path (file_node bytes) nodes ≡ written
write_file-ok none path bytes nodes written e = cc
write_file-ok (some (file_node old)) path bytes nodes written e = cc
write_file-ok (some folder_node) path bytes nodes written e = cc

-- What stands at the path after a write.
stat-written :
    (rel : Text) (bytes : Bytes) (nodes made written : Nodes)
    → make_folders (ancestors rel) nodes ≡ ok made
    → write_file rel bytes made ≡ ok written
    → stat_or_null rel written ≡ ok (some (file_node bytes))
unfolding stat_or_null write_file
stat-written rel bytes nodes made written m w =
    let same = write_file-ok (node_at rel made) rel bytes made written w in
    let (folders, _) = make_folders_lem (ancestors rel) nodes made m in
    let z : 0 + length rel ≡ length rel = omega arith in
    let short : All (λ a. length a < length rel) (ancestors rel) =
      subst (λ n. All (λ a. length a < n) (ancestors rel)) z (ancestors_shorter [] rel) in
    rw (sym same, no_file rel (file_node bytes) (ancestors rel) made short folders)
      (rw (node_at-set_node rel rel (file_node bytes) made, text_eq_self rel) refl)

module _ (platform : Platform) (lower : Text → Text) (faults : Faults) where
  write_at-written :
      (rel : Text) (bytes : Bytes) (overwrite : Bool) (v w : Vault)
      → write_at platform lower faults rel bytes overwrite v ≡ ok w
      → stat_or_null rel w.nodes ≡ ok (some (file_node bytes))
  unfolding write_at
  write_at-written rel bytes overwrite v w e =
      let (node, e1, r1) = bind-ok (on_disk v (stat_or_null rel v.nodes)) _ e in
      let (_, e2, r2) =
        bind-ok (fail_if (is_there node && not overwrite) (fails already_exists, v)) _ r1 in
      let (made, e3, r3) = bind-ok (on_disk v (make_folders (ancestors rel) v.nodes)) _ r2 in
      let (written, e4, r4) =
        bind-ok (on_disk (with_nodes v made) (write_file rel bytes made)) _ r3 in
      let same : written ≡ w.nodes = append_audit-nodes faults.audit _ _ w r4 in
      rw (sym same) (
        stat-written rel bytes v.nodes made written (on_disk-ok v _ made e3)
          (on_disk-ok (with_nodes v made) _ written e4))

  -- Where a write succeeds, a read of the same path gives the content, provided that decoding what
  -- the content is encoded to gives it back.
  pub read-write_vault_file :
      (encode : Text → Bytes) (decode : Bytes → Text) (path content : Text) (overwrite : Bool)
      (v w : Vault)
      → decode (encode content) ≡ content
      → write_vault_file platform lower faults encode path content overwrite v ≡ ok w
      → read_vault_file platform lower decode path w ≡ ok content
  unfolding write_vault_file read_vault_file
  read-write_vault_file encode decode path content overwrite v w d e =
      let r0 = classify-ok _ w e in
      let (rel, e1, r1) = bind-ok (checked v (valid platform lower path file)) _ r0 in
      let (_, e2, r2) = bind-ok (checked v (ensure_editable_artifact platform lower rel)) _ r1 in
      let v1 = checked-ok v (valid platform lower path file) rel e1 in
      let v2 = checked-ok v (ensure_editable_artifact platform lower rel) tt e2 in
      rw (v1, v2, write_at-written rel (encode content) overwrite v w r2, d) refl
