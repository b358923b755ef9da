-- ===== src/VaultCore/Ops/Steady.antt =====
-- What an operation that fails leaves of the vault.
use kb_1_daemon.Prelude.{
  ◌≡◌, refl, ap, ◌⊎◌, inl, inr, Bool, true, false, Option, none, some, Text, Result, ok, err, ◌>>=◌,
  fail_if, if◌then◌else◌,
}
use kb_1_daemon.VaultCore.Path.{Platform, VaultPathKind, file, folder, artifact}
use kb_1_daemon.VaultCore.Metadata.{
  VaultErrorCode, MetadataFile, MetadataFormat, path_collision, FolderMetadataMap, ColorInput,
}
use kb_1_daemon.VaultCore.Nodes.{
  Bytes, Node, file_node, folder_node, Nodes, FsError, enotdir, eexist, eisdir, enoent, other_error,
  node_at, write_file, write_over, rename, is_there,
}
use kb_1_daemon.VaultCore.Ops.{
  Vault, Faults, Renaming, renames, refuses, crosses_devices, AuditEntry, append_audit,
  put_metadata, rename_or_copy, made_folder, with_moved, Failure, fails, throws, Run, checked,
  on_disk, classify_fs_collision, write_at, write_vault_file, write_vault_raw_file,
  make_vault_folder, take_away, delete_vault_file, set_folder_metadata, delete_vault_folder,
  move_path, move_vault_path, map_for,
}

-- What the rename of a move, or the copy in its place, throws.
abbrev pub thrown_by : Renaming → Option FsError
thrown_by renames = none
thrown_by (refuses e) = some e
thrown_by (crosses_devices none) = none
thrown_by (crosses_devices (some (e, left))) = some e

-- The exception is one of those that come after a change.
abbrev pub IsFault : Faults → FsError → Type 0
IsFault faults e =
    (faults.audit ≡ some e)
    ⊎ (faults.metadata_write ≡ some e)
    ⊎ (thrown_by faults.renaming ≡ some e)

-- The codes of an exception that `classifyFsCollision` turns into `path_collision`.
abbrev pub IsCollision : FsError → Type 0
IsCollision e = (e ≡ enotdir) ⊎ (e ≡ eexist)

abbrev pub IsLateCollision : Faults → Type 0
IsLateCollision faults = (e : FsError) × IsCollision e × IsFault faults e

-- These failures may come after a change.
abbrev IsLate : Faults → Failure → Type 0
IsLate faults f =
    (f ≡ throws eisdir)
    ⊎ (f ≡ throws enoent)
    ⊎ ((e : FsError) × (f ≡ throws e) × IsFault faults e)
    ⊎ ((f ≡ fails path_collision) × IsLateCollision faults)

record IsSteady {A : Type 0} (faults : Faults) (v : Vault) (r : Run A) : Type 0 where
  at : (f : Failure) (w : Vault) → r ≡ err (f, w) → (w ≡ v) ⊎ IsLate faults f

module _ {A : Type 0} (faults : Faults) (v : Vault) where
  checked-IsSteady : (r : Result Failure A) → IsSteady faults v (checked v r)
  checked-IsSteady (err g) = record { at = λ f w e. inl cc }
  checked-IsSteady (ok a) = record { at = λ f w e. cc }

  on_disk-IsSteady : (r : Result FsError A) → IsSteady faults v (on_disk v r)
  on_disk-IsSteady (err g) = record { at = λ f w e. inl cc }
  on_disk-IsSteady (ok a) = record { at = λ f w e. cc }

  ok-IsSteady : (a : A) → IsSteady faults v (ok a)
  ok-IsSteady a = record { at = λ f w e. cc }

  -- A fault, which leaves any vault.
  fault-IsSteady :
      (d : FsError) (u : Vault) → IsFault faults d → IsSteady {A = A} faults v (err (throws d, u))
  fault-IsSteady d u h = record { at = λ f w e. inr (inr (inr (inl (d, cc, h)))) }

  collision_late :
      (d : FsError) (u : Vault)
      → IsCollision d
      → (u ≡ v) ⊎ IsLate faults (throws d)
      → IsSteady {A = A} faults v (err (fails path_collision, u))
  collision_late d u c (inl same) = record { at = λ f w e. inl cc }
  collision_late d u (inl c) (inr (inl late)) = absurd cc
  collision_late d u (inr c) (inr (inl late)) = absurd cc
  collision_late d u (inl c) (inr (inr (inl late))) = absurd cc
  collision_late d u (inr c) (inr (inr (inl late))) = absurd cc
  collision_late d u c (inr (inr (inr (inl (b, same, h))))) =
      let here : d ≡ b = cc in
      record { at = λ f w e. inr (inr (inr (inr (cc, (d, c, rw here h))))) }
  collision_late d u c (inr (inr (inr (inr (late, h))))) = absurd cc

  classify-IsSteady :
      (r : Run A) → IsSteady faults v r → IsSteady faults v (classify_fs_collision r)
  classify-IsSteady (err (throws enotdir, u)) h =
      collision_late enotdir u (inl refl) (h.at (throws enotdir) u refl)
  classify-IsSteady (err (throws eexist, u)) h =
      collision_late eexist u (inr refl) (h.at (throws eexist) u refl)
  classify-IsSteady (err (throws eisdir, u)) h = h
  classify-IsSteady (err (throws enoent, u)) h = h
  classify-IsSteady (err (throws other_error, u)) h = h
  classify-IsSteady (err (fails c, u)) h = h
  classify-IsSteady (ok a) h = ok-IsSteady a

fail_if-IsSteady :
    (faults : Faults) (v : Vault) (b : Bool) (g : Failure) → IsSteady faults v (fail_if b (g, v))
fail_if-IsSteady faults v true g = record { at = λ f w e. inl cc }
fail_if-IsSteady faults v false g = record { at = λ f w e. cc }

bind-IsSteady :
    {A B : Type 0} (faults : Faults) (v : Vault) (r : Run A) (k : A → Run B)
    → IsSteady faults v r
    → ((a : A) → IsSteady faults v (k a))
    → IsSteady faults v (r >>= k)
bind-IsSteady faults v (err (g, u)) k h hk = record {
  at = λ f w e. h.at f w (let same : (g, u) ≡ (f, w) = cc in ap err same);
}
bind-IsSteady faults v (ok a) k h hk = hk a

write_over-IsSteady :
    (faults : Faults) (v u : Vault) (n : Option Node) (path : Text) (bytes : Bytes) (nodes : Nodes)
    → IsSteady faults v (on_disk u (write_over n path bytes nodes))
write_over-IsSteady faults v u none path bytes nodes = record { at = λ f w e. cc }
write_over-IsSteady faults v u (some (file_node old)) path bytes nodes = record { at = λ f w e. cc }
write_over-IsSteady faults v u (some folder_node) path bytes nodes = record {
  at = λ f w e. inr (inl cc);
}

late_step :
    (faults : Faults) (v u : Vault) (there : Bool) (nodes : Nodes)
    → IsSteady faults v (on_disk u (if there then ok nodes else err enoent))
late_step faults v u true nodes = record { at = λ f w e. cc }
late_step faults v u false nodes = record { at = λ f w e. inr (inr (inl cc)) }

rename-IsSteady :
    (faults : Faults) (v u : Vault) (from to : Text) (nodes : Nodes)
    → IsSteady faults v (on_disk u (rename from to nodes))
unfolding rename
rename-IsSteady faults v u from to nodes = late_step faults v u (is_there (node_at from nodes)) _

write_file-IsSteady :
    (faults : Faults) (v u : Vault) (path : Text) (bytes : Bytes) (nodes : Nodes)
    → IsSteady faults v (on_disk u (write_file path bytes nodes))
unfolding write_file
write_file-IsSteady faults v u path bytes nodes =
    write_over-IsSteady faults v u (node_at path nodes) path bytes nodes

append_audit-IsSteady :
    (faults : Faults) (v u : Vault) (o : Option FsError) (entry : AuditEntry)
    → faults.audit ≡ o
    → IsSteady faults v (append_audit o entry u)
append_audit-IsSteady faults v u none entry e = ok-IsSteady faults v _
append_audit-IsSteady faults v u (some d) entry e = fault-IsSteady faults v d u (inl e)

put_metadata-IsSteady :
    (faults : Faults) (v u : Vault) (o : Option FsError) (metadata : MetadataFile)
    → faults.metadata_write ≡ o
    → IsSteady faults v (put_metadata o metadata u)
put_metadata-IsSteady faults v u none metadata e = ok-IsSteady faults v _
put_metadata-IsSteady faults v u (some d) metadata e = fault-IsSteady faults v d u (inr (inl e))

rename_or_copy-IsSteady :
    (faults : Faults) (v u : Vault) (o : Renaming) (from to : Text)
    → thrown_by faults.renaming ≡ thrown_by o
    → IsSteady faults v (rename_or_copy o from to u)
rename_or_copy-IsSteady faults v u renames from to e = rename-IsSteady faults v u from to u.nodes
rename_or_copy-IsSteady faults v u (refuses d) from to e = fault-IsSteady faults v d u (inr (inr e))
rename_or_copy-IsSteady faults v u (crosses_devices none) from to e =
    rename-IsSteady faults v u from to u.nodes
rename_or_copy-IsSteady faults v u (crosses_devices (some (d, left))) from to e =
    fault-IsSteady faults v d _ (inr (inr e))

ruleset steady = (
  append_audit-IsSteady, put_metadata-IsSteady, rename_or_copy-IsSteady, refl, checked-IsSteady,
  on_disk-IsSteady, ok-IsSteady, classify-IsSteady, fail_if-IsSteady, bind-IsSteady,
  write_file-IsSteady, rename-IsSteady,
)

module _ (platform : Platform) (lower : Text → Text) (faults : Faults) where
  write_at-IsSteady :
      (rel : Text) (bytes : Bytes) (overwrite : Bool) (v : Vault)
      → IsSteady faults v (write_at platform lower faults rel bytes overwrite v)
  unfolding write_at
  write_at-IsSteady rel bytes overwrite v = search steady

  made_folder-IsSteady :
      (there : Bool) (rel : Text) (v u : Vault)
      → IsSteady faults v (made_folder platform lower faults there rel u)
  made_folder-IsSteady true rel v u = ok-IsSteady faults v u
  made_folder-IsSteady false rel v u = append_audit-IsSteady faults v u faults.audit _ refl

  take_away-IsSteady :
      (rel : Text) (permanent : Bool) (batch_id : Text) (v : Vault)
      → IsSteady faults v (take_away platform lower faults rel permanent batch_id v)
  unfolding take_away
  take_away-IsSteady rel true batch_id v = ok-IsSteady faults v _
  take_away-IsSteady rel false batch_id v = search steady

  module _ (format : MetadataFormat) where
    with_moved-IsSteady :
        (from to : Text) (m : Option FolderMetadataMap) (v u : Vault)
        → IsSteady faults v (with_moved platform lower faults format from to m u)
    with_moved-IsSteady from to none v u = ok-IsSteady faults v u
    with_moved-IsSteady from to (some m) v u =
        put_metadata-IsSteady faults v u faults.metadata_write _ refl

    move_path-IsSteady :
        (from to : Text) (kind : VaultPathKind) (overwrite : Bool) (m : Option FolderMetadataMap)
        (v : Vault)
        → IsSteady faults v (move_path platform lower faults format from to kind overwrite m v)
    unfolding move_path
    move_path-IsSteady from to kind overwrite m v = search (steady, with_moved-IsSteady) depth 9

    map_for-IsSteady :
        (kind : VaultPathKind) (v : Vault)
        → IsSteady faults v (map_for platform lower faults format kind v)
    map_for-IsSteady file v = ok-IsSteady faults v none
    map_for-IsSteady artifact v = ok-IsSteady faults v none
    map_for-IsSteady folder v = search steady

-- The operations that change a vault, each with its arguments.
pub data Operation : Type 0 where
  writes : (path content : Text) (overwrite : Bool) → Operation
  writes_raw : (path : Text) (bytes : Bytes) (overwrite : Bool) → Operation
  makes_folder : (path : Text) → Operation
  deletes_file : (path : Text) (permanent : Bool) (batch_id : Text) → Operation
  deletes_folder : (path : Text) (recursive permanent : Bool) (batch_id : Text) → Operation
  sets_metadata : (path : Text) (input : ColorInput) → Operation
  moves : (from to : Text) (kind : VaultPathKind) (overwrite : Bool) → Operation

module _ (platform : Platform) (lower : Text → Text) (faults : Faults) (encode : Text → Bytes)
    (format : MetadataFormat) where
  abbrev pub perform : Operation → Vault → Run Vault
  perform (writes path content overwrite) v =
      write_vault_file platform lower faults encode path content overwrite v
  perform (writes_raw path bytes overwrite) v =
      write_vault_raw_file platform lower faults path bytes overwrite v
  perform (makes_folder path) v = make_vault_folder platform lower faults path v
  perform (deletes_file path permanent batch_id) v =
      delete_vault_file platform lower faults path permanent batch_id v
  perform (deletes_folder path recursive permanent batch_id) v =
      delete_vault_folder platform lower faults format path recursive permanent batch_id v
  perform (sets_metadata path input) v =
      set_folder_metadata platform lower faults format path input v
  perform (moves from to kind overwrite) v =
      move_vault_path platform lower faults format from to kind overwrite v

  perform-IsSteady : (o : Operation) (v : Vault) → IsSteady faults v (perform o v)
  unfolding write_vault_file write_vault_raw_file make_vault_folder delete_vault_file
      delete_vault_folder set_folder_metadata move_vault_path
  perform-IsSteady (writes path content overwrite) v = search (steady, write_at-IsSteady)
  perform-IsSteady (writes_raw path bytes overwrite) v = search (steady, write_at-IsSteady)
  perform-IsSteady (makes_folder path) v = search (steady, made_folder-IsSteady)
  perform-IsSteady (deletes_file path permanent batch_id) v = search (steady, take_away-IsSteady)
  perform-IsSteady (deletes_folder path recursive permanent batch_id) v =
      search (steady, take_away-IsSteady) depth 8
  perform-IsSteady (sets_metadata path input) v = search steady depth 9
  perform-IsSteady (moves from to kind overwrite) v =
      search (steady, move_path-IsSteady, map_for-IsSteady) depth 9

  -- An operation that fails with one of the codes that it returns to its client has changed nothing, unless the code
  -- is `path_collision` and it stands for an exception of the audit log, of the metadata file or of the
  -- rename of a move, which come after a change.
  pub perform-fails :
      (o : Operation) (v w : Vault) (code : VaultErrorCode)
      → perform o v ≡ err (fails code, w)
      → (w ≡ v) ⊎ ((code ≡ path_collision) × IsLateCollision faults)
  perform-fails o v w code e = elim ((perform-IsSteady o v).at (fails code) w e) [
    | inl same ↦ inl same
    | inr (inl late) ↦ absurd cc
    | inr (inr (inl late)) ↦ absurd cc
    | inr (inr (inr (inl (d, late, h)))) ↦ absurd cc
    | inr (inr (inr (inr (late, h)))) ↦ inr (cc, h)
  ]
