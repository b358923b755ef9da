-- ===== src/VaultCore/Ops/Moves.antt =====
-- What a move that does not go through leaves of the vault, if its target does not hold its source.
use mathlib.Core.Path.{subst}
use kb_1_daemon.Prelude.{
  ◌≡◌, refl, ap, ◌⊎◌, inl, inr, Bool, true, false, not, ◌&&◌, List, Option, none, some, Text,
  if◌then◌else◌, Result, ok, err, ◌>>=◌, fail_if,
}
use kb_1_daemon.VaultCore.Path.{
  Platform, VaultPathKind, file, folder, artifact, InvalidPathError, validate_vault_path,
}
use kb_1_daemon.VaultCore.Path.Validate.{validate_iff}
use kb_1_daemon.VaultCore.Metadata.{
  FolderMetadataMap, MetadataFile, MetadataFormat, is_within, invalid_path, path_collision,
  not_found,
}
use kb_1_daemon.VaultCore.Nodes.{
  Node, Nodes, FsError, enotdir, eexist, eisdir, enoent, other_error, node_at, ancestors,
  is_file_node, is_folder_node, is_there, stat_or_null, make_folders, remove, rename,
}
use kb_1_daemon.VaultCore.Nodes.Lookups.{node_at-remove, make_folders_lem}
use kb_1_daemon.VaultCore.Ops.{
  Vault, Faults, Renaming, renames, refuses, crosses_devices, AuditEntry, append_audit,
  put_metadata, rename_or_copy, with_moved, read_map, thrown, move, emit_vault_audit, Failure,
  fails, throws, Run, checked, on_disk, classify_fs_collision, classify_path_error, valid,
  is_folder_kind, move_path, move_vault_path, map_for,
}
use kb_1_daemon.VaultCore.Ops.Steady.{thrown_by, IsFault, IsCollision}
use kb_1_daemon.VaultCore.Ops.Writes.{checked-ok, on_disk-ok}

-- The failure comes from an exception of the audit log, of the metadata file or of the rename.
abbrev pub IsFromFault : Faults → Failure → Type 0
IsFromFault faults f =
    (e : FsError) × IsFault faults e × ((f ≡ throws e) ⊎ (f ≡ fails path_collision) × IsCollision e)

record IsKept {A : Type 0} (faults : Faults) (v : Vault) (r : Run A) : Type 0 where
  at : (f : Failure) (w : Vault) → r ≡ err (f, w) → (w ≡ v) ⊎ IsFromFault faults f

module _ {A : Type 0} (faults : Faults) (v : Vault) where
  err-IsKept :
      (g : Failure) (u : Vault)
      → (u ≡ v) ⊎ IsFromFault faults g
      → IsKept {A = A} faults v (err (g, u))
  err-IsKept g u (inl s) = record { at = λ f w e. inl cc }
  err-IsKept g u (inr h) = record {
    at = λ f w e. inr (let same : g ≡ f = cc in subst (IsFromFault faults) same h);
  }

  ok-IsKept : (a : A) → IsKept faults v (ok a)
  ok-IsKept a = record { at = λ f w e. cc }

  checked-IsKept : (r : Result Failure A) → IsKept faults v (checked v r)
  checked-IsKept (err g) = err-IsKept g v (inl refl)
  checked-IsKept (ok a) = ok-IsKept a

  on_disk-IsKept : (r : Result FsError A) → IsKept faults v (on_disk v r)
  on_disk-IsKept (err g) = err-IsKept (throws g) v (inl refl)
  on_disk-IsKept (ok a) = ok-IsKept a

  fault-IsKept :
      (d : FsError) (u : Vault) → IsFault faults d → IsKept {A = A} faults v (err (throws d, u))
  fault-IsKept d u h = err-IsKept (throws d) u (inr (d, h, inl refl))

  collision-IsKept :
      (d : FsError) (u : Vault)
      → IsCollision d
      → (u ≡ v) ⊎ IsFromFault faults (throws d)
      → IsKept {A = A} faults v (err (fails path_collision, u))
  collision-IsKept d u c (inl s) = err-IsKept _ u (inl s)
  collision-IsKept d u c (inr (b, h, inl same)) =
      let here : d ≡ b = cc in err-IsKept _ u (inr (d, rw here h, inr (refl, c)))
  collision-IsKept d u c (inr (b, h, inr (other, k))) = absurd cc

  classify-IsKept : (r : Run A) → IsKept faults v r → IsKept faults v (classify_fs_collision r)
  classify-IsKept (err (throws enotdir, u)) h =
      collision-IsKept enotdir u (inl refl) (h.at _ u refl)
  classify-IsKept (err (throws eexist, u)) h = collision-IsKept eexist u (inr refl) (h.at _ u refl)
  classify-IsKept (err (throws eisdir, u)) h = h
  classify-IsKept (err (throws enoent, u)) h = h
  classify-IsKept (err (throws other_error, u)) h = h
  classify-IsKept (err (fails c, u)) h = h
  classify-IsKept (ok a) h = ok-IsKept a

fail_if-IsKept :
    (faults : Faults) (v : Vault) (b : Bool) (g : Failure) → IsKept faults v (fail_if b (g, v))
fail_if-IsKept faults v true g = err-IsKept faults v g v (inl refl)
fail_if-IsKept faults v false g = ok-IsKept faults v tt

bind-IsKept :
    {A B : Type 0} (faults : Faults) (v : Vault) (r : Run A) (k : A → Run B)
    → IsKept faults v r
    → ((a : A) → r ≡ ok a → IsKept faults v (k a))
    → IsKept faults v (r >>= k)
bind-IsKept faults v (err (g, u)) k h hk = err-IsKept faults v g u (h.at g u refl)
bind-IsKept faults v (ok a) k h hk = hk a refl

found :
    (is_folder : Bool) (node : Option Node) (g : Failure × Vault)
    → fail_if (not (if is_folder then is_folder_node node else is_file_node node)) g ≡ ok tt
    → is_there node ≡ true
found true none g e = cc
found false none g e = cc
found is_folder (some n) g e = refl

stat_gives :
    (blocked : Bool) (o held : Option Node)
    → (if blocked then err enotdir else ok o) ≡ ok held
    → held ≡ o
stat_gives true o held e = cc
stat_gives false o held e = cc

rename-IsKept :
    (faults : Faults) (v u : Vault) (from to : Text) (nodes : Nodes)
    → is_there (node_at from nodes) ≡ true
    → IsKept faults v (on_disk u (rename from to nodes))
unfolding rename
rename-IsKept faults v u from to nodes h = rw h (ok-IsKept faults v _)

rename_or_copy-IsKept :
    (faults : Faults) (v u : Vault) (o : Renaming) (from to : Text)
    → thrown_by faults.renaming ≡ thrown_by o
    → is_there (node_at from u.nodes) ≡ true
    → IsKept faults v (rename_or_copy o from to u)
rename_or_copy-IsKept faults v u renames from to e h = rename-IsKept faults v u from to u.nodes h
rename_or_copy-IsKept faults v u (refuses d) from to e h = fault-IsKept faults v d u (inr (inr e))
rename_or_copy-IsKept faults v u (crosses_devices none) from to e h =
    rename-IsKept faults v u from to u.nodes h
rename_or_copy-IsKept faults v u (crosses_devices (some (d, left))) from to e h =
    fault-IsKept faults v d _ (inr (inr e))

append_audit-IsKept :
    (faults : Faults) (v u : Vault) (o : Option FsError) (entry : AuditEntry)
    → faults.audit ≡ o
    → IsKept faults v (append_audit o entry u)
append_audit-IsKept faults v u none entry e = ok-IsKept faults v _
append_audit-IsKept faults v u (some d) entry e = fault-IsKept faults v d u (inl e)

put_metadata-IsKept :
    (faults : Faults) (v u : Vault) (o : Option FsError) (metadata : MetadataFile)
    → faults.metadata_write ≡ o
    → IsKept faults v (put_metadata o metadata u)
put_metadata-IsKept faults v u none metadata e = ok-IsKept faults v _
put_metadata-IsKept faults v u (some d) metadata e = fault-IsKept faults v d u (inr (inl e))

classified :
    (r : Result InvalidPathError Text) (rel : Text) → classify_path_error r ≡ ok rel → r ≡ ok rel
classified (err x) rel e = cc
classified (ok path) rel e = let same : path ≡ rel = cc in ap ok same

module _ (platform : Platform) (lower : Text → Text) (faults : Faults) where
  valid_same :
      (v : Vault) (path rel : Text) (kind : VaultPathKind)
      → checked v (valid platform lower path kind) ≡ ok rel
      → rel ≡ path
  valid_same v path rel kind e =
      ((validate_iff platform path kind rel).0
        (classified (validate_vault_path platform path kind) rel (checked-ok v _ rel e))).0

  module _ (format : MetadataFormat) where
    read_map-IsKept : (v : Vault) → IsKept faults v (read_map platform lower faults format v)
    read_map-IsKept v =
        bind-IsKept faults v (on_disk v (thrown faults.metadata_read)) _ (on_disk-IsKept faults v _)
          (λ _ _. checked-IsKept faults v _)

    map_for-IsKept :
        (kind : VaultPathKind) (v : Vault)
        → IsKept faults v (map_for platform lower faults format kind v)
    map_for-IsKept file v = ok-IsKept faults v none
    map_for-IsKept artifact v = ok-IsKept faults v none
    map_for-IsKept folder v =
        bind-IsKept faults v (read_map platform lower faults format v) _ (read_map-IsKept v)
          (λ m _. ok-IsKept faults v (some m))

    still_there :
        (clear : Bool) (from to : Text) (made : Nodes)
        → is_within to from ≡ false
        → is_there (node_at from made) ≡ true
        → is_there (node_at from (if clear then remove to made else made)) ≡ true
    still_there true from to made apart h = rw (node_at-remove from to made, apart) h
    still_there false from to made apart h = h

    kept_there :
        (from : Text) (o : Option Node) (paths : List Text) (nodes made : Nodes)
        → make_folders paths nodes ≡ ok made
        → node_at from nodes ≡ o
        → is_there o ≡ true
        → is_there (node_at from made) ≡ true
    kept_there from none paths nodes made e n h = cc
    kept_there from (some n) paths nodes made e h t =
        rw ((make_folders_lem paths nodes made e).1 from n h) refl

    with_moved-IsKept :
        (from to : Text) (m : Option FolderMetadataMap) (v u : Vault)
        → IsKept faults v (with_moved platform lower faults format from to m u)
    with_moved-IsKept from to none v u = ok-IsKept faults v u
    with_moved-IsKept from to (some m) v u =
        put_metadata-IsKept faults v u faults.metadata_write _ refl

    -- What follows the rename.
    noted-IsKept :
        (from to : Text) (kind : VaultPathKind) (m : Option FolderMetadataMap) (v u : Vault)
        → IsKept faults v (
            with_moved platform lower faults format from to m u >>= λ w.
            emit_vault_audit platform lower faults move kind to (some from) w)
    noted-IsKept from to kind m v u =
        bind-IsKept faults v (with_moved platform lower faults format from to m u) _
          (with_moved-IsKept from to m v u)
          (λ w _. append_audit-IsKept faults v w faults.audit _ refl)

    move_path-IsKept :
        (from to : Text) (kind : VaultPathKind) (overwrite : Bool) (m : Option FolderMetadataMap)
        (v : Vault)
        → is_within to from ≡ false
        → is_there (node_at from v.nodes) ≡ true
        → IsKept faults v (move_path platform lower faults format from to kind overwrite m v)
    unfolding move_path
    move_path-IsKept from to kind overwrite m v apart there =
        bind-IsKept faults v (on_disk v (stat_or_null to v.nodes)) _ (on_disk-IsKept faults v _)
          (λ target _.
            bind-IsKept faults v
              (fail_if (is_there target && not overwrite) (fails path_collision, v)) _
              (fail_if-IsKept faults v _ _)
              (λ _ _.
                bind-IsKept faults v (on_disk v (make_folders (ancestors to) v.nodes)) _
                  (on_disk-IsKept faults v _)
                  (λ made e.
                    let free =
                      if overwrite && is_there (node_at to made) then remove to made else made in
                    let h =
                      kept_there from _ (ancestors to) v.nodes made (on_disk-ok v _ made e) refl
                        there in
                    bind-IsKept faults v
                      (rename_or_copy faults.renaming from to (record v { nodes = free })) _
                      (rename_or_copy-IsKept faults v _ faults.renaming from to refl
                        (still_there _ from to made apart h))
                      (λ moved _. noted-IsKept from to kind m v _))))

    move-IsKept :
        (from to : Text) (kind : VaultPathKind) (overwrite : Bool) (v : Vault)
        → is_within to from ≡ false
        → IsKept faults v (move_vault_path platform lower faults format from to kind overwrite v)
    unfolding move_vault_path stat_or_null
    move-IsKept from_path to_path kind overwrite v apart = classify-IsKept faults v _ (
        bind-IsKept faults v (checked v (valid platform lower from_path kind)) _
          (checked-IsKept faults v _)
          (λ from e1.
            bind-IsKept faults v (checked v (valid platform lower to_path kind)) _
              (checked-IsKept faults v _)
              (λ to e2.
                bind-IsKept faults v
                  (fail_if (is_folder_kind kind && is_within from to) (fails invalid_path, v)) _
                  (fail_if-IsKept faults v _ _)
                  (λ _ _.
                    bind-IsKept faults v (on_disk v (stat_or_null from v.nodes)) _
                      (on_disk-IsKept faults v _)
                      (λ held e3.
                        bind-IsKept faults v
                          (fail_if
                            (not (
                              if is_folder_kind kind
                              then is_folder_node held
                              else is_file_node held))
                            (fails not_found, v))
                          _ (fail_if-IsKept faults v _ _)
                          (λ _ e4.
                            bind-IsKept faults v (map_for platform lower faults format kind v) _
                              (map_for-IsKept kind v)
                              (λ m _.
                                move_path-IsKept from to kind overwrite m v
                                  (rw
                                    (
                                      valid_same v from_path from kind e1,
                                      valid_same v to_path to kind e2,
                                    )
                                    apart)
                                  (subst (λ o. is_there o ≡ true)
                                    (stat_gives _ _ held (on_disk-ok v _ held e3))
                                    (found _ held _ e4)))))))))

    -- A move whose source is not the target and is not in the target either goes through, or it leaves the
    -- vault exactly as it was, unless it fails with an exception of the audit log, of the metadata file or of
    -- the rename and the copy in its place, or with the `path_collision` that such an exception becomes.
    pub move-unchanged :
        (from to : Text) (kind : VaultPathKind) (overwrite : Bool) (v w : Vault) (f : Failure)
        → is_within to from ≡ false
        → move_vault_path platform lower faults format from to kind overwrite v ≡ err (f, w)
        → (w ≡ v) ⊎ IsFromFault faults f
    move-unchanged from to kind overwrite v w f apart e =
        (move-IsKept from to kind overwrite v apart).at f w e
