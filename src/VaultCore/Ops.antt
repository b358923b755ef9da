-- ===== src/VaultCore/Ops.antt =====
-- The operations of packages/vault-core/src/vault-ops.ts on the files and folders of a vault. The
-- platform, `toLowerCase`, the UTF-8 encoder and decoder, the order of `localeCompare` and the names
-- of trash folders are arguments. A second operation on the metadata waits for the first
-- (`withFolderMetadataMutation`), so operations are run one after the other. Sizes, times, summaries and
-- identifiers are left out of what an operation gives back.
pub mod Steady
pub mod Writes
pub mod Moves
mod Tests
use kb_1_daemon.Prelude.{
  Bool, true, false, not, ◌&&◌, ◌||◌, List, [], ◌∷◌, ◌++◌, Option, none, some, Text, text, any,
  if◌then◌else◌, Result, ok, err, ◌>>=◌, ◌>>◌, fail_if,
}
use kb_1_daemon.VaultCore.Path.{
  Platform, VaultPathKind, file, folder, artifact, InvalidPathError, slash, validate_vault_path,
  relative_descendant_path,
}
use kb_1_daemon.VaultCore.Artifact.{classify_artifact_path}
use kb_1_daemon.VaultCore.Metadata.{
  VaultErrorCode, invalid_path, not_editable, not_found, already_exists, path_collision,
  folder_not_empty, FolderMetadata, FolderMetadataMap, ColorInput, MetadataFile, MetadataFormat,
  metadata_of, set_metadata, delete_metadata, is_empty_metadata, normalize_folder_metadata_input,
  read_folder_metadata_map, write_folder_metadata_map, apply_folder_metadata_input,
  remove_folder_metadata_subtree, move_folder_metadata_subtree, is_within,
}
use kb_1_daemon.VaultCore.Nodes.{
  Bytes, Node, file_node, folder_node, Nodes, FsError, enotdir, eexist, eisdir, enoent, node_at,
  ancestors, is_file_node, is_folder_node, is_there, stat_or_null, make_folders, write_file, remove,
  rename,
}

pub data AuditOperation : Type 0 where
  create write mkdir delete move splice append prepend : AuditOperation

-- The parts of an audit entry that the operations choose.
pub record AuditEntry : Type 0 where
  pub operation : AuditOperation
  pub entity_kind : VaultPathKind
  pub path : Text
  pub from_path : Option Text

pub record Vault : Type 0 where
  pub nodes : Nodes
  pub metadata : MetadataFile
  pub audits : List AuditEntry

-- `{ ok: false, error }`, or an exception that is not caught.
pub data Failure : Type 0 where
  fails : VaultErrorCode → Failure
  throws : FsError → Failure

-- What an operation does: it fails and leaves a vault, or gives a value and a vault.
abbrev pub Run : Type 0 → Type 0
Run A = Result (Failure × Vault) A

-- A test that does not change the vault.
abbrev pub checked : {A : Type 0} → Vault → Result Failure A → Run A
checked v (err f) = err (f, v)
checked v (ok a) = ok a

abbrev pub on_disk : {A : Type 0} → Vault → Result FsError A → Run A
on_disk v (err e) = err (throws e, v)
on_disk v (ok a) = ok a

-- `classifyFsCollision` in the handler of an exception
abbrev pub classify_fs_collision : {A : Type 0} → Run A → Run A
classify_fs_collision (err (throws enotdir, v)) = err (fails path_collision, v)
classify_fs_collision (err (throws eexist, v)) = err (fails path_collision, v)
classify_fs_collision r = r

-- `validateVaultPath`, with `classifyPathError` in the handler
abbrev pub classify_path_error : Result InvalidPathError Text → Result Failure Text
classify_path_error (err e) = err (fails invalid_path)
classify_path_error (ok path) = ok path

abbrev pub as_failure : {A : Type 0} → Result VaultErrorCode A → Result Failure A
as_failure (err code) = err (fails code)
as_failure (ok a) = ok a

abbrev pub with_nodes : Vault → Nodes → Vault
with_nodes v nodes = record v { nodes = nodes }

-- What becomes of a `rename`: it is done, it throws, or it throws EXDEV and a copy and a removal take its
-- place, which may throw in their turn and leave some nodes.
pub data Renaming : Type 0 where
  renames : Renaming
  refuses : FsError → Renaming
  crosses_devices : Option (FsError × Nodes) → Renaming

-- What throws: `mkdir` and `appendFile` of the audit log, the read of the metadata file other than by ENOENT, what
-- writes it, and the rename of a move.
pub record Faults : Type 0 where
  pub audit : Option FsError
  pub metadata_read : Option FsError
  pub metadata_write : Option FsError
  pub renaming : Renaming

abbrev pub no_faults : Faults
no_faults = record { audit = none; metadata_read = none; metadata_write = none; renaming = renames }

abbrev pub thrown : Option FsError → Result FsError (Unit {0})
thrown none = ok tt
thrown (some e) = err e

abbrev pub append_audit : Option FsError → AuditEntry → Vault → Run Vault
append_audit (some e) entry v = err (throws e, v)
append_audit none entry v = ok (record v { audits = v.audits ++ entry ∷ [] })

abbrev pub put_metadata : Option FsError → MetadataFile → Vault → Run Vault
put_metadata (some e) metadata v = err (throws e, v)
put_metadata none metadata v = ok (record v { metadata = metadata })

-- The rename of a move. The copy and the removal come to the same as a rename.
abbrev pub rename_or_copy : Renaming → Text → Text → Vault → Run Nodes
rename_or_copy renames from to v = on_disk v (rename from to v.nodes)
rename_or_copy (refuses e) from to v = err (throws e, v)
rename_or_copy (crosses_devices none) from to v = on_disk v (rename from to v.nodes)
rename_or_copy (crosses_devices (some (e, left))) from to v = err (throws e, with_nodes v left)

abbrev pub trash_relative_path : Text → Text → Text
trash_relative_path batch_id original = text ".kb1/trash/" ++ batch_id ++ slash ∷ original

abbrev pub bytes_of : Option Node → Result Failure Bytes
bytes_of (some (file_node bytes)) = ok bytes
bytes_of _ = err (fails not_found)

-- `relativeDescendantPath` of a node that is in the folder, and not the folder itself.
abbrev pub is_child : Option Text → Bool
is_child (some (c ∷ rest)) = true
is_child _ = false

abbrev pub or_no_metadata : Option FolderMetadata → FolderMetadata
or_no_metadata none = record { color = none }
or_no_metadata (some m) = m

abbrev pub is_folder_kind : VaultPathKind → Bool
is_folder_kind folder = true
is_folder_kind _ = false

module _ (platform : Platform) (to_lower_case : Text → Text) where
  abbrev pub valid : Text → VaultPathKind → Result Failure Text
  valid path kind = classify_path_error (validate_vault_path platform path kind)

  abbrev pub ensure_editable_artifact : Text → Result Failure (Unit {0})
  ensure_editable_artifact rel =
      fail_if (not (classify_artifact_path to_lower_case rel).editable) (fails not_editable)

  -- From the raw bytes of a file.
  unfoldable pub read_vault_raw_file : Text → Vault → Run Bytes
  read_vault_raw_file path v = do
    rel ← checked v (valid path artifact)
    node ← on_disk v (stat_or_null rel v.nodes)
    checked v (bytes_of node)

  unfoldable pub read_vault_file : (Bytes → Text) → Text → Vault → Run Text
  read_vault_file decode path v = do
    rel ← checked v (valid path file)
    checked v (ensure_editable_artifact rel)
    node ← on_disk v (stat_or_null rel v.nodes)
    bytes ← checked v (bytes_of node)
    ok (decode bytes)

  module _ (faults : Faults) where
    -- `emitVaultAudit`
    abbrev pub emit_vault_audit :
        AuditOperation → VaultPathKind → Text → Option Text → Vault → Run Vault
    emit_vault_audit operation kind path from_path v =
        append_audit faults.audit
          (record { operation = operation; entity_kind = kind; path = path; from_path = from_path })
          v

    -- What both functions that write a file do once its path is valid.
    pub write_at : Text → Bytes → Bool → Vault → Run Vault
    write_at rel bytes overwrite v = do
      node ← on_disk v (stat_or_null rel v.nodes)
      fail_if (is_there node && not overwrite) (fails already_exists, v)
      made ← on_disk v (make_folders (ancestors rel) v.nodes)
      written ← on_disk (with_nodes v made) (write_file rel bytes made)
      emit_vault_audit (if is_there node then write else create) file rel none
          (with_nodes v written)

    unfoldable pub write_vault_file : (Text → Bytes) → Text → Text → Bool → Vault → Run Vault
    unfolding write_at
    write_vault_file encode path content overwrite v = classify_fs_collision (do
      rel ← checked v (valid path file)
      checked v (ensure_editable_artifact rel)
      write_at rel (encode content) overwrite v)

    unfoldable pub write_vault_raw_file : Text → Bytes → Bool → Vault → Run Vault
    unfolding write_at
    write_vault_raw_file path bytes overwrite v =
        classify_fs_collision
          (do rel ← checked v (valid path artifact); write_at rel bytes overwrite v)

    abbrev pub made_folder : Bool → Text → Vault → Run Vault
    made_folder true rel v = ok v
    made_folder false rel v = emit_vault_audit mkdir folder rel none v

    unfoldable pub make_vault_folder : Text → Vault → Run Vault
    make_vault_folder path v = classify_fs_collision (do
      rel ← checked v (valid path folder)
      node ← on_disk v (stat_or_null rel v.nodes)
      made ← on_disk v (make_folders (ancestors rel ++ rel ∷ []) v.nodes)
      made_folder (is_there node) rel (with_nodes v made))

    -- A file or a folder goes for good, or to the trash.
    pub take_away : Text → Bool → Text → Vault → Run Nodes
    take_away rel permanent batch_id v = if permanent then ok (remove rel v.nodes) else (do
      made ← on_disk v (make_folders (ancestors (trash_relative_path batch_id rel)) v.nodes)
      on_disk (with_nodes v made) (rename rel (trash_relative_path batch_id rel) made))

    unfoldable pub delete_vault_file : Text → Bool → Text → Vault → Run Vault
    unfolding take_away
    delete_vault_file path permanent batch_id v = do
      rel ← checked v (valid path file)
      node ← on_disk v (stat_or_null rel v.nodes)
      fail_if (not (is_file_node node)) (fails not_found, v)
      nodes ← take_away rel permanent batch_id v
      emit_vault_audit delete file rel none (with_nodes v nodes)

    -- Does anything stand in the folder?
    abbrev pub has_children : Text → Nodes → Bool
    has_children rel nodes = any (λ e. is_child (relative_descendant_path rel e.0)) nodes

    module _ (format : MetadataFormat) where
      abbrev pub read_map : Vault → Run FolderMetadataMap
      read_map v = do
        on_disk v (thrown faults.metadata_read)
        checked v (as_failure (read_folder_metadata_map platform format v.metadata))

      abbrev pub write_map : FolderMetadataMap → Vault → Run Vault
      write_map m v = put_metadata faults.metadata_write (write_folder_metadata_map format m) v

      unfoldable pub list_folder_metadata : Vault → Run FolderMetadataMap
      list_folder_metadata v = read_map v

      unfoldable pub get_folder_metadata : Text → Vault → Run FolderMetadata
      get_folder_metadata path v = do
        rel ← checked v (valid path folder)
        node ← on_disk v (stat_or_null rel v.nodes)
        fail_if (not (is_folder_node node)) (fails not_found, v)
        m ← read_map v
        ok (or_no_metadata (metadata_of rel m))

      unfoldable pub set_folder_metadata : Text → ColorInput → Vault → Run Vault
      set_folder_metadata path input v = do
        rel ← checked v (valid path folder)
        normalized ← checked v (as_failure (normalize_folder_metadata_input input))
        node ← on_disk v (stat_or_null rel v.nodes)
        fail_if (not (is_folder_node node)) (fails not_found, v)
        m ← read_map v
        let next = apply_folder_metadata_input (or_no_metadata (metadata_of rel m)) normalized
        let next_map =
            if is_empty_metadata next then delete_metadata rel m else set_metadata rel next m
        w ← write_map next_map v
        emit_vault_audit write folder rel none w

      unfoldable pub delete_vault_folder : Text → Bool → Bool → Text → Vault → Run Vault
      unfolding take_away
      delete_vault_folder path recursive permanent batch_id v = do
        rel ← checked v (valid path folder)
        node ← on_disk v (stat_or_null rel v.nodes)
        fail_if (not (is_folder_node node)) (fails not_found, v)
        fail_if (has_children rel v.nodes && not recursive) (fails folder_not_empty, v)
        m ← read_map v
        nodes ← take_away rel permanent batch_id v
        w ← write_map (remove_folder_metadata_subtree m rel) (with_nodes v nodes)
        emit_vault_audit delete folder rel none w

      abbrev pub with_moved : Text → Text → Option FolderMetadataMap → Vault → Run Vault
      with_moved from to none v = ok v
      with_moved from to (some m) v = write_map (move_folder_metadata_subtree m from to) v

      abbrev pub map_for : VaultPathKind → Vault → Run (Option FolderMetadataMap)
      map_for folder v = read_map v >>= λ m. ok (some m)
      map_for _ v = ok none

      -- `movePath`, which is given the metadata for a folder.
      pub move_path :
          Text → Text → VaultPathKind → Bool → Option FolderMetadataMap → Vault → Run Vault
      move_path from to kind overwrite metadata v = do
        target ← on_disk v (stat_or_null to v.nodes)
        fail_if (is_there target && not overwrite) (fails path_collision, v)
        made ← on_disk v (make_folders (ancestors to) v.nodes)
        let free = if overwrite && is_there (node_at to made) then remove to made else made
        moved ← rename_or_copy faults.renaming from to (with_nodes v free)
        w ← with_moved from to metadata (with_nodes v moved)
        emit_vault_audit move kind to (some from) w

      unfoldable pub move_vault_path : Text → Text → VaultPathKind → Bool → Vault → Run Vault
      unfolding move_path
      move_vault_path from_path to_path kind overwrite v = classify_fs_collision (do
        from ← checked v (valid from_path kind)
        to ← checked v (valid to_path kind)
        fail_if (is_folder_kind kind && is_within from to) (fails invalid_path, v)
        node ← on_disk v (stat_or_null from v.nodes)
        fail_if (not (if is_folder_kind kind then is_folder_node node else is_file_node node))
            (fails not_found, v)
        metadata ← map_for kind v
        move_path from to kind overwrite metadata v)
