-- ===== src/VaultCore/Entries/Tree.antt =====
-- `getVaultInfo`, `listVaultTree` and `attachFolderMetadata` of packages/vault-core/src/vault-ops.ts around the walk. What
-- stands below a folder is an argument, `none` if there is no such folder.
use kb_1_daemon.Prelude.{
  ℕ, ◌+◌, ◌≡◌, refl, ap, ◌∙◌, Bool-cases, inl, inr, List, [], ◌∷◌, Option, none, some, Text, length,
  leb, if◌then◌else◌, Result, ok, err,
}
use kb_1_daemon.VaultCore.Path.{Platform, folder, InvalidPathError, validate_optional_vault_path}
use kb_1_daemon.VaultCore.Search.{or_root, max_safe_integer}
use kb_1_daemon.VaultCore.Metadata.{
  VaultErrorCode, invalid_path, not_found, entry_cap_exceeded, FolderMetadata, FolderMetadataMap,
  metadata_of, MetadataFile, MetadataFormat, read_folder_metadata_map,
}
use kb_1_daemon.VaultCore.Entries.{
  VaultEntry, EntryKind, file_entry, folder_entry, Rows, EntryCapExceededError, check_cap,
  walk_entries,
}
use kb_1_daemon.VaultCore.Entries.Cap.{entries_below, walk_entries_lem}

abbrev pub default_depth : ℕ
default_depth = 10

abbrev pub default_entry_cap : ℕ
default_entry_cap = 5000

pub record VaultInfo : Type 0 where
  pub root_name : Text
  pub file_count : ℕ
  pub folder_count : ℕ

-- An entry with its field `metadata`.
pub record TreeEntry : Type 0 where
  pub entry : VaultEntry
  pub metadata : Option FolderMetadata

pub record ListTreeInput : Type 0 where
  pub under : Option Text
  pub depth : Option ℕ
  pub entry_cap : Option ℕ

abbrev pub metadata_for : FolderMetadataMap → EntryKind → Text → Option FolderMetadata
metadata_for metadata file_entry path = none
metadata_for metadata folder_entry path = metadata_of path metadata

unfoldable pub attach_folder_metadata : FolderMetadataMap → List VaultEntry → List TreeEntry
attach_folder_metadata metadata [] = []
attach_folder_metadata metadata (e ∷ entries) =
    record { entry = e; metadata = metadata_for metadata e.kind e.path }
    ∷ attach_folder_metadata metadata entries

abbrev pub add_if_file : EntryKind → ℕ → ℕ
add_if_file file_entry n = n + 1
add_if_file folder_entry n = n

abbrev pub add_if_folder : EntryKind → ℕ → ℕ
add_if_folder file_entry n = n
add_if_folder folder_entry n = n + 1

unfoldable pub file_count_of : List VaultEntry → ℕ
file_count_of [] = 0
file_count_of (e ∷ entries) = add_if_file e.kind (file_count_of entries)

unfoldable pub folder_count_of : List VaultEntry → ℕ
folder_count_of [] = 0
folder_count_of (e ∷ entries) = add_if_folder e.kind (folder_count_of entries)

abbrev pub given_or : Option ℕ → ℕ → ℕ
given_or none n = n
given_or (some m) n = m

module _ (to_lower_case : Text → Text) where
  abbrev pub vault_info_of :
      Text → Result EntryCapExceededError (List VaultEntry) → Result VaultErrorCode VaultInfo
  vault_info_of root_name (err e) = err entry_cap_exceeded
  vault_info_of root_name (ok entries) = ok (record {
    root_name = root_name;
    file_count = file_count_of entries;
    folder_count = folder_count_of entries;
  })

  -- The rows of the root, which `mkdir` has made if it was not there.
  unfoldable pub get_vault_info : Text → Rows → Result VaultErrorCode VaultInfo
  unfolding walk_entries
  get_vault_info root_name rows =
      vault_info_of root_name
        (walk_entries to_lower_case max_safe_integer default_entry_cap [] 0 rows [])

  module _ (platform : Platform) (rows_at : Text → Option Rows) (format : MetadataFormat)
      (file : MetadataFile) where
    abbrev pub with_metadata :
        List VaultEntry
        → Result VaultErrorCode FolderMetadataMap
        → Result VaultErrorCode (List TreeEntry)
    with_metadata entries (err e) = err e
    with_metadata entries (ok metadata) = ok (attach_folder_metadata metadata entries)

    abbrev pub with_entries :
        Result EntryCapExceededError (List VaultEntry) → Result VaultErrorCode (List TreeEntry)
    with_entries (err e) = err entry_cap_exceeded
    with_entries (ok entries) =
        with_metadata entries (read_folder_metadata_map platform format file)

    abbrev pub with_rows :
        ListTreeInput → Text → Option Rows → Result VaultErrorCode (List TreeEntry)
    with_rows input under none = err not_found
    with_rows input under (some rows) = with_entries (
        walk_entries to_lower_case (given_or input.depth default_depth)
          (given_or input.entry_cap default_entry_cap) under 0 rows [])

    abbrev pub with_folder :
        ListTreeInput
        → Result InvalidPathError (Option Text)
        → Result VaultErrorCode (List TreeEntry)
    with_folder input (err e) = err invalid_path
    with_folder input (ok under) = with_rows input (or_root under) (rows_at (or_root under))

    unfoldable pub list_vault_tree : ListTreeInput → Result VaultErrorCode (List TreeEntry)
    list_vault_tree input =
        with_folder input (validate_optional_vault_path platform input.under folder)

    with_entries_checked :
        (cap : ℕ) (entries : List VaultEntry) (metadata : FolderMetadataMap)
        → read_folder_metadata_map platform format file ≡ ok metadata
        → with_entries (check_cap cap entries) ≡ (
            if leb cap (length entries)
            then err entry_cap_exceeded
            else ok (attach_folder_metadata metadata entries))
    with_entries_checked cap entries metadata m = elim (Bool-cases (leb cap (length entries))) [
      | inl e ↦ rw e refl
      | inr e ↦ rw (e, m) refl
    ]

    -- For a valid path of a folder that is there, with metadata that can be read: the listing fails exactly if the
    -- entries below the folder reach the cap, and else gives all of them in order, down to the depth, each
    -- folder with its metadata.
    pub list_vault_tree_lem :
        (input : ListTreeInput) (under : Option Text) (rows : Rows) (metadata : FolderMetadataMap)
        → validate_optional_vault_path platform input.under folder ≡ ok under
        → rows_at (or_root under) ≡ some rows
        → read_folder_metadata_map platform format file ≡ ok metadata
        → let cap = given_or input.entry_cap default_entry_cap in
          let entries =
            entries_below to_lower_case
              (given_or input.depth default_depth)
              cap
              (or_root under)
              0
              rows in
          list_vault_tree input ≡ (
            if leb cap (length entries)
            then err entry_cap_exceeded
            else ok (attach_folder_metadata metadata entries))
    unfolding list_vault_tree
    list_vault_tree_lem input under rows metadata v r m =
        let cap = given_or input.entry_cap default_entry_cap in
        let depth = given_or input.depth default_depth in
        ap (with_folder input) v
        ∙ ap (with_rows input (or_root under)) r
        ∙ ap with_entries (walk_entries_lem to_lower_case depth cap (or_root under) 0 rows [])
        ∙ with_entries_checked cap (entries_below to_lower_case depth cap (or_root under) 0 rows)
            metadata m
