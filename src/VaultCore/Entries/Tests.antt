-- ===== src/VaultCore/Entries/Tests.antt =====
-- A tree of two files in two folders.
use kb_1_daemon.Prelude.{
  ◌≡◌, refl, [], ◌∷◌, Option, none, some, Text, text, map, length, leb, if◌then◌else◌, ok, err,
}
use kb_1_daemon.VaultCore.Path.{posix, is_internal_vault_path, validate_optional_vault_path}
use kb_1_daemon.VaultCore.Metadata.{VaultErrorCode, MetadataFormat, read_folder_metadata_map}
use kb_1_daemon.VaultCore.Entries.{
  Stat, Rows, no_rows, folder_row, file_row, other_row, entry_cap_exceeded, walk_rows, walk_entries,
}
use kb_1_daemon.VaultCore.Entries.Cap.{entries_of, entries_below}
use kb_1_daemon.VaultCore.Entries.Tree.{
  ListTreeInput, list_vault_tree, attach_folder_metadata, list_vault_tree_lem,
}

abbrev stat : Stat
stat = record { size = 1; mtime_ms = 2; ctime_ms = 3; ino = 4 }

abbrev same : Text → Text
same s = s

abbrev tree : Rows
tree =
    folder_row (text "d") stat
      (file_row (text "a.md") stat (folder_row (text "e") stat no_rows no_rows))
      (folder_row (text ".kb1") stat (file_row (text "f") stat no_rows)
        (other_row (text "link") no_rows))

-- The cap is reached, though nothing is left to add.
walk_capped : walk_entries same 5 3 [] 0 tree [] ≡ err entry_cap_exceeded
unfolding walk_entries walk_rows is_internal_vault_path
walk_capped = refl

entries_found :
    map (λ e. e.path) (entries_of same 5 4 [] 0 tree) ≡ text "d" ∷ text "d/a.md" ∷ text "d/e" ∷ []
unfolding entries_of is_internal_vault_path
entries_found = refl

abbrev rows_at : Text → Option Rows
rows_at path = some tree

abbrev input : ListTreeInput
input = record { under = none; depth = none; entry_cap = some 4 }

-- The parser throws on every text.
abbrev no_folders : MetadataFormat
no_folders = record { parse_yaml = λ s. none; stringify_yaml = λ v. []; sort = λ m. m }

list_vault_tree_lem_example :
    let entries = entries_below same 10 4 [] 0 tree in
    list_vault_tree same posix rows_at no_folders none input ≡ (
      if leb 4 (length entries)
      then err VaultErrorCode.entry_cap_exceeded
      else ok (attach_folder_metadata [] entries))
unfolding validate_optional_vault_path read_folder_metadata_map
list_vault_tree_lem_example =
    list_vault_tree_lem same posix rows_at no_folders none input none tree [] refl refl refl
