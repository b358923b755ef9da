-- ===== src/VaultCore/Metadata.antt =====
-- The metadata of folders: packages/vault-core/src/folder-metadata-options.ts, and the functions of
-- vault-ops.ts that read and change the map of them. A map is an association list; the YAML library's
-- `parse` and `stringify` are not part of the model, which starts from the parsed value.
-- In the source a map is an object: a folder named as a property of Object.prototype, such as __proto__, and the
-- order of names that are integers are not modelled.
pub mod Colors
pub mod Subtrees
pub mod Moves
pub mod Files
mod Tests
use kb_1_daemon.Prelude.{
  ℕ, zero, suc, ◌+◌, Bool, true, false, not, ◌&&◌, ◌||◌, List, [], ◌∷◌, ◌++◌, map, all, Option,
  none, some, Text, text, text_eq, length, leb, ◌==◌, if◌then◌else◌, Result, ok, err, ◌>>=◌,
}
use kb_1_daemon.Tunnel.Relay.Value.{Value, undefined, null, string, object, Fields, end, field, get}
use kb_1_daemon.VaultCore.Path.{
  Platform, folder, slash, validate_vault_path, InvalidPathError, relative_descendant_path,
}

pub data VaultErrorCode : Type 0 where
  invalid_path invalid_metadata not_editable not_found already_exists path_collision :
      VaultErrorCode
  folder_not_empty entry_cap_exceeded metadata_parse_failed : VaultErrorCode

abbrev pub inherit_color : Text
inherit_color = text "inherit"

-- `[0-9a-fA-F]`
unfoldable pub is_hex : ℕ → Bool
is_hex c = (leb b'0' c && leb c b'9') || (leb b'a' c && leb c b'f') || (leb b'A' c && leb c b'F')

-- `toLowerCase` for the units that the pattern lets through
unfoldable pub lower_unit : ℕ → ℕ
lower_unit c = if leb b'A' c && leb c b'Z' then c + 32 else c

-- `/^#(?:[0-9a-fA-F]{3}|[0-9a-fA-F]{6})$/`
unfoldable pub is_hex_color : Text → Bool
unfolding is_hex
is_hex_color [] = false
is_hex_color (c ∷ s) = c == b'#' && all is_hex s && (length s == 3 || length s == 6)

-- A color of three digits has each of them doubled.
abbrev pub expand : Text → Text
expand (h ∷ r ∷ g ∷ b ∷ []) = b'#' ∷ r ∷ r ∷ g ∷ g ∷ b ∷ b ∷ []
expand color = color

unfoldable pub normalize_folder_metadata_color : Text → Option Text
unfolding is_hex_color lower_unit
normalize_folder_metadata_color color =
    if text_eq color inherit_color
    then some inherit_color
    else if is_hex_color color
    then some (expand (map lower_unit color))
    else none

pub record FolderMetadata : Type 0 where
  pub color : Option Text

abbrev pub FolderMetadataMap : Type 0
FolderMetadataMap = List (Text × FolderMetadata)

-- The field `color` of the input: not there, null, a string, or of another type.
pub data ColorInput : Type 0 where
  absent clear other : ColorInput
  set : Text → ColorInput

abbrev pub or_code : Option Text → VaultErrorCode → Result VaultErrorCode Text
or_code none code = err code
or_code (some color) code = ok color

-- The color of an entry of the file, normalised.
abbrev pub entry_color : Value → Result VaultErrorCode FolderMetadata
entry_color undefined = ok (record { color = none })
entry_color (string s) = or_code (normalize_folder_metadata_color s) metadata_parse_failed >>= λ c.
    ok (record { color = some c })
entry_color _ = err metadata_parse_failed

unfoldable pub normalize_folder_metadata_entry : Value → Result VaultErrorCode FolderMetadata
normalize_folder_metadata_entry (object plain fields) = entry_color (get (text "color") fields)
normalize_folder_metadata_entry _ = err metadata_parse_failed

unfoldable pub normalize_folder_metadata_input : ColorInput → Result VaultErrorCode ColorInput
normalize_folder_metadata_input absent = ok absent
normalize_folder_metadata_input clear = ok clear
normalize_folder_metadata_input other = err invalid_metadata
normalize_folder_metadata_input (set s) =
    or_code (normalize_folder_metadata_color s) invalid_metadata >>= λ c. ok (set c)

abbrev pub is_empty_metadata : FolderMetadata → Bool
is_empty_metadata m = elim m.color [ none ↦ true | some c ↦ false ]

-- `map[key]`
unfoldable pub metadata_of : Text → FolderMetadataMap → Option FolderMetadata
metadata_of key [] = none
metadata_of key ((k, v) ∷ m) = if text_eq k key then some v else metadata_of key m

-- `map[key] = value`
unfoldable pub set_metadata : Text → FolderMetadata → FolderMetadataMap → FolderMetadataMap
set_metadata key value [] = (key, value) ∷ []
set_metadata key value ((k, v) ∷ m) =
    let rest = set_metadata key value m in if text_eq k key then (k, value) ∷ m else (k, v) ∷ rest

-- `delete map[key]`
unfoldable pub delete_metadata : Text → FolderMetadataMap → FolderMetadataMap
delete_metadata key [] = []
delete_metadata key ((k, v) ∷ m) =
    let rest = delete_metadata key m in if text_eq k key then rest else (k, v) ∷ rest

abbrev pub as_malformed : Result InvalidPathError Text → Result VaultErrorCode Text
as_malformed (err e) = err metadata_parse_failed
as_malformed (ok p) = ok p

-- `map[path] = value` on a plain object: for `__proto__` it sets the prototype, and no entry.
abbrev pub assign_metadata : Text → FolderMetadata → FolderMetadataMap → FolderMetadataMap
assign_metadata path value m =
    if text_eq path (text "__proto__") then m else set_metadata path value m

-- The loop over the entries of the file.
unfoldable pub read_entries :
    Platform → Fields → FolderMetadataMap → Result VaultErrorCode FolderMetadataMap
unfolding normalize_folder_metadata_entry set_metadata
read_entries platform end found = ok found
read_entries platform (field path raw fields) found =
    as_malformed (validate_vault_path platform path folder) >>= λ _.
    normalize_folder_metadata_entry raw >>= λ m.
    read_entries platform fields
      (if is_empty_metadata m then found else assign_metadata path m found)

abbrev pub folders_of : Platform → Value → Result VaultErrorCode FolderMetadataMap
folders_of platform (object plain fields) = read_entries platform fields []
folders_of platform _ = err metadata_parse_failed

-- The text of .kb1/folders.yml, if there is such a file.
abbrev pub MetadataFile : Type 0
MetadataFile = Option Text

-- `parseYaml` and `stringifyYaml` of the package yaml, where `none` is an exception, and the sort of the entries by
-- `localeCompare`.
pub record MetadataFormat : Type 0 where
  pub parse_yaml : Text → Option Value
  pub stringify_yaml : Value → Text
  pub sort : FolderMetadataMap → FolderMetadataMap

abbrev pub read_value : Platform → Option Value → Result VaultErrorCode FolderMetadataMap
read_value platform (some (object plain fields)) = folders_of platform (get (text "folders") fields)
read_value platform _ = err metadata_parse_failed

unfoldable pub read_folder_metadata_map :
    Platform → MetadataFormat → MetadataFile → Result VaultErrorCode FolderMetadataMap
unfolding read_entries
read_folder_metadata_map platform format none = ok []
read_folder_metadata_map platform format (some content) =
    read_value platform (format.parse_yaml content)

abbrev pub metadata_value : FolderMetadata → Value
metadata_value m = elim m.color [
  | none ↦ object true end
  | some c ↦ object true (field (text "color") (string c) end)
]

abbrev pub entry_fields : FolderMetadataMap → Fields
entry_fields [] = end
entry_fields ((k, v) ∷ m) = field k (metadata_value v) (entry_fields m)

abbrev pub metadata_object : FolderMetadataMap → Value
metadata_object m = object true (field (text "folders") (object true (entry_fields m)) end)

-- The text of the temporary file, which is then renamed over the old one.
unfoldable pub write_folder_metadata_map : MetadataFormat → FolderMetadataMap → MetadataFile
write_folder_metadata_map format m = some (format.stringify_yaml (metadata_object (format.sort m)))

unfoldable pub apply_folder_metadata_input : FolderMetadata → ColorInput → FolderMetadata
apply_folder_metadata_input current absent = current
apply_folder_metadata_input current clear = record { color = none }
apply_folder_metadata_input current (set c) = record { color = some c }
apply_folder_metadata_input current other = current

-- Is the path the folder or in it?
unfoldable pub is_within : Text → Text → Bool
is_within parent path = elim (relative_descendant_path parent path) [ none ↦ false | some r ↦ true ]

unfoldable pub remove_folder_metadata_subtree : FolderMetadataMap → Text → FolderMetadataMap
unfolding is_within
remove_folder_metadata_subtree [] deleted = []
remove_folder_metadata_subtree ((k, v) ∷ m) deleted =
    let rest = remove_folder_metadata_subtree m deleted in
    if not (text_eq k deleted) && not (is_within deleted k) then (k, v) ∷ rest else rest

-- `path.posix.join(to, rest)` for a path `to` and a rest that are normalised.
abbrev pub join_rest : Text → Text → Text
join_rest to [] = to
join_rest to (c ∷ rest) = to ++ slash ∷ c ∷ rest

-- Where an entry goes, if it is not dropped.
unfoldable pub moved_key : Text → Text → Text → Option Text
unfolding is_within
moved_key from to key = elim (relative_descendant_path from key) [
  | some rest ↦ some (join_rest to rest)
  | none ↦ if text_eq key to || is_within to key then none else some key
]

abbrev pub put_moved : Option Text → FolderMetadata → FolderMetadataMap → FolderMetadataMap
put_moved none v next = next
put_moved (some key) v next = set_metadata key v next

unfoldable pub move_entries :
    Text → Text → FolderMetadataMap → FolderMetadataMap → FolderMetadataMap
unfolding set_metadata moved_key
move_entries from to next [] = next
move_entries from to next ((k, v) ∷ m) =
    move_entries from to (put_moved (moved_key from to k) v next) m

unfoldable pub move_folder_metadata_subtree : FolderMetadataMap → Text → Text → FolderMetadataMap
unfolding move_entries
move_folder_metadata_subtree m from to = move_entries from to [] m
