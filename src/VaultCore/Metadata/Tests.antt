-- ===== src/VaultCore/Metadata/Tests.antt =====
-- Two folders with a color.
use kb_1_daemon.Prelude.{
  ◌≡◌, ◌≢◌, refl, [], ◌∷◌, ◌++◌, some, none, ◌||◌, ℕ, suc, ap, length, length-append, arith,
  text_eq, if◌then◌else◌, Text, text, ok,
}
use kb_1_daemon.VaultCore.Path.{posix, slash, validate_vault_path}
use kb_1_daemon.VaultCore.Metadata.{
  FolderMetadata, FolderMetadataMap, metadata_of, is_within, is_hex, is_hex_color, lower_unit,
  normalize_folder_metadata_color, remove_folder_metadata_subtree, move_folder_metadata_subtree,
  MetadataFormat, metadata_object, read_folder_metadata_map, write_folder_metadata_map,
}
use kb_1_daemon.VaultCore.Metadata.Subtrees.{IsUnique, IsBare, metadata_of-remove}
use kb_1_daemon.VaultCore.Metadata.Moves.{IsMoved, metadata_of-move}
use kb_1_daemon.VaultCore.Metadata.Files.{IsEntry, read-write}

abbrev as_it_is : FolderMetadataMap → FolderMetadataMap
as_it_is m = m

abbrev red : FolderMetadata
red = record { color = some (text "#ff0000") }

abbrev two : FolderMetadataMap
two = (text "a", red) ∷ (text "b", red) ∷ []

short_color : normalize_folder_metadata_color (text "#F00") ≡ some (text "#ff0000")
unfolding normalize_folder_metadata_color is_hex_color is_hex lower_unit
short_color = refl

two-IsUnique : IsUnique two
unfolding metadata_of
two-IsUnique = (refl, (refl, tt))

abbrev first : Text → ℕ
first [] = 0
first (c ∷ s) = c

one_unit-IsBare : (c : ℕ) → c ≢ slash → IsBare (c ∷ [])
one_unit-IsBare c n [] e = n (ap first e)
one_unit-IsBare c n (d ∷ p) e =
    let l : length (c ∷ []) ≡ suc (length (p ++ slash ∷ [])) = ap length e in
    omega (arith, length-append p (slash ∷ []))

metadata_of-remove_example :
    metadata_of (text "b") (remove_folder_metadata_subtree two (text "a")) ≡ (
      if text_eq (text "b") (text "a") || is_within (text "a") (text "b")
      then none
      else metadata_of (text "b") two)
metadata_of-remove_example = metadata_of-remove (text "b") (text "a") two

metadata_of-move_example :
    IsMoved
      (text "a")
      (text "c")
      (text "c")
      two
      (metadata_of (text "c") (move_folder_metadata_subtree two (text "a") (text "c")))
metadata_of-move_example =
    metadata_of-move (text "a") (text "c") (text "c") two (one_unit-IsBare b'c' (λ e. omega arith))
      (one_unit-IsBare b'a' (λ e. omega arith), (one_unit-IsBare b'b' (λ e. omega arith), tt))
      two-IsUnique

red_a : IsEntry posix (text "a") red
unfolding validate_vault_path normalize_folder_metadata_color is_hex_color is_hex lower_unit
red_a = record {
  path_valid = refl;
  own = refl;
  color = text "#ff0000";
  colored = refl;
  normal = refl;
}

red_b : IsEntry posix (text "b") red
unfolding validate_vault_path normalize_folder_metadata_color is_hex_color is_hex lower_unit
red_b = record {
  path_valid = refl;
  own = refl;
  color = text "#ff0000";
  colored = refl;
  normal = refl;
}

-- A format that knows one text.
abbrev one_text : MetadataFormat
one_text = record {
  parse_yaml = λ s. some (metadata_object two);
  stringify_yaml = λ v. text "folders";
  sort = λ m. m;
}

read-write_example :
    read_folder_metadata_map posix one_text (write_folder_metadata_map one_text two) ≡ ok two
read-write_example =
    read-write posix one_text two (record { unique = two-IsUnique; entries = (red_a, (red_b, tt)) })
      refl
