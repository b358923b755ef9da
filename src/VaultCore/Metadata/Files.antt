-- ===== src/VaultCore/Metadata/Files.antt =====
-- The file of the metadata, written and read again.
use kb_1_daemon.Prelude.{
  ◌≡◌, refl, sym, ap, ◌∙◌, false, [], ◌∷◌, ◌++◌, append-nil, append_assoc, All, none, some, Text,
  text, text_eq, text_eq_iff, arith, ok, Bool-cases, inl, inr,
}
use kb_1_daemon.Tunnel.Relay.Value.{get}
use kb_1_daemon.VaultCore.Path.{Platform, folder, validate_vault_path}
use kb_1_daemon.VaultCore.Metadata.{
  FolderMetadata, FolderMetadataMap, metadata_of, set_metadata, read_entries,
  normalize_folder_metadata_color, normalize_folder_metadata_entry, metadata_value, entry_fields,
  MetadataFormat, metadata_object, read_value, read_folder_metadata_map, write_folder_metadata_map,
}
use kb_1_daemon.VaultCore.Metadata.Subtrees.{IsUnique}

-- A valid folder path, which is not `__proto__`, with a color that is normalised.
pub record IsEntry (platform : Platform) (path : Text) (m : FolderMetadata) : Type 0 where
  pub path_valid : validate_vault_path platform path folder ≡ ok path
  pub color : Text
  pub colored : m ≡ record { color = some color }
  pub own : text_eq path (text "__proto__") ≡ false
  pub normal : normalize_folder_metadata_color color ≡ some color

-- What the operations keep in the file.
pub record IsMap (platform : Platform) (m : FolderMetadataMap) : Type 0 where
  pub unique : IsUnique m
  pub entries : All (λ e. IsEntry platform e.0 e.1) m

get_color :
    (c : Text)
    → normalize_folder_metadata_color c ≡ some c
    → normalize_folder_metadata_entry (metadata_value (record { color = some c }))
      ≡ ok (record { color = some c })
unfolding normalize_folder_metadata_entry get
get_color c h = rw h refl

set-fresh :
    (k : Text) (v : FolderMetadata) (m : FolderMetadataMap)
    → metadata_of k m ≡ none
    → set_metadata k v m ≡ m ++ (k, v) ∷ []
unfolding metadata_of set_metadata
set-fresh k v [] h = refl
set-fresh k v ((j, w) ∷ m) h = elim (Bool-cases (text_eq j k)) [
  | inl e ↦ let g : some w ≡ none = rw e at h in cc
  | inr e ↦ rw e (ap (λ t. (j, w) ∷ t) (set-fresh k v m (rw e at h)))
]

abbrev IsFresh : FolderMetadataMap → FolderMetadataMap → Type 0
IsFresh found m = All (λ e. metadata_of e.0 found ≡ none) m

metadata_of-append :
    (key k : Text) (v : FolderMetadata) (found : FolderMetadataMap)
    → metadata_of key found ≡ none
    → text_eq k key ≡ false
    → metadata_of key (found ++ (k, v) ∷ []) ≡ none
unfolding metadata_of
metadata_of-append key k v [] h e = rw e refl
metadata_of-append key k v ((j, w) ∷ found) h e = ground (arith, metadata_of-append key k v found)

IsFresh-append :
    (k : Text) (v : FolderMetadata) (found m : FolderMetadataMap)
    → metadata_of k m ≡ none
    → IsFresh found m
    → IsFresh (found ++ (k, v) ∷ []) m
unfolding metadata_of
IsFresh-append k v found [] n h = tt
IsFresh-append k v found ((j, w) ∷ m) n (f, h) = (
  metadata_of-append j k v found f (ground (arith, text_eq_iff k j, text_eq_iff j k)),
  IsFresh-append k v found m (ground arith) h,
)

read_entries_lem :
    (platform : Platform) (m found : FolderMetadataMap)
    → All (λ e. IsEntry platform e.0 e.1) m
    → IsUnique m
    → IsFresh found m
    → read_entries platform (entry_fields m) found ≡ ok (found ++ m)
unfolding read_entries
read_entries_lem platform [] found h u f = ap ok (sym (append-nil found))
read_entries_lem platform ((k, v) ∷ m) found (e, h) (n, u) (f, g) =
    let w : FolderMetadata = record { color = some e.color } in
    rw (e.path_valid, e.colored, get_color e.color e.normal, e.own, set-fresh k w found f)
      (read_entries_lem platform m (found ++ (k, w) ∷ []) h u (IsFresh-append k w found m n g)
        ∙ ap ok (append_assoc found ((k, w) ∷ []) m))

nothing_yet : (m : FolderMetadataMap) → IsFresh [] m
unfolding metadata_of
nothing_yet [] = tt
nothing_yet ((k, v) ∷ m) = (refl, nothing_yet m)

-- If the YAML parser reads the text of the map's object as that object: a map of valid folder paths other than
-- `__proto__`, each with a normalised color and none twice, is read as it was written.
pub read-write :
    (platform : Platform) (format : MetadataFormat) (m : FolderMetadataMap)
    → IsMap platform (format.sort m)
    → format.parse_yaml (format.stringify_yaml (metadata_object (format.sort m)))
      ≡ some (metadata_object (format.sort m))
    → read_folder_metadata_map platform format (write_folder_metadata_map format m)
      ≡ ok (format.sort m)
unfolding read_folder_metadata_map write_folder_metadata_map get
read-write platform format m h y =
    ap (read_value platform) y
    ∙ read_entries_lem platform (format.sort m) [] h.entries h.unique (nothing_yet (format.sort m))
