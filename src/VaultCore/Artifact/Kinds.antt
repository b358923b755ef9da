-- ===== src/VaultCore/Artifact/Kinds.antt =====
-- What every classification satisfies, and that folders do not matter for it.
use kb_1_daemon.Prelude.{
  ℕ, suc, ◌≡◌, refl, Bool, true, false, not, ◌&&◌, &&-true, List, [], ◌∷◌, ◌++◌, Option, none, some,
  Text, text, text_eq, ends_with, starts_with, all, drop, length, Lacks, ==_self, ==-false, leb,
  ◌-◌, sym, if◌then◌else◌, ap,
}
use kb_1_daemon.VaultCore.Artifact.{
  text_file, attachment, ArtifactPreview, markdown, plain_text, ArtifactInfo, ArtifactType,
  text_artifact_extensions, attachment_artifact_extensions, info_of, lookup, after_last, leaf_of,
  artifact_extension, classify_extension, classify_artifact_path,
}

abbrev pub is_text_preview : ArtifactPreview → Bool
is_text_preview markdown = true
is_text_preview plain_text = true
is_text_preview _ = false

-- Text is declared as UTF-8.
abbrev pub is_text_type : ArtifactType → Bool
is_text_type t = is_text_preview t.preview && ends_with (text "; charset=utf-8") t.content_type

-- No content type that a browser would render as a page or run as a script.
abbrev pub is_attachment_type : ArtifactType → Bool
is_attachment_type t =
    not (is_text_preview t.preview)
    && not (starts_with (text "text/") t.content_type)
    && not (text_eq t.content_type (text "image/svg+xml"))

abbrev pub type_of : ArtifactInfo → ArtifactType
type_of i = record { content_type = i.content_type; preview = i.preview }

-- The text files are those that can be edited, and what is not text is no active content.
abbrev pub is_consistent : ArtifactInfo → Bool
is_consistent i = elim i.kind [
  | text_file ↦ i.editable && is_text_type (type_of i)
  | attachment ↦ not i.editable && is_attachment_type (type_of i)
]

module _ {A : Type 0} (p : A → Bool) (key : Text) where
  found_all :
      (hit : Bool) (b a : A) (next : Option A)
      → p b ≡ true
      → (next ≡ some a → p a ≡ true)
      → (if hit then some b else next) ≡ some a
      → p a ≡ true
  found_all true b a next h again e = let same : b ≡ a = cc in rw (sym same) h
  found_all false b a next h again e = again e

  every_entry :
      (table : List (Text × A)) (a : A)
      → all (λ e. p e.1) table ≡ true
      → lookup key table ≡ some a
      → p a ≡ true
  unfolding lookup
  every_entry [] a h e = cc
  every_entry ((k, b) ∷ table) a h e =
      let (first, rest) = &&-true (p b) (all (λ e. p e.1) table) h in
      found_all (text_eq k key) b a (lookup key table) first (every_entry table a rest) e

info_of_lem :
    (o a : Option ArtifactType)
    → ((t : ArtifactType) → o ≡ some t → is_text_type t ≡ true)
    → ((t : ArtifactType) → a ≡ some t → is_attachment_type t ≡ true)
    → is_consistent (info_of o a) ≡ true
info_of_lem (some t) a h k = h t refl
info_of_lem none (some t) h k = k t refl
info_of_lem none none h k = refl

classify_extension_lem : (ext : Text) → is_consistent (classify_extension ext) ≡ true
unfolding classify_extension
classify_extension_lem ext =
    info_of_lem (lookup ext text_artifact_extensions) (lookup ext attachment_artifact_extensions)
      (λ t. every_entry is_text_type ext text_artifact_extensions t refl)
      (λ t. every_entry is_attachment_type ext attachment_artifact_extensions t refl)

-- Whatever the path, and however the letters are made lower: what is classified as text can be
-- edited, is previewed as text and declared as UTF-8, and what is an attachment cannot be edited, and
-- is neither declared as a kind of text nor as SVG.
pub classify_artifact_path_lem :
    (lower : Text → Text) (rel_path : Text)
    → is_consistent (classify_artifact_path lower rel_path) ≡ true
unfolding classify_artifact_path
classify_artifact_path_lem lower rel_path =
    classify_extension_lem (artifact_extension lower rel_path)

after_last_of_Lacks : (c : ℕ) (s : Text) → Lacks c s → after_last c s ≡ 0
unfolding after_last
after_last_of_Lacks c [] h = refl
after_last_of_Lacks c (d ∷ s) (n, h) = rw (after_last_of_Lacks c s h, ==-false d c n) refl

after_last-append :
    (c : ℕ) (dir leaf : Text) → Lacks c leaf → after_last c (dir ++ c ∷ leaf) ≡ suc (length dir)
unfolding after_last
after_last-append c [] leaf h = rw (after_last_of_Lacks c leaf h, ==_self c) refl
after_last-append c (d ∷ dir) leaf h = rw (after_last-append c dir leaf h) refl

drop-append : (dir leaf : Text) (c : ℕ) → drop (suc (length dir)) (dir ++ c ∷ leaf) ≡ leaf
drop-append [] leaf c = refl
drop-append (d ∷ dir) leaf c = drop-append dir leaf c

leaf_of-append : (dir leaf : Text) → Lacks b'/' leaf → leaf_of (dir ++ b'/' ∷ leaf) ≡ leaf_of leaf
unfolding leaf_of
leaf_of-append dir leaf h =
    rw (after_last-append b'/' dir leaf h, after_last_of_Lacks b'/' leaf h)
      (drop-append dir leaf b'/')

-- A file is classified by its name alone: the folder that it is in makes no difference.
pub classify-append :
    (lower : Text → Text) (dir leaf : Text)
    → Lacks b'/' leaf
    → classify_artifact_path lower (dir ++ b'/' ∷ leaf) ≡ classify_artifact_path lower leaf
unfolding classify_artifact_path artifact_extension
classify-append lower dir leaf h =
    ap
      (λ l.
        classify_extension
          (if leb (after_last b'.' l) 1 then [] else lower (drop (after_last b'.' l - 1) l)))
      (leaf_of-append dir leaf h)
