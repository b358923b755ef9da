-- ===== src/VaultCore/FileHistory/Message/Trailers.antt =====
-- Lines that are trailers, one to a line, are read as they were written.
use kb_1_daemon.Prelude.{
  ℕ, ◌≡◌, refl, sym, ap, ◌∙◌, inl, inr, true, false, Bool-cases, List, [], ◌∷◌, ◌++◌, map,
  append_assoc, Option, none, some, Text, text, text_eq, All, if◌then◌else◌, trim_start,
}
use kb_1_daemon.VaultCore.FileHistory.Message.{
  Trailer, trailer_line, is_key_unit, key_part, trailer_head, has_terminator, with_value,
  trailer_match, is_path_key, begin_trailer, go_on, read_lines, value_of, values_of,
}

-- `KB1-` and some letters, digits and dashes.
pub record IsKey (key : Text) : Type 0 where
  pub first : ℕ
  pub units : Text
  pub spelt : key ≡ text "KB1-" ++ first ∷ units
  pub legal : All (λ c. is_key_unit c ≡ true) (first ∷ units)

-- A trailer with a value that stands on its line.
pub record IsTrailer (t : Trailer) : Type 0 where
  pub key : IsKey t.0
  pub one_line : has_terminator (trim_start t.1) ≡ false

abbrev pub trimmed : Trailer → Trailer
trimmed t = (t.0, trim_start t.1)

key_part-append :
    (key : Text) (s : Text)
    → All (λ c. is_key_unit c ≡ true) key
    → key_part (key ++ b':' ∷ s) ≡ (key, b':' ∷ s)
unfolding key_part
key_part-append [] s h = refl
key_part-append (c ∷ key) s (e, h) = rw (e, key_part-append key s h) refl

head_of_key :
    (first : ℕ) (units s : Text)
    → All (λ c. is_key_unit c ≡ true) (first ∷ units)
    → trailer_head (text "KB1-" ++ first ∷ units ++ b':' ∷ s)
      ≡ some (text "KB1-" ++ first ∷ units, s)
unfolding trailer_head
head_of_key first units s h = rw (key_part-append (first ∷ units) s h) refl

pub head-trailer_line :
    (t : Trailer) → IsKey t.0 → trailer_head (trailer_line t) ≡ some (t.0, b' ' ∷ t.1)
head-trailer_line (key, value) k =
    let e : trailer_line (key, value) ≡ text "KB1-" ++ k.first ∷ k.units ++ b':' ∷ b' ' ∷ value =
      rw k.spelt (append_assoc (text "KB1-" ++ k.first ∷ k.units) (text ": ") value) in
    ap trailer_head e
    ∙ head_of_key k.first k.units (b' ' ∷ value) k.legal
    ∙ ap (λ l. some (l, b' ' ∷ value)) (sym k.spelt)

trim_start-space : (s : Text) → trim_start (b' ' ∷ s) ≡ trim_start s
unfolding trim_start
trim_start-space s = refl

pub match-trailer_line :
    (t : Trailer) → IsTrailer t → trailer_match (trailer_line t) ≡ some (trimmed t)
unfolding trailer_match
match-trailer_line (key, value) i =
    let e : has_terminator (trim_start (b' ' ∷ value)) ≡ false =
      ap has_terminator (trim_start-space value) ∙ i.one_line in
    ap with_value (head-trailer_line (key, value) i.key)
    ∙ ap (λ b. if b then none else some (key, trim_start (b' ' ∷ value))) e
    ∙ ap (λ v. some (key, v)) (trim_start-space value)

-- What is open, and the trailers.
abbrev pub with_open : Option Trailer → List Trailer → List Trailer
with_open none ts = ts
with_open (some done) ts = done ∷ ts

begin-read :
    (t : Trailer) (lines : List Text) (ts : List Trailer)
    → ((open_trailer : Option Trailer) → read_lines open_trailer lines ≡ with_open open_trailer ts)
    → (begin_trailer (some t)).0 ++ read_lines (begin_trailer (some t)).1 lines ≡ t ∷ ts
begin-read (key, value) lines ts h = elim (Bool-cases (is_path_key key)) [
  | inl e ↦ rw e (h (some (key, value)))
  | inr e ↦ rw e (ap (λ l. (key, value) ∷ l) (h none))
]

pub read_lines-trailers :
    (ts : List Trailer) (open_trailer : Option Trailer)
    → All IsTrailer ts
    → read_lines open_trailer (map trailer_line ts) ≡ with_open open_trailer (map trimmed ts)
unfolding read_lines
read_lines-trailers [] none h = refl
read_lines-trailers [] (some done) h = refl
read_lines-trailers (t ∷ ts) none (i, h) =
    ap (λ m. (begin_trailer m).0 ++ read_lines (begin_trailer m).1 (map trailer_line ts))
      (match-trailer_line t i)
    ∙ begin-read (trimmed t) (map trailer_line ts) (map trimmed ts)
        (λ o. read_lines-trailers ts o h)
read_lines-trailers (t ∷ ts) (some done) (i, h) =
    let lines = map trailer_line ts in
    ap
      (λ m. (go_on done (trailer_line t) m).0 ++ read_lines (go_on done (trailer_line t) m).1 lines)
      (head-trailer_line t i.key)
    ∙ ap (λ m. (done ∷ (begin_trailer m).0) ++ read_lines (begin_trailer m).1 lines)
        (match-trailer_line t i)
    ∙ ap (λ l. done ∷ l)
        (begin-read (trimmed t) lines (map trimmed ts) (λ o. read_lines-trailers ts o h))

-- Before the first trailer, other lines add nothing.
pub read_lines-preamble :
    (lines rest : List Text)
    → All (λ l. trailer_head l ≡ none) lines
    → read_lines none (lines ++ rest) ≡ read_lines none rest
unfolding read_lines trailer_match
read_lines-preamble [] rest h = refl
read_lines-preamble (l ∷ lines) rest (e, h) =
    ap
      (λ m.
        (begin_trailer (with_value m)).0
        ++ read_lines (begin_trailer (with_value m)).1 (lines ++ rest))
      e
    ∙ read_lines-preamble lines rest h

-- Lookups.
abbrev pub or_other : Option Text → Option Text → Option Text
or_other none other = other
or_other (some value) other = some value

pub value_of-append :
    (key : Text) (xs ys : List Trailer)
    → value_of key (xs ++ ys) ≡ or_other (value_of key xs) (value_of key ys)
unfolding value_of
value_of-append key [] ys = refl
value_of-append key ((k, v) ∷ xs) ys = elim (Bool-cases (text_eq k key)) [
  | inl e ↦ rw e
  | inr e ↦ rw e (value_of-append key xs ys)
]

pub values_of-append :
    (key : Text) (xs ys : List Trailer)
    → values_of key (xs ++ ys) ≡ values_of key xs ++ values_of key ys
unfolding values_of
values_of-append key [] ys = refl
values_of-append key ((k, v) ∷ xs) ys = elim (Bool-cases (text_eq k key)) [
  | inl e ↦ rw e (ap (λ l. v ∷ l) (values_of-append key xs ys))
  | inr e ↦ rw e (values_of-append key xs ys)
]
