-- ===== src/VaultCore/Splice/Frontmatter.antt =====
-- The lines that the scan for a frontmatter passes over.
use kb_1_daemon.Prelude.{
  ℕ, zero, suc, ◌+◌, ◌-◌, ◌≤◌, ◌<◌, ◌≡◌, ◌≢◌, refl, ap, ◌∙◌, ◌⊎◌, inl, inr, true, false, Bool-cases,
  [], ◌∷◌, ◌++◌, some, Text, text, text_eq, trim, starts_with, length, length-append, length-drop,
  All, take, drop, ltb, ltb→lt, le→ltb-false, ◌==◌, ==_iff, if◌then◌else◌, arith,
}
use kb_1_daemon.VaultCore.Splice.{lf, cr, starts_lf, line_end_from, next_line_end, closing_from}

abbrev pub IsEnding : Text → Type 0
IsEnding e = (e ≡ []) ⊎ (e ≡ lf ∷ []) ⊎ (e ≡ cr ∷ []) ⊎ (e ≡ cr ∷ lf ∷ [])

-- A line of the text without its ending, at the places that were found.
pub record IsLine (index : ℕ) (s : Text) (found : ℕ × ℕ) : Type 0 where
  pub line : Text
  pub ending : Text
  pub rest : Text
  pub whole : s ≡ line ++ (ending ++ rest)
  pub known : IsEnding ending
  pub unbroken : All (λ u. ((u == lf) ≡ false) × ((u == cr) ≡ false)) line
  pub content_end : found.0 ≡ index + length line
  pub next_start : found.1 ≡ index + length line + length ending
  pub uncut : ending ≡ cr ∷ [] → starts_lf rest ≡ false
  pub moves : (length s ≤ length line) ⊎ (0 < length ending)

pub lf_not_cr : lf ∷ [] ≢ cr ∷ []
lf_not_cr e = let no : true ≡ false = ap (λ t. starts_with (lf ∷ []) t) e in cc

pub crlf_not_cr : cr ∷ lf ∷ [] ≢ cr ∷ []
crlf_not_cr e = let no : true ≡ false = ap (λ t. starts_with (cr ∷ lf ∷ []) t) e in cc

ended_by :
    (index n : ℕ) (ending rest : Text)
    → IsEnding ending
    → 0 < length ending
    → n ≡ index + length ending
    → (ending ≡ cr ∷ [] → starts_lf rest ≡ false)
    → IsLine index (ending ++ rest) (index, n)
ended_by index n ending rest known p e uncut = record {
  line = [];
  ending = ending;
  rest = rest;
  whole = refl;
  known = known;
  unbroken = tt;
  content_end = omega arith;
  next_start = omega (arith, e);
  uncut = uncut;
  moves = inr p;
}

after_cr :
    (index : ℕ) (s : Text)
    → IsLine index (cr ∷ s) (index, if starts_lf s then index + 2 else index + 1)
after_cr index [] =
    ended_by index (index + 1) (cr ∷ []) [] (inr (inr (inl refl))) (omega arith) (omega arith)
      (λ x. refl)
after_cr index (d ∷ t) = elim (Bool-cases (starts_lf (d ∷ t))) [
  | inr e ↦ rw e (
      ended_by index (index + 1) (cr ∷ []) (d ∷ t) (inr (inr (inl refl))) (omega arith)
        (omega arith) (λ x. e))
  | inl e ↦
      let g : d ≡ lf = ground arith in
      rw e (
        rw g (
          ended_by index (index + 2) (cr ∷ lf ∷ []) t (inr (inr (inr refl))) (omega arith)
            (omega arith) (λ x. absurd (crlf_not_cr x))))
]

line_end_from-IsLine : (index : ℕ) (s : Text) → IsLine index s (line_end_from index s)
unfolding line_end_from
line_end_from-IsLine index [] = record {
  line = [];
  ending = [];
  rest = [];
  whole = refl;
  known = inl refl;
  unbroken = tt;
  content_end = omega arith;
  next_start = omega arith;
  uncut = λ x. refl;
  moves = inl (omega arith);
}
line_end_from-IsLine index (c ∷ s) = elim (Bool-cases (c == lf)) [
  | inl e ↦ rw e (
      let g : c ≡ lf = (==_iff c lf).0 e in
      rw g (
        ended_by index (index + 1) (lf ∷ []) s (inr (inl refl)) (omega arith) (omega arith)
          (λ x. absurd (lf_not_cr x))))
  | inr e ↦ rw e (elim (Bool-cases (c == cr)) [
    | inl f ↦ rw f (let g : c ≡ cr = (==_iff c cr).0 f in rw g (after_cr index s))
    | inr f ↦ rw f (
        let later = line_end_from-IsLine (index + 1) s in
        record {
          line = c ∷ later.line;
          ending = later.ending;
          rest = later.rest;
          whole = ap (λ t. c ∷ t) later.whole;
          known = later.known;
          unbroken = ((e, f), later.unbroken);
          content_end = omega (arith, later.content_end);
          next_start = omega (arith, later.next_start);
          uncut = later.uncut;
          moves = elim later.moves [ inl p ↦ inl (omega arith) | inr p ↦ inr p ];
        })
  ])
]

pub next_line_end-IsLine :
    (content : Text) (from : ℕ) → IsLine from (drop from content) (next_line_end content from)
unfolding next_line_end
next_line_end-IsLine content from = line_end_from-IsLine from (drop from content)

pub length-IsLine :
    (content : Text) (from : ℕ)
    → from ≤ length content
    → from ≤ (next_line_end content from).1
      × ((next_line_end content from).1 ≤ length content)
      × ((from < length content) → from < (next_line_end content from).1)
length-IsLine content from h =
    let l = next_line_end-IsLine content from in
    let parts : length (drop from content) ≡ length l.line + (length l.ending + length l.rest) =
      ap length l.whole
      ∙ length-append l.line (l.ending ++ l.rest)
      ∙ ap (λ n. length l.line + n) (length-append l.ending l.rest) in
    (
      omega (arith, l.next_start),
      omega (arith, l.next_start, length-drop from content),
      λ lt. elim l.moves [
        | inl m ↦ omega (arith, l.next_start, length-drop from content)
        | inr m ↦ omega (arith, l.next_start)
      ],
    )

-- More rounds than there are units left change nothing.
pub closing_from-enough :
    (rounds extra : ℕ) (content : Text) (from : ℕ)
    → from ≤ length content
    → length content ≤ from + rounds
    → closing_from (rounds + extra) content from ≡ closing_from rounds content from
unfolding closing_from
closing_from-enough zero zero content from h k = refl
closing_from-enough zero (suc extra) content from h k =
    let z : 0 + suc extra ≡ suc extra = omega arith in
    rw z (rw (le→ltb-false from (length content) (omega arith)) refl)
closing_from-enough (suc rounds) extra content from h k =
    let z : suc rounds + extra ≡ suc (rounds + extra) = omega arith in
    let (_, inside, moves) = length-IsLine content from h in
    elim (Bool-cases (ltb from (length content))) [
      | inr out ↦ rw z (rw out refl)
      | inl here ↦ rw z (
          rw here (
            ap
              (λ o.
                if text_eq (trim (take ((next_line_end content from).0 - from) (drop from content)))
                  (text "---")
                then some (next_line_end content from).1
                else o)
              (closing_from-enough rounds extra content (next_line_end content from).1 inside
                (omega (arith, moves (ltb→lt _ _ here))))))
    ]
