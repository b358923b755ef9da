-- ===== src/VaultCore/Splice/Prepend.antt =====
-- Where `prependContent` puts the addition, told by the lines of the content.
use mathlib.Core.Path.{subst}
use kb_1_daemon.Prelude.{
  ℕ, zero, suc, ◌+◌, ◌-◌, ◌≤◌, ◌<◌, ◌≡◌, refl, sym, ap, ap₂, ◌∙◌, ◌⊎◌, inl, inr, Bool, true, false,
  not, ◌&&◌, Bool-cases, List, [], ◌∷◌, ◌++◌, append_assoc, Option, none, some, Text, text, text_eq,
  trim, starts_with, length, length-append, length-drop, All, take, drop, take-append, drop-append,
  drop-drop, ltb, ltb→lt, ltb-false, ◌==◌, if◌then◌else◌, arith,
}
use kb_1_daemon.VaultCore.Path.Validate.{starts_with-append}
use kb_1_daemon.VaultCore.Splice.Places.{starts_with_rest}
use kb_1_daemon.VaultCore.Splice.{
  lf, cr, starts_lf, lf_normalize, next_line_end, closing_from, closing_of, opening_length,
  frontmatter_insertion_point, ends_with_line_ending, insert_at, prepend_content, or_zero,
}
use kb_1_daemon.VaultCore.Splice.Frontmatter.{
  IsEnding, IsLine, next_line_end-IsLine, length-IsLine, lf_not_cr, crlf_not_cr,
}

-- The text is these lines, each with its ending: no line has a line ending in it, only the last one may have
-- none after it, and `\r\n` is one ending.
abbrev pub IsLines : List (Text × Text) → Text → Type 0
IsLines [] s = s ≡ []
IsLines ((line, ending) ∷ lines) s =
    (rest : Text) × (s ≡ line ++ (ending ++ rest))
    × All (λ u. ((u == lf) ≡ false) × ((u == cr) ≡ false)) line
    × IsEnding ending
    × (ending ≡ [] → rest ≡ [])
    × (ending ≡ cr ∷ [] → starts_lf rest ≡ false)
    × IsLines lines rest

abbrev pub plus : ℕ → Option ℕ → Option ℕ
plus n none = none
plus n (some k) = some (n + k)

-- The length of the lines up to the first that is `---` when trimmed, this one with its ending included.
abbrev pub closing_size : List (Text × Text) → Option ℕ
closing_size [] = none
closing_size ((line, ending) ∷ lines) =
    if text_eq (trim line) (text "---")
    then some (length line + length ending)
    else plus (length line + length ending) (closing_size lines)

plus-plus : (n k : ℕ) (o : Option ℕ) → plus n (plus k o) ≡ plus (n + k) o
plus-plus n k none = refl
plus-plus n k (some j) = ap some (omega arith)

closing_step :
    (d : Bool) (from n e : ℕ) (o later : Option ℕ)
    → e ≡ from + n
    → later ≡ plus e o
    → (if d then some e else later) ≡ plus from (if d then some n else plus n o)
closing_step true from n e o later same again = ap some same
closing_step false from n e o later same again =
    again ∙ ap (λ k. plus k o) same ∙ sym (plus-plus from n o)

empty_of : (s : Text) → length s ≡ 0 → s ≡ []
empty_of [] e = refl
empty_of (c ∷ s) e = absurd (omega arith)

after_line :
    (from : ℕ) (content line ending rest : Text)
    → drop from content ≡ line ++ (ending ++ rest)
    → drop (from + length line + length ending) content ≡ rest
after_line from content line ending rest e =
    let n : from + length line + length ending ≡ from + length (line ++ ending) =
      omega (arith, length-append line ending) in
    ap (λ k. drop k content) n
    ∙ sym (drop-drop from (length (line ++ ending)) content)
    ∙ ap (drop (length (line ++ ending))) (e ∙ sym (append_assoc line ending rest))
    ∙ drop-append (line ++ ending) rest

no_ending_no_rest :
    (s line ending rest : Text)
    → s ≡ line ++ (ending ++ rest)
    → (length s ≤ length line) ⊎ (0 < length ending)
    → ending ≡ []
    → rest ≡ []
no_ending_no_rest s line ending rest e (inl m) none_there =
    let parts : length s ≡ length line + (length ending + length rest) =
      ap length e
      ∙ length-append line (ending ++ rest)
      ∙ ap (λ n. length line + n) (length-append ending rest) in
    empty_of rest (omega arith)
no_ending_no_rest s line ending rest e (inr m) none_there =
    let z : length ending ≡ 0 = ap length none_there in absurd (omega arith)

-- The scan from a place finds what the lines from there say.
abbrev Scans : ℕ → Text → ℕ → Type 0
Scans rounds content from =
    (lines : List (Text × Text)) × IsLines lines (drop from content)
    × (closing_from rounds content from ≡ plus from (closing_size lines))

scan_line :
    (rounds : ℕ) (content : Text) (from : ℕ)
    → ltb from (length content) ≡ true
    → IsLine from (drop from content) (next_line_end content from)
    → Scans rounds content (next_line_end content from).1
    → Scans (suc rounds) content from
unfolding closing_from
scan_line rounds content from inside l (lines, all, later) =
    let e = next_line_end content from in
    let size = length l.line + length l.ending in
    let there =
      ap (λ k. drop k content) l.next_start
      ∙ after_line from content l.line l.ending l.rest l.whole in
    let taken : take (e.0 - from) (drop from content) ≡ l.line =
      ap₂ take (omega (arith, l.content_end)) l.whole ∙ take-append l.line (l.ending ++ l.rest) in
    (
      (l.line, l.ending) ∷ lines,
      (
        l.rest,
        l.whole,
        l.unbroken,
        l.known,
        no_ending_no_rest (drop from content) l.line l.ending l.rest l.whole l.moves,
        l.uncut,
        subst (IsLines lines) there all,
      ),
      rw inside (
          ap
            (λ t.
              if text_eq (trim t) (text "---") then some e.1 else closing_from rounds content e.1)
            taken
          ∙ closing_step (text_eq (trim l.line) (text "---")) from size e.1 (closing_size lines) _
              (omega (arith, l.next_start)) later),
    )

scan_end :
    (rounds : ℕ) (content : Text) (from : ℕ)
    → length content ≤ from
    → closing_from rounds content from ≡ none
    → Scans rounds content from
scan_end rounds content from h e =
    ([], empty_of (drop from content) (omega (arith, length-drop from content)), e)

closing_from-Scans :
    (rounds : ℕ) (content : Text) (from : ℕ)
    → from ≤ length content
    → length content ≤ from + rounds
    → Scans rounds content from
unfolding closing_from
closing_from-Scans zero content from h k = scan_end zero content from (omega arith) refl
closing_from-Scans (suc rounds) content from h k =
    let (_, inside, moves) = length-IsLine content from h in
    elim (Bool-cases (ltb from (length content))) [
      | inr out ↦
          scan_end (suc rounds) content from (omega (arith, ltb-false from (length content) out))
            (rw out refl)
      | inl here ↦ scan_line rounds content from here (next_line_end-IsLine content from) (
          closing_from-Scans rounds content (next_line_end content from).1 inside
            (omega (arith, moves (ltb→lt _ _ here))))
    ]

-- The content opens with a line `---`, whose ending and what follows are these.
abbrev pub IsOpened : Text → Text → Text → Type 0
IsOpened content ending rest =
    (content ≡ text "---" ++ (ending ++ rest))
    × IsEnding ending
    × (0 < length ending)
    × (ending ≡ cr ∷ [] → starts_lf rest ≡ false)

abbrev Opening : Text → Option ℕ → Type 0
Opening content none = (ending rest : Text) → ¬ IsOpened content ending rest
Opening content (some k) =
    (ending : Text) × (rest : Text) × IsOpened content ending rest × (k ≡ 3 + length ending)

not_opened :
    (content : Text)
    → starts_with (text "---" ++ cr ∷ lf ∷ []) content ≡ false
    → starts_with (text "---" ++ lf ∷ []) content ≡ false
    → starts_with (text "---" ++ cr ∷ []) content ≡ false
    → Opening content none
not_opened content a b c ending rest (e, inl none_there, long, uncut) =
    let z : length ending ≡ 0 = ap length none_there in omega arith
not_opened content a b c ending rest (e, inr (inl it), long, uncut) =
    let yes : starts_with (text "---" ++ lf ∷ []) content ≡ true =
      rw (e, it) (starts_with-append (text "---" ++ lf ∷ []) rest) in
    let no : true ≡ false = sym yes ∙ b in cc
not_opened content a b c ending rest (e, inr (inr (inl it)), long, uncut) =
    let yes : starts_with (text "---" ++ cr ∷ []) content ≡ true =
      rw (e, it) (starts_with-append (text "---" ++ cr ∷ []) rest) in
    let no : true ≡ false = sym yes ∙ c in cc
not_opened content a b c ending rest (e, inr (inr (inr it)), long, uncut) =
    let yes : starts_with (text "---" ++ cr ∷ lf ∷ []) content ≡ true =
      rw (e, it) (starts_with-append (text "---" ++ cr ∷ lf ∷ []) rest) in
    let no : true ≡ false = sym yes ∙ a in cc

alone :
    (content rest : Text)
    → starts_with (text "---" ++ cr ∷ lf ∷ []) content ≡ false
    → content ≡ text "---" ++ cr ∷ rest
    → starts_lf rest ≡ false
alone content rest a e = sym (ap (starts_with (text "---" ++ cr ∷ lf ∷ [])) e) ∙ a

opening_length-Opening : (content : Text) → Opening content (opening_length content)
unfolding opening_length
opening_length-Opening content =
    elim (Bool-cases (starts_with (text "---" ++ cr ∷ lf ∷ []) content)) [
      | inl a ↦
          let (rest, e) = starts_with_rest (text "---" ++ cr ∷ lf ∷ []) content a in
          rw a (
            cr ∷ lf ∷ [],
            rest,
            (e, inr (inr (inr refl)), omega arith, λ x. absurd (crlf_not_cr x)),
            refl,
          )
      | inr a ↦ rw a (elim (Bool-cases (starts_with (text "---" ++ lf ∷ []) content)) [
        | inl b ↦
            let (rest, e) = starts_with_rest (text "---" ++ lf ∷ []) content b in
            rw b (lf ∷ [], rest, (e, inr (inl refl), omega arith, λ x. absurd (lf_not_cr x)), refl)
        | inr b ↦ rw b (elim (Bool-cases (starts_with (text "---" ++ cr ∷ []) content)) [
          | inl c ↦
              let (rest, e) = starts_with_rest (text "---" ++ cr ∷ []) content c in
              rw c (
                cr ∷ [],
                rest,
                (e, inr (inr (inl refl)), omega arith, λ x. alone content rest a e),
                refl,
              )
          | inr c ↦ rw c (not_opened content a b c)
        ])
      ])
    ]

abbrev pub place : ℕ → Option ℕ → ℕ
place k none = 0
place k (some n) = k + n

-- The place is the end of the frontmatter: after the first line after the opening one that is `---` when trimmed.
-- It is 0 if the content does not open with such a line, or no later one closes it.
abbrev pub IsInsertionPoint : Text → ℕ → Type 0
IsInsertionPoint content p =
    (((ending rest : Text) → ¬ IsOpened content ending rest) × (p ≡ 0))
    ⊎ ((ending : Text) × (rest : Text) × IsOpened content ending rest
        × (lines : List (Text × Text)) × IsLines lines rest
        × (p ≡ place (3 + length ending) (closing_size lines)))

or_zero-plus : (k : ℕ) (o : Option ℕ) → or_zero (plus k o) ≡ place k o
or_zero-plus k none = refl
or_zero-plus k (some n) = refl

closing_of-IsInsertionPoint :
    (content : Text) (o : Option ℕ)
    → Opening content o
    → IsInsertionPoint content (or_zero (closing_of content o))
unfolding closing_of
closing_of-IsInsertionPoint content none h = inl (h, refl)
closing_of-IsInsertionPoint content (some k) (ending, rest, opened, e) =
    let whole = opened.0 in
    let size : length content ≡ length (text "---" ++ ending) + length rest =
      ap length (whole ∙ sym (append_assoc (text "---") ending rest))
      ∙ length-append (text "---" ++ ending) rest in
    let fits : k ≤ length content = omega arith in
    let (lines, all, scanned) = closing_from-Scans (length content) content k fits (omega arith) in
    let there : drop k content ≡ rest =
      ap (λ n. drop n content) (e ∙ sym (length-append (text "---") ending))
      ∙ ap (drop (length (text "---" ++ ending)))
          (whole ∙ sym (append_assoc (text "---") ending rest))
      ∙ drop-append (text "---" ++ ending) rest in
    inr (
      ending,
      rest,
      opened,
      lines,
      subst (IsLines lines) there all,
      ap or_zero scanned
          ∙ or_zero-plus k (closing_size lines)
          ∙ ap (λ n. place n (closing_size lines)) e,
    )

-- `prependContent` keeps the content in two parts and puts the normalised addition between them. The first part
-- is the frontmatter if the content has one, and empty else; a line end comes before the addition exactly if
-- neither the first part nor the addition is empty and the first part does not end with one.
pub prepend_content_lem :
    (content addition : Text)
    → (point : ℕ) × IsInsertionPoint content point
      × (prepend_content content addition
          ≡ take point content
            ++ (if ltb 0 point
                  && ltb 0 (length (lf_normalize addition))
                  && not (ends_with_line_ending (take point content))
                then lf ∷ []
                else [])
            ++ lf_normalize addition
            ++ drop point content)
unfolding prepend_content insert_at frontmatter_insertion_point
prepend_content_lem content addition = (
  or_zero (frontmatter_insertion_point content),
  closing_of-IsInsertionPoint content (opening_length content) (opening_length-Opening content),
  refl,
)
