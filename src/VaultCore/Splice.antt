-- ===== src/VaultCore/Splice.antt =====
-- packages/vault-core/src/splice.ts: edits of a text that are found by their surroundings.
pub mod Normalize
pub mod Occurrences
pub mod Places
pub mod Apply
pub mod Frontmatter
pub mod Prepend
mod Tests
use kb_1_daemon.Prelude.{
  ℕ, zero, suc, ◌+◌, ◌-◌, ◌*◌, Bool, true, false, not, ◌&&◌, ◌||◌, List, [], ◌∷◌, ◌++◌, map, Option,
  none, some, Text, text, text_eq, utf8_length, starts_with, ends_with, length, get_elem?, take,
  drop, trim, ltb, leb, ◌==◌, if◌then◌else◌,
}

abbrev pub splice_bytes_limit : ℕ
splice_bytes_limit = 64 * 1024

abbrev pub document_bytes_limit : ℕ
document_bytes_limit = 1024 * 1024

-- The two units of line ends.
abbrev pub lf : ℕ
lf = 10

abbrev pub cr : ℕ
cr = 13

-- `occurrence` counts from 1; 0 stands for every number that is none of 1, 2, ...
pub record AnchoredSpliceRequest : Type 0 where
  pub old_text : Text
  pub new_text : Text
  pub before : Option Text
  pub after : Option Text
  pub occurrence : Option ℕ

pub data AnchoredSpliceResult : Type 0 where
  spliced : (content : Text) → AnchoredSpliceResult
  not_found : AnchoredSpliceResult
  ambiguous : (match_count : ℕ) → AnchoredSpliceResult
  too_large_splice : (limit_bytes : ℕ) → AnchoredSpliceResult
  too_large_document : (current_bytes limit_bytes : ℕ) → AnchoredSpliceResult

abbrev pub starts_lf : Text → Bool
starts_lf s = starts_with (lf ∷ []) s

-- `replace(/\r\n/g, '\n')`: of each match, the second unit stays.
unfoldable pub replace_crlf : Text → Text
replace_crlf [] = []
replace_crlf (c ∷ s) =
    let rest = replace_crlf s in if c == cr && starts_lf s then rest else c ∷ rest

-- `replace(/\r/g, '\n')`
abbrev pub replace_cr : Text → Text
replace_cr = map (λ c. if c == cr then lf else c)

unfoldable pub lf_normalize : Text → Text
unfolding replace_crlf
lf_normalize s = replace_cr (replace_crlf s)

abbrev pub utf8_byte_length : Text → ℕ
utf8_byte_length s = utf8_length s

pub record Normalized : Type 0 where
  pub value : Text
  pub raw_offsets : List ℕ

abbrev pub emit : ℕ → ℕ → Normalized → Normalized
emit unit raw_index n = record { value = unit ∷ n.value; raw_offsets = raw_index ∷ n.raw_offsets }

-- The loop at `raw_index`, where the rest of the content is left. `skip` says that the unit here is the
-- second of a pair that was passed in one step.
unfoldable pub normalize_from : Bool → ℕ → Text → Normalized
normalize_from skip raw_index [] = record { value = []; raw_offsets = raw_index ∷ [] }
normalize_from skip raw_index (c ∷ s) =
    let rest = normalize_from (not skip && c == cr && starts_lf s) (raw_index + 1) s in
    if skip then rest else emit (if c == cr then lf else c) raw_index rest

unfoldable pub normalize_with_raw_offsets : Text → Normalized
unfolding normalize_from
normalize_with_raw_offsets content = normalize_from false 0 content

-- `s.indexOf(needle)`, for what is left of the haystack
unfoldable pub index_of : Text → Text → Option ℕ
index_of needle [] = if starts_with needle [] then some 0 else none
index_of needle (c ∷ s) =
    if starts_with needle (c ∷ s)
    then some 0
    else elim (index_of needle s) [ none ↦ none | some i ↦ some (suc i) ]

-- The loop. Each round moves on by one unit at least.
unfoldable pub offsets_from : ℕ → Text → Text → ℕ → List ℕ
unfolding index_of
offsets_from zero haystack needle from = []
offsets_from (suc rounds) haystack needle from =
    if leb (from + length needle) (length haystack)
    then elim (index_of needle (drop from haystack)) [
      | none ↦ []
      | some i ↦ (from + i) ∷ offsets_from rounds haystack needle (from + i + 1)
    ]
    else []

unfoldable pub find_all_substring_offsets : Text → Text → List ℕ
unfolding offsets_from
find_all_substring_offsets haystack needle =
    if length needle == 0 then [] else offsets_from (suc (length haystack)) haystack needle 0

abbrev pub or_empty : Option Text → Text
or_empty none = []
or_empty (some s) = lf_normalize s

-- `matches[occurrence - 1]`
abbrev pub pick : List ℕ → ℕ → Option ℕ
pick matches zero = none
pick matches (suc k) = get_elem? matches k

-- Which match is meant: none, one, or one of several.
pub data Choice : Type 0 where
  at : ℕ → Choice
  missing : Choice
  several : ℕ → Choice

abbrev pub picked : Option ℕ → Choice
picked none = missing
picked (some offset) = at offset

unfoldable pub choose : List ℕ → Option ℕ → Choice
choose [] occurrence = missing
choose (m ∷ []) occurrence = at m
choose (m ∷ n ∷ ms) (some k) = picked (pick (m ∷ n ∷ ms) k)
choose (m ∷ n ∷ ms) none = several (length (m ∷ n ∷ ms))

-- `content.slice(0, end)` and `content.slice(start)`, where the bound may be `undefined`
abbrev pub slice_to : Text → Option ℕ → Text
slice_to content none = content
slice_to content (some end) = take end content

abbrev pub slice_from : Text → Option ℕ → Text
slice_from content none = content
slice_from content (some start) = drop start content

unfoldable pub splice_at : Text → List ℕ → ℕ → Text → Text → AnchoredSpliceResult
splice_at content raw_offsets old_offset old_text new_text =
    let next =
      slice_to content (get_elem? raw_offsets old_offset)
      ++ new_text
      ++ slice_from content (get_elem? raw_offsets (old_offset + length old_text)) in
    if ltb document_bytes_limit (utf8_byte_length next)
    then too_large_document (utf8_byte_length next) document_bytes_limit
    else spliced next

abbrev pub finish : Text → List ℕ → Text → Text → Text → Choice → AnchoredSpliceResult
finish content raw_offsets before old_text new_text missing = not_found
finish content raw_offsets before old_text new_text (several n) = ambiguous n
finish content raw_offsets before old_text new_text (at m) =
    splice_at content raw_offsets (m + length before) old_text new_text

unfoldable pub apply_anchored_splice : Text → AnchoredSpliceRequest → AnchoredSpliceResult
unfolding normalize_with_raw_offsets find_all_substring_offsets choose splice_at lf_normalize
apply_anchored_splice content request =
    let old_text = lf_normalize request.old_text in
    let new_text = lf_normalize request.new_text in
    let before = or_empty request.before in
    let after = or_empty request.after in
    let normalized = normalize_with_raw_offsets content in
    let needle = before ++ old_text ++ after in
    let matches =
      if text_eq content [] && text_eq needle []
      then 0 ∷ []
      else find_all_substring_offsets normalized.value needle in
    if ltb splice_bytes_limit (utf8_byte_length old_text)
      || ltb splice_bytes_limit (utf8_byte_length new_text)
    then too_large_splice splice_bytes_limit
    else finish content normalized.raw_offsets before old_text new_text
        (choose matches request.occurrence)

unfoldable pub append_content : Text → Text → Text
append_content content addition = content ++ lf_normalize addition

-- The end of the line's content and the start of the next line.
unfoldable pub line_end_from : ℕ → Text → ℕ × ℕ
line_end_from index [] = (index, index)
line_end_from index (c ∷ s) =
    let later = line_end_from (index + 1) s in
    if c == lf
    then (index, index + 1)
    else if c == cr
    then (index, if starts_lf s then index + 2 else index + 1)
    else later

unfoldable pub next_line_end : Text → ℕ → ℕ × ℕ
unfolding line_end_from
next_line_end content line_start = line_end_from line_start (drop line_start content)

-- The loop over the lines after the opening one; the rounds are enough by `Frontmatter.closing_from-enough`.
unfoldable pub closing_from : ℕ → Text → ℕ → Option ℕ
unfolding next_line_end
closing_from zero content line_start = none
closing_from (suc rounds) content line_start =
    let e = next_line_end content line_start in
    let later = closing_from rounds content e.1 in
    if ltb line_start (length content)
    then (if text_eq (trim (take (e.0 - line_start) (drop line_start content))) (text "---")
        then some e.1
        else later)
    else none

-- The length of the match of `/^---(?:\r\n|\n|\r)/`.
unfoldable pub opening_length : Text → Option ℕ
opening_length content =
    if starts_with (text "---" ++ cr ∷ lf ∷ []) content
    then some 5
    else if starts_with (text "---" ++ lf ∷ []) content
    then some 4
    else if starts_with (text "---" ++ cr ∷ []) content
    then some 4
    else none

-- Without an opening line there is none to close.
pub closing_of : Text → Option ℕ → Option ℕ
closing_of content none = none
closing_of content (some line_start) = closing_from (length content) content line_start

unfoldable pub frontmatter_insertion_point : Text → Option ℕ
unfolding opening_length closing_of
frontmatter_insertion_point content = closing_of content (opening_length content)

abbrev pub ends_with_line_ending : Text → Bool
ends_with_line_ending s = ends_with (lf ∷ []) s || ends_with (cr ∷ []) s

abbrev pub or_zero : Option ℕ → ℕ
or_zero none = 0
or_zero (some n) = n

unfoldable pub insert_at : Text → Text → ℕ → Text
insert_at content addition point =
    let separator =
      if ltb 0 point && ltb 0 (length addition) && not (ends_with_line_ending (take point content))
      then lf ∷ []
      else [] in
    take point content ++ separator ++ addition ++ drop point content

unfoldable pub prepend_content : Text → Text → Text
unfolding frontmatter_insertion_point insert_at lf_normalize
prepend_content content addition =
    insert_at content (lf_normalize addition) (or_zero (frontmatter_insertion_point content))
