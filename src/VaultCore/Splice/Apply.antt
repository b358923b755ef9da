-- ===== src/VaultCore/Splice/Apply.antt =====
-- What a splice that succeeds has done.
use mathlib.Core.Path.{subst}
use mathlib.Core.Path.{subst}
use kb_1_daemon.Prelude.{
  ℕ, ◌+◌, ◌≤◌, ◌≡◌, refl, sym, ap, ap₂, ◌∙◌, Bool, true, false, ◌||◌, ◌&&◌, Bool-cases, inl, inr,
  List, [], ◌∷◌, ◌++◌, append_assoc, some, Text, text_eq, utf8_length, length, length-append,
  get_elem?, take, drop, take-append, drop-append, All, ltb-false, if◌then◌else◌, arith,
  append_assoc,
}
use kb_1_daemon.VaultCore.Splice.{
  AnchoredSpliceRequest, AnchoredSpliceResult, spliced, too_large_splice, too_large_document,
  splice_bytes_limit, document_bytes_limit, lf_normalize, replace_crlf, normalize_from,
  normalize_with_raw_offsets, find_all_substring_offsets, or_empty, Choice, at, missing, several,
  slice_to, slice_from, splice_at, finish, apply_anchored_splice,
}
use kb_1_daemon.VaultCore.Splice.Normalize.{value-normalize_with_raw_offsets, Cut, cut}
use kb_1_daemon.VaultCore.Splice.Places.{IsAt, find-IsAt, choose-All}

offsets_start :
    (raw : ℕ) (s : Text) → get_elem? (normalize_from false raw s).raw_offsets 0 ≡ some raw
unfolding normalize_from
offsets_start raw [] = refl
offsets_start raw (c ∷ s) = refl

-- Raw parts whose normal forms are the given ones, with the offsets of the two cuts.
record Parts (content before old after : Text) : Type 0 where
  pre : Text
  raw_old : Text
  post : Text
  content_parts : content ≡ pre ++ (raw_old ++ post)
  norm_pre : lf_normalize pre ≡ before
  norm_old : lf_normalize raw_old ≡ old
  norm_post : lf_normalize post ≡ after
  starts :
      get_elem? (normalize_from false 0 content).raw_offsets (length before) ≡ some (length pre)
  ends :
      get_elem? (normalize_from false 0 content).raw_offsets (length before + length old)
      ≡ some (length pre + length raw_old)

parts :
    (content before old after : Text)
    → lf_normalize content ≡ before ++ (old ++ after)
    → Parts content before old after
parts content before old after e =
    let l : length (lf_normalize content) ≡ length before + length (old ++ after) =
      ap length e ∙ length-append before (old ++ after) in
    let first : Cut (length before) 0 content = cut (length before) 0 content (omega arith) in
    let rest : lf_normalize first.post ≡ old ++ after =
      first.norm_post ∙ ap (drop (length before)) e ∙ drop-append before (old ++ after) in
    let l' : length (lf_normalize first.post) ≡ length old + length after =
      ap length rest ∙ length-append old after in
    let raw = 0 + length first.pre in
    let second : Cut (length old) raw first.post = cut (length old) raw first.post (omega arith) in
    record {
      pre = first.pre;
      raw_old = second.pre;
      post = second.post;
      content_parts = first.whole ∙ ap (λ t. first.pre ++ t) second.whole;
      norm_pre = first.norm_pre ∙ ap (take (length before)) e ∙ take-append before (old ++ after);
      norm_old = second.norm_pre ∙ ap (take (length old)) rest ∙ take-append old after;
      norm_post = second.norm_post ∙ ap (drop (length old)) rest ∙ drop-append old after;
      starts =
          ap (get_elem? (normalize_from false 0 content).raw_offsets) (omega arith)
          ∙ first.later 0
          ∙ offsets_start raw first.post
          ∙ ap some (omega arith);
      ends =
          first.later (length old)
          ∙ ap (get_elem? (normalize_from false raw first.post).raw_offsets) (omega arith)
          ∙ second.later 0
          ∙ offsets_start (raw + length second.pre) second.post
          ∙ ap some (omega arith);
    }

spliced_inj : (a b : Text) → spliced a ≡ spliced b → a ≡ b
spliced_inj a b e = cc

-- The content is cut in three, the middle part is the old text but for its line ends and is replaced by
-- the new one, and the anchors stand on both sides of it.
pub record IsSplice (content next old new before after : Text) : Type 0 where
  pub pre : Text
  pub raw_old : Text
  pub post : Text
  pub content_parts : content ≡ pre ++ (raw_old ++ post)
  pub next_parts : next ≡ pre ++ new ++ post
  pub old_there : lf_normalize raw_old ≡ old
  pub before_there : (left : Text) × (lf_normalize pre ≡ left ++ before)
  pub after_there : (right : Text) × (lf_normalize post ≡ after ++ right)

not_over :
    (over : Bool) (r : AnchoredSpliceResult) (n : ℕ) (next : Text)
    → (if over then too_large_document n document_bytes_limit else r) ≡ spliced next
    → (over ≡ false) × (r ≡ spliced next)
not_over true r n next e = cc
not_over false r n next e = (refl, e)

regroup : (l b o a r : Text) → l ++ (b ++ o ++ a) ++ r ≡ (l ++ b) ++ (o ++ (a ++ r))
regroup l b o a r = simp append_assoc

slices :
    (content pre raw_old post new : Text)
    → content ≡ pre ++ (raw_old ++ post)
    → slice_to content (some (length pre))
        ++ new
        ++ slice_from content (some (length pre + length raw_old))
      ≡ pre ++ new ++ post
slices content pre raw_old post new e =
    ap₂ (λ a b. a ++ new ++ b) (ap (take (length pre)) e ∙ take-append pre (raw_old ++ post))
      (ap₂ drop (sym (length-append pre raw_old)) (e ∙ sym (append_assoc pre raw_old post))
        ∙ drop-append (pre ++ raw_old) post)

splice_at-IsSplice :
    (content before old after new next : Text) (m : ℕ)
    → IsAt (lf_normalize content) (before ++ old ++ after) m
    → splice_at content (normalize_from false 0 content).raw_offsets (m + length before) old new
      ≡ spliced next
    → IsSplice content next old new before after × (utf8_length next ≤ document_bytes_limit)
unfolding splice_at
splice_at-IsSplice content before old after new next m p e =
    let q : Parts content (p.left ++ before) old (after ++ p.right) =
      parts content (p.left ++ before) old (after ++ p.right)
        (p.whole ∙ regroup p.left before old after p.right) in
    let i : m + length before ≡ length (p.left ++ before) =
      omega (arith, p.place, length-append p.left before) in
    let offsets = (normalize_from false 0 content).raw_offsets in
    let (fits, same) = not_over _ _ _ next e in
    let done = spliced_inj _ next same in
    let cut_there =
      ap₂ (λ a b. slice_to content a ++ new ++ slice_from content b)
        (ap (get_elem? offsets) i ∙ q.starts)
        (ap (λ j. get_elem? offsets (j + length old)) i ∙ q.ends) in
    (
      record {
        pre = q.pre;
        raw_old = q.raw_old;
        post = q.post;
        content_parts = q.content_parts;
        next_parts =
            sym done ∙ cut_there ∙ slices content q.pre q.raw_old q.post new q.content_parts;
        old_there = q.norm_old;
        before_there = (p.left, q.norm_pre);
        after_there = (p.right, q.norm_post);
      },
      subst (λ t. utf8_length t ≤ document_bytes_limit) done
          (ltb-false document_bytes_limit _ fits),
    )

not_refused :
    (big : Bool) (content before old new next : Text) (offsets : List ℕ) (choice : Choice)
    → (if big
        then too_large_splice splice_bytes_limit
        else finish content offsets before old new choice)
      ≡ spliced next
    → (big ≡ false)
      × (m : ℕ) × (choice ≡ at m)
      × (splice_at content offsets (m + length before) old new ≡ spliced next)
not_refused true content before old new next offsets choice e = cc
not_refused false content before old new next offsets missing e = cc
not_refused false content before old new next offsets (several n) e = cc
not_refused false content before old new next offsets (at m) e = (refl, m, refl, e)

empty-IsAt :
    (content needle : Text)
    → text_eq content [] && text_eq needle [] ≡ true
    → IsAt (lf_normalize content) needle 0
unfolding lf_normalize replace_crlf
empty-IsAt [] [] h = record { left = []; right = []; whole = refl; place = refl }
empty-IsAt [] (d ∷ s) h = cc
empty-IsAt (c ∷ t) needle h = ground arith

matches-IsAt :
    (content needle : Text)
    → All (IsAt (lf_normalize content) needle) (
        if text_eq content [] && text_eq needle []
        then 0 ∷ []
        else find_all_substring_offsets (normalize_with_raw_offsets content).value needle)
matches-IsAt content needle = elim (Bool-cases (text_eq content [] && text_eq needle [])) [
  | inl h ↦ rw h (empty-IsAt content needle h, tt)
  | inr h ↦
      rw (h, value-normalize_with_raw_offsets content) (find-IsAt (lf_normalize content) needle)
]

neither : (a b : Bool) → a || b ≡ false → (a ≡ false) × (b ≡ false)
neither true b h = cc
neither false b h = (refl, h)

-- A splice that succeeds cuts the content in three parts, replaces the middle one by the new text
-- with normalised line ends and keeps the two others as they were, their line ends included. The
-- middle part is the old text up to line ends, the anchors stand directly before and after it,
-- and the old text, the new text and the result are within their limits.
pub apply-IsSplice :
    (content next : Text) (request : AnchoredSpliceRequest)
    → apply_anchored_splice content request ≡ spliced next
    → IsSplice content next
        (lf_normalize request.old_text)
        (lf_normalize request.new_text)
        (or_empty request.before)
        (or_empty request.after)
      × (utf8_length next ≤ document_bytes_limit)
      × (utf8_length (lf_normalize request.old_text) ≤ splice_bytes_limit)
      × (utf8_length (lf_normalize request.new_text) ≤ splice_bytes_limit)
unfolding apply_anchored_splice normalize_with_raw_offsets
apply-IsSplice content next request e =
    let old = lf_normalize request.old_text in
    let before = or_empty request.before in
    let needle = before ++ old ++ or_empty request.after in
    let (small, m, chosen, done) = not_refused _ content before old _ next _ _ e in
    let (small_old, small_new) = neither _ _ small in
    let place =
      choose-All (IsAt (lf_normalize content) needle) _ request.occurrence m
        (matches-IsAt content needle) chosen in
    let (cut_in_three, fits) =
      splice_at-IsSplice content before old (or_empty request.after) _ next m place done in
    (cut_in_three, fits, ltb-false _ _ small_old, ltb-false _ _ small_new)
