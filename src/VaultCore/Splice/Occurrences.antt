-- ===== src/VaultCore/Splice/Occurrences.antt =====
-- The offsets that are found are exactly the occurrences.
use kb_1_daemon.Prelude.{
  drop-drop, ℕ, zero, suc, ◌+◌, ◌≤◌, ◌<◌, ◌≡◌, ◌≢◌, refl, sym, ap, ◌∙◌, true, Bool-cases,
  Option-cases, inl, inr, List, [], ◌∷◌, Option, none, some, Text, starts_with, length, length-drop,
  drop, leb, leb-false, ◌==◌, ==-false, if◌then◌else◌, arith,
}
use kb_1_daemon.VaultCore.Splice.{index_of, offsets_from, find_all_substring_offsets}

-- Every place, counted from `i`, at which the needle stands, in order; they may overlap.
unfoldable pub occurrences : Text → ℕ → Text → List ℕ
occurrences needle i [] = []
occurrences needle i (c ∷ s) =
    let later = occurrences needle (i + 1) s in
    if starts_with needle (c ∷ s) then i ∷ later else later

pub starts_with_long : (needle s : Text) → starts_with needle s ≡ true → length needle ≤ length s
starts_with_long [] s h = omega arith
starts_with_long (c ∷ needle) [] h = ground arith
starts_with_long (c ∷ needle) (d ∷ s) h = ground (arith, starts_with_long needle s)

occurrences_short :
    (needle : Text) (i : ℕ) (s : Text) → length s < length needle → occurrences needle i s ≡ []
unfolding occurrences
occurrences_short needle i [] h = refl
occurrences_short needle i (c ∷ s) h =
    ground (arith, starts_with_long needle (c ∷ s), occurrences_short needle (i + 1) s)

-- The first occurrence and those after it.
abbrev from_first : Text → ℕ → Text → Option ℕ → List ℕ
from_first needle i s none = []
from_first needle i s (some k) = (i + k) ∷ occurrences needle (i + k + 1) (drop (k + 1) s)

abbrev one_later : Option ℕ → Option ℕ
one_later none = none
one_later (some k) = some (suc k)

from_first-one_later :
    (needle : Text) (i d : ℕ) (s : Text) (o : Option ℕ)
    → from_first needle (i + 1) s o ≡ from_first needle i (d ∷ s) (one_later o)
from_first-one_later needle i d s none = refl
from_first-one_later needle i d s (some k) =
    let y : i + 1 + k ≡ i + suc k = omega arith in
    let z : suc k + 1 ≡ suc (k + 1) = omega arith in rw (y, z) refl

occurrences-index_of :
    (needle : Text) (i : ℕ) (s : Text)
    → needle ≢ []
    → occurrences needle i s ≡ from_first needle i s (index_of needle s)
unfolding index_of occurrences
occurrences-index_of [] i s h = absurd (h refl)
occurrences-index_of (c ∷ needle) i [] h = refl
occurrences-index_of (c ∷ needle) i (d ∷ s) h =
    elim (Bool-cases (starts_with (c ∷ needle) (d ∷ s))) [
      | inl e ↦ rw e (let z : i + 0 ≡ i = omega arith in rw z refl)
      | inr e ↦ rw e (
          occurrences-index_of (c ∷ needle) (i + 1) s h
          ∙ from_first-one_later (c ∷ needle) i d s (index_of (c ∷ needle) s)
          ∙ refl)
    ]

drop_all : (n : ℕ) (s : Text) → length s ≤ n → drop n s ≡ []
drop_all zero [] h = refl
drop_all zero (c ∷ s) h = absurd (omega arith)
drop_all (suc n) [] h = refl
drop_all (suc n) (c ∷ s) h = drop_all n s (omega arith)

length_pos : (s : Text) → s ≢ [] → 0 < length s
length_pos [] n = absurd (n refl)
length_pos (c ∷ s) n = omega arith

later_drop :
    (needle : Text) (from k : ℕ) (s : Text)
    → occurrences needle (from + k + 1) (drop (from + k + 1) s)
      ≡ occurrences needle (from + k + 1) (drop (k + 1) (drop from s))
later_drop needle from k s =
    let z : from + (k + 1) ≡ from + k + 1 = omega arith in rw (drop-drop from (k + 1) s, z) refl

offsets_from_lem :
    (rounds : ℕ) (haystack needle : Text) (from : ℕ)
    → needle ≢ []
    → length haystack < from + rounds
    → offsets_from rounds haystack needle from ≡ occurrences needle from (drop from haystack)
unfolding offsets_from occurrences
offsets_from_lem zero haystack needle from n h = rw (drop_all from haystack (omega arith)) refl
offsets_from_lem (suc rounds) haystack needle from n h =
    elim (Bool-cases (leb (from + length needle) (length haystack))) [
      | inr e ↦ rw e (
          sym (
            occurrences_short needle from (drop from haystack)
              (omega (arith, leb-false _ _ e, length-drop from haystack, length_pos needle n))))
      | inl e ↦
          rw (e, occurrences-index_of needle from (drop from haystack) n)
            (elim (Option-cases (index_of needle (drop from haystack))) [
              | inl f ↦ rw f refl
              | inr (k, f) ↦ rw f (
                  ap (λ l. (from + k) ∷ l)
                    (offsets_from_lem rounds haystack needle (from + k + 1) n (omega arith)
                      ∙ later_drop needle from k haystack))
            ])
    ]

-- `findAllSubstringOffsets` ends, and for a needle that is not empty it finds every occurrence,
-- overlapping ones too, in order. An empty needle is found nowhere.
pub find_all_substring_offsets_lem :
    (haystack needle : Text)
    → find_all_substring_offsets haystack needle
      ≡ (if length needle == 0 then [] else occurrences needle 0 haystack)
unfolding find_all_substring_offsets
find_all_substring_offsets_lem haystack [] = refl
find_all_substring_offsets_lem haystack (c ∷ needle) =
    rw (==-false (length (c ∷ needle)) 0 (λ e. omega arith))
      (offsets_from_lem (suc (length haystack)) haystack (c ∷ needle) 0 (λ e. cc) (omega arith))
