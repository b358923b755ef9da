-- ===== src/VaultCore/Splice/Places.antt =====
-- What stands at the offsets that are found.
use mathlib.Core.Path.{subst}
use kb_1_daemon.Prelude.{
  ℕ, zero, suc, ◌+◌, ◌≡◌, refl, sym, ap, ap₂, true, &&-true, Bool-cases, inl, inr, List, [], ◌∷◌,
  ◌++◌, Option, none, some, Text, starts_with, length, get_elem?, All, ◌==◌, ==_iff, arith,
}
use kb_1_daemon.VaultCore.Splice.{find_all_substring_offsets, picked, at, choose}
use kb_1_daemon.VaultCore.Splice.Occurrences.{occurrences, find_all_substring_offsets_lem}

-- The needle stands at the place `m` of the haystack.
pub record IsAt (haystack needle : Text) (m : ℕ) : Type 0 where
  pub left : Text
  pub right : Text
  pub whole : haystack ≡ left ++ needle ++ right
  pub place : length left ≡ m

pub starts_with_rest :
    (needle s : Text) → starts_with needle s ≡ true → (rest : Text) × (s ≡ needle ++ rest)
starts_with_rest [] s h = (s, refl)
starts_with_rest (c ∷ needle) [] h = ground arith
starts_with_rest (c ∷ needle) (d ∷ s) h =
    let (first, later) = &&-true (c == d) (starts_with needle s) h in
    let (rest, e) = starts_with_rest needle s later in
    (rest, ap₂ (λ b t. b ∷ t) (sym ((==_iff c d).0 first)) e)

abbrev IsAfter : ℕ → Text → Text → ℕ → Type 0
IsAfter i needle s m = (k : ℕ) × IsAt s needle k × (k + i ≡ m)

IsAfter-cons :
    (i d m : ℕ) (needle s : Text) → IsAfter (i + 1) needle s m → IsAfter i needle (d ∷ s) m
IsAfter-cons i d m needle s (k, a, e) = (
  suc k,
  record {
    left = d ∷ a.left;
    right = a.right;
    whole = ap (λ t. d ∷ t) a.whole;
    place = omega (arith, a.place);
  },
  omega arith,
)

All-IsAfter :
    (i d : ℕ) (needle s : Text) (ms : List ℕ)
    → All (IsAfter (i + 1) needle s) ms
    → All (IsAfter i needle (d ∷ s)) ms
All-IsAfter i d needle s [] h = tt
All-IsAfter i d needle s (m ∷ ms) (a, h) =
    (IsAfter-cons i d m needle s a, All-IsAfter i d needle s ms h)

occurrences-IsAfter : (i : ℕ) (needle s : Text) → All (IsAfter i needle s) (occurrences needle i s)
unfolding occurrences
occurrences-IsAfter i needle [] = tt
occurrences-IsAfter i needle (d ∷ s) =
    let later =
      All-IsAfter i d needle s (occurrences needle (i + 1) s)
        (occurrences-IsAfter (i + 1) needle s) in
    elim (Bool-cases (starts_with needle (d ∷ s))) [
      | inr e ↦ rw e later
      | inl e ↦ rw e (
          let (rest, f) = starts_with_rest needle (d ∷ s) e in
          ((0, record { left = []; right = rest; whole = f; place = refl }, omega arith), later))
    ]

All-IsAt : (needle s : Text) (ms : List ℕ) → All (IsAfter 0 needle s) ms → All (IsAt s needle) ms
All-IsAt needle s [] h = tt
All-IsAt needle s (m ∷ ms) ((k, a, e), h) = (
  record { left = a.left; right = a.right; whole = a.whole; place = omega (arith, a.place) },
  All-IsAt needle s ms h,
)

-- Every offset that is found is one of the needle.
pub find-IsAt :
    (haystack needle : Text)
    → All (IsAt haystack needle) (find_all_substring_offsets haystack needle)
find-IsAt haystack needle =
    rw (find_all_substring_offsets_lem haystack needle) (elim (Bool-cases (length needle == 0)) [
      | inl e ↦ rw e tt
      | inr e ↦ rw e (All-IsAt needle haystack _ (occurrences-IsAfter 0 needle haystack))
    ])

get_elem?-All : (P : ℕ → Type 0) (ms : List ℕ) (k m : ℕ) → All P ms → get_elem? ms k ≡ some m → P m
get_elem?-All P [] k m h e = cc
get_elem?-All P (n ∷ ms) zero m (p, h) e = let same : n ≡ m = cc in subst P same p
get_elem?-All P (n ∷ ms) (suc k) m (p, h) e = get_elem?-All P ms k m h e

picked_lem : (o : Option ℕ) (m : ℕ) → picked o ≡ at m → o ≡ some m
picked_lem none m e = cc
picked_lem (some n) m e = let same : n ≡ m = cc in ap some same

pub choose-All :
    (P : ℕ → Type 0) (ms : List ℕ) (o : Option ℕ) (m : ℕ) → All P ms → choose ms o ≡ at m → P m
unfolding choose
choose-All P [] o m h e = cc
choose-All P (n ∷ []) o m (p, h) e = let same : n ≡ m = cc in subst P same p
choose-All P (n ∷ k ∷ ms) none m h e = cc
choose-All P (n ∷ k ∷ ms) (some zero) m h e = cc
choose-All P (n ∷ k ∷ ms) (some (suc j)) m h e =
    get_elem?-All P (n ∷ k ∷ ms) j m h (picked_lem _ m e)
