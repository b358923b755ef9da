-- ===== src/VaultCore/Splice/Normalize.antt =====
-- Normalised texts: the two ways to make them agree, and the offsets lead back to the raw text.
use kb_1_daemon.Prelude.{
  ℕ, zero, suc, ◌+◌, ◌≤◌, ◌≡◌, refl, sym, ap, Bool, true, false, ◌&&◌, Bool-cases, inl, inr, [],
  ◌∷◌, ◌++◌, Text, length, get_elem?, take, drop, ◌==◌, if◌then◌else◌, arith,
}
use kb_1_daemon.VaultCore.Splice.{
  lf, cr, starts_lf, replace_crlf, lf_normalize, emit, normalize_from, normalize_with_raw_offsets,
}

-- Is this unit the first of a pair?
abbrev pub is_pair : ℕ → Text → Bool
is_pair c s = c == cr && starts_lf s

abbrev unit_of : ℕ → ℕ
unit_of c = if c == cr then lf else c

is_pair_nil : (c : ℕ) → is_pair c [] ≡ false
is_pair_nil c = ground arith

pair_lem : (c d : ℕ) (t : Text) → is_pair c (d ∷ t) ≡ true → (c ≡ cr) × (d ≡ lf)
pair_lem c d t h = ground arith

lf_normalize-unit :
    (c : ℕ) (s : Text) → is_pair c s ≡ false → lf_normalize (c ∷ s) ≡ unit_of c ∷ lf_normalize s
unfolding lf_normalize replace_crlf
lf_normalize-unit c s h = rw h refl

lf_normalize-pair : (s : Text) → lf_normalize (cr ∷ lf ∷ s) ≡ lf ∷ lf_normalize s
unfolding lf_normalize replace_crlf
lf_normalize-pair s = refl

normalize-unit :
    (raw c : ℕ) (s : Text)
    → is_pair c s ≡ false
    → normalize_from false raw (c ∷ s) ≡ emit (unit_of c) raw (normalize_from false (raw + 1) s)
unfolding normalize_from
normalize-unit raw c s h = rw h refl

normalize-pair :
    (raw : ℕ) (s : Text)
    → normalize_from false raw (cr ∷ lf ∷ s) ≡ emit lf raw (normalize_from false (raw + 2) s)
unfolding normalize_from
normalize-pair raw s = ap (λ r. emit lf raw (normalize_from false r s)) (omega arith)

value_nil : (raw : ℕ) → (normalize_from false raw []).value ≡ lf_normalize []
unfolding lf_normalize replace_crlf normalize_from
value_nil raw = refl

value_lem : (raw : ℕ) (s : Text) → (normalize_from false raw s).value ≡ lf_normalize s
value_lem raw [] = value_nil raw
value_lem raw (c ∷ []) =
    rw (normalize-unit raw c [] (is_pair_nil c), lf_normalize-unit c [] (is_pair_nil c))
      (ap (λ v. unit_of c ∷ v) (value_nil (raw + 1)))
value_lem raw (c ∷ d ∷ t) = elim (Bool-cases (is_pair c (d ∷ t))) [
  | inr h ↦
      rw (normalize-unit raw c (d ∷ t) h, lf_normalize-unit c (d ∷ t) h)
        (ap (λ v. unit_of c ∷ v) (value_lem (raw + 1) (d ∷ t)))
  | inl h ↦
      let (e, f) = pair_lem c d t h in
      rw (e, f, normalize-pair raw t, lf_normalize-pair t)
        (ap (λ v. lf ∷ v) (value_lem (raw + 2) t))
]

-- The loop that keeps the raw offsets makes the same text as `lfNormalize`.
pub value-normalize_with_raw_offsets :
    (s : Text) → (normalize_with_raw_offsets s).value ≡ lf_normalize s
unfolding normalize_with_raw_offsets
value-normalize_with_raw_offsets s = value_lem 0 s

-- A cut of the raw text that falls on the i-th place of the normalised one.
pub record Cut (i raw : ℕ) (s : Text) : Type 0 where
  pub pre : Text
  pub post : Text
  pub whole : s ≡ pre ++ post
  pub norm_pre : lf_normalize pre ≡ take i (lf_normalize s)
  pub norm_post : lf_normalize post ≡ drop i (lf_normalize s)
  pub later :
      (k : ℕ)
      → get_elem? (normalize_from false raw s).raw_offsets (i + k)
        ≡ get_elem? (normalize_from false (raw + length pre) post).raw_offsets k

is_pair-append : (c : ℕ) (pre post : Text) → is_pair c (pre ++ post) ≡ false → is_pair c pre ≡ false
is_pair-append c [] post h = ground arith
is_pair-append c (d ∷ pre) post h = h

one_unit :
    (i raw c : ℕ) (s : Text) → is_pair c s ≡ false → Cut i (raw + 1) s → Cut (suc i) raw (c ∷ s)
unfolding lf_normalize
one_unit i raw c s h d =
    let alone : is_pair c d.pre ≡ false = is_pair-append c d.pre d.post (rw (sym d.whole) h) in
    record {
      pre = c ∷ d.pre;
      post = d.post;
      whole = ap (λ t. c ∷ t) d.whole;
      norm_pre = rw (lf_normalize-unit c d.pre alone, lf_normalize-unit c s h, d.norm_pre) refl;
      norm_post = rw (lf_normalize-unit c s h) d.norm_post;
      later = λ k.
          let z : suc i + k ≡ suc (i + k) = omega arith in
          let y : raw + suc (length d.pre) ≡ raw + 1 + length d.pre = omega arith in
          rw (normalize-unit raw c s h) (rw (z, y) (d.later k));
    }

one_pair : (i raw : ℕ) (t : Text) → Cut i (raw + 2) t → Cut (suc i) raw (cr ∷ lf ∷ t)
one_pair i raw t d = record {
  pre = cr ∷ lf ∷ d.pre;
  post = d.post;
  whole = ap (λ u. cr ∷ lf ∷ u) d.whole;
  norm_pre = rw (lf_normalize-pair d.pre, lf_normalize-pair t, d.norm_pre) refl;
  norm_post = rw (lf_normalize-pair t) d.norm_post;
  later = λ k.
      let z : suc i + k ≡ suc (i + k) = omega arith in
      let y : raw + suc (suc (length d.pre)) ≡ raw + 2 + length d.pre = omega arith in
      rw (normalize-pair raw t) (rw (z, y) (d.later k));
}

no_unit : (raw : ℕ) (s : Text) → Cut 0 raw s
unfolding lf_normalize replace_crlf
no_unit raw s = record {
  pre = [];
  post = s;
  whole = refl;
  norm_pre = refl;
  norm_post = refl;
  later =
      λ k. let z : 0 + k ≡ k = omega arith in let y : raw + 0 ≡ raw = omega arith in rw (z, y) refl;
}

length_nil : length (lf_normalize []) ≡ 0
unfolding lf_normalize replace_crlf
length_nil = refl

length-unit :
    (c : ℕ) (s : Text)
    → is_pair c s ≡ false
    → length (lf_normalize (c ∷ s)) ≡ suc (length (lf_normalize s))
length-unit c s h = ap length (lf_normalize-unit c s h)

length-pair :
    (c d : ℕ) (t : Text)
    → is_pair c (d ∷ t) ≡ true
    → length (lf_normalize (c ∷ d ∷ t)) ≡ suc (length (lf_normalize t))
length-pair c d t h = let (e, f) = pair_lem c d t h in rw (e, f) (ap length (lf_normalize-pair t))

-- Every place of the normalised text is one of the raw text, and the offsets after it are those
-- of what follows the cut.
pub cut : (i raw : ℕ) (s : Text) → i ≤ length (lf_normalize s) → Cut i raw s
cut zero raw s h = no_unit raw s
cut (suc i) raw [] h = absurd (omega (arith, length_nil))
cut (suc i) raw (c ∷ []) h =
    one_unit i raw c [] (is_pair_nil c)
      (cut i (raw + 1) [] (omega (arith, length-unit c [] (is_pair_nil c))))
cut (suc i) raw (c ∷ d ∷ t) h = elim (Bool-cases (is_pair c (d ∷ t))) [
  | inr e ↦
      one_unit i raw c (d ∷ t) e (cut i (raw + 1) (d ∷ t) (omega (arith, length-unit c (d ∷ t) e)))
  | inl e ↦
      let (f, g) = pair_lem c d t e in
      rw (f, g) (one_pair i raw t (cut i (raw + 2) t (omega (arith, length-pair c d t e))))
]
