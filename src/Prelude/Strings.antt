-- ===== src/Prelude/Strings.antt =====
-- JavaScript strings as lists of UTF-16 code units, with the methods of `String` that the program
-- calls.
use Prim.Native.Nat.{ℕ, suc, ◌-◌}
use Prim.Native.Char.{code}
use Prim.Native.String.{String}
use mathlib.Core.Path.{◌≡◌, refl, ap, ◌∙◌}
use mathlib.Core.Logic.{◌↔◌, ◌≢◌, inl, inr}
use mathlib.Core.Bool.{Bool, true, false, ◌||◌, ◌&&◌}
use mathlib.Core.List.{List, [], ◌∷◌, ◌++◌, append_assoc}
use native.Mathlib.Omega.{arith}
use kb_1_daemon.Prelude.Tests.{◌==◌, leb, if◌then◌else◌, ==_iff, ==_self, Bool-cases}
use kb_1_daemon.Prelude.Lists.{length, drop, All}

abbrev pub Text : Type 0
Text = List ℕ

-- A literal of the Basic Multilingual Plane.
abbrev pub text : String → Text
text String.[] = []
text (String.◌∷◌ c s) = code c ∷ text s

-- `s === t`
abbrev pub text_eq : Text → Text → Bool
text_eq [] [] = true
text_eq [] (d ∷ t) = false
text_eq (c ∷ s) [] = false
text_eq (c ∷ s) (d ∷ t) = c == d && text_eq s t

pub text_eq→eq : (s t : Text) → text_eq s t ≡ true → s ≡ t
text_eq→eq [] [] h = refl
text_eq→eq [] (d ∷ t) h = ground arith
text_eq→eq (c ∷ s) [] h = ground arith
text_eq→eq (c ∷ s) (d ∷ t) h = ground (arith, text_eq→eq s t)

pub text_eq_self : (s : Text) → text_eq s s ≡ true
text_eq_self [] = refl
text_eq_self (c ∷ s) = rw (==_self c) (text_eq_self s)

pub text_eq_iff : (s t : Text) → (text_eq s t ≡ true) ↔ (s ≡ t)
text_eq_iff s t = (text_eq→eq s t, λ e. rw e (text_eq_self t))

-- `s.startsWith(p)`
abbrev pub starts_with : Text → Text → Bool
starts_with [] s = true
starts_with (c ∷ p) [] = false
starts_with (c ∷ p) (d ∷ s) = c == d && starts_with p s

-- `s.endsWith(p)`
abbrev pub ends_with : Text → Text → Bool
ends_with p s = leb (length p) (length s) && text_eq (drop (length s - length p) s) p

-- `s.includes(c)` for one code unit
abbrev pub includes : ℕ → Text → Bool
includes u [] = false
includes u (c ∷ s) = c == u || includes u s

abbrev pub Lacks : ℕ → Text → Type 0
Lacks u = All (λ c. c ≢ u)

abbrev pub onto_head : ℕ → List Text → List Text
onto_head c [] = (c ∷ []) ∷ []
onto_head c (p ∷ ps) = (c ∷ p) ∷ ps

-- `s.split(u)` for one code unit
abbrev pub split : ℕ → Text → List Text
split u [] = [] ∷ []
split u (c ∷ s) = let parts = split u s in if c == u then [] ∷ parts else onto_head c parts

-- `parts.join(u)`
abbrev pub join : ℕ → List Text → Text
join u [] = []
join u (p ∷ []) = p
join u (p ∷ q ∷ ps) = p ++ u ∷ join u (q ∷ ps)

module _ (u : ℕ) where
  pub split-cons : (s : Text) → (p : Text) × (ps : List Text) × (split u s ≡ p ∷ ps)
  split-cons [] = ([], [], refl)
  split-cons (c ∷ s) =
      let (p, ps, e) = split-cons s in
      elim (Bool-cases (c == u)) [ inl h ↦ ([], split u s, rw h) | inr h ↦ (c ∷ p, ps, rw (h, e)) ]

  pub split-ne-nil : (s : Text) → split u s ≢ []
  split-ne-nil s h = let (p, ps, e) = split-cons s in cc

  join-cons : (p : Text) (ps : List Text) → ps ≢ [] → join u (p ∷ ps) ≡ p ++ u ∷ join u ps
  join-cons p [] h = absurd (h refl)
  join-cons p (q ∷ ps) h = refl

  join-onto_head : (c : ℕ) (ps : List Text) → ps ≢ [] → join u (onto_head c ps) ≡ c ∷ join u ps
  join-onto_head c [] h = absurd (h refl)
  join-onto_head c (p ∷ []) h = refl
  join-onto_head c (p ∷ q ∷ ps) h = refl

  pub join-split : (s : Text) → join u (split u s) ≡ s
  join-split [] = refl
  join-split (c ∷ s) = elim (Bool-cases (c == u)) [
    | inl h ↦ rw (h, join-cons [] (split u s) (split-ne-nil s), join-split s, (==_iff c u).0 h) refl
    | inr h ↦ rw (h, join-onto_head c (split u s) (split-ne-nil s), join-split s) refl
  ]

  Lacks-onto_head :
      (c : ℕ) (ps : List Text) → c ≢ u → All (Lacks u) ps → All (Lacks u) (onto_head c ps)
  Lacks-onto_head c [] n h = ((n, tt), tt)
  Lacks-onto_head c (p ∷ ps) n (h, hs) = ((n, h), hs)

  pub split-Lacks : (s : Text) → All (Lacks u) (split u s)
  split-Lacks [] = (tt, tt)
  split-Lacks (c ∷ s) = elim (Bool-cases (c == u)) [
    | inl h ↦ rw h (tt, split-Lacks s)
    | inr h ↦ rw h (Lacks-onto_head c (split u s) (ground arith) (split-Lacks s))
  ]

  split_of_Lacks : (p : Text) → Lacks u p → split u p ≡ p ∷ []
  split_of_Lacks [] h = refl
  split_of_Lacks (c ∷ p) (n, h) = ground (arith, split_of_Lacks p h)

  split-append : (p s : Text) → Lacks u p → split u (p ++ u ∷ s) ≡ p ∷ split u s
  split-append [] s h = rw (==_self u)
  split-append (c ∷ p) s (n, h) = ground (arith, split-append p s h)

  pub split-join : (ps : List Text) → ps ≢ [] → All (Lacks u) ps → split u (join u ps) ≡ ps
  split-join [] n h = absurd (n refl)
  split-join (p ∷ []) n (h, hs) = split_of_Lacks p h
  split-join (p ∷ q ∷ ps) n (h, hs) =
      rw (split-append p (join u (q ∷ ps)) h) (ap (λ l. p ∷ l) (split-join (q ∷ ps) (λ e. cc) hs))

  pub join-append :
      (ps qs : List Text) → ps ≢ [] → qs ≢ [] → join u (ps ++ qs) ≡ join u ps ++ u ∷ join u qs
  join-append [] qs n m = absurd (n refl)
  join-append (p ∷ []) qs n m = join-cons p qs m
  join-append (p ∷ q ∷ ps) qs n m = rw (join-append (q ∷ ps) qs (λ e. cc) m, append_assoc) refl

  pub includes-Lacks : (s : Text) → includes u s ≡ false → Lacks u s
  includes-Lacks [] h = tt
  includes-Lacks (c ∷ s) h = (ground arith, includes-Lacks s (ground arith))

  pub includes_of_Lacks : (s : Text) → Lacks u s → includes u s ≡ false
  includes_of_Lacks [] h = refl
  includes_of_Lacks (c ∷ s) (n, h) = ground (arith, includes_of_Lacks s h)

  ends_with-cons :
      (c d : ℕ) (s : Text) → ends_with (u ∷ []) (c ∷ d ∷ s) ≡ ends_with (u ∷ []) (d ∷ s)
  ends_with-cons c d s =
      let e : suc (suc (length s)) - 1 ≡ suc (suc (length s) - 1) = omega arith in
      let f : leb 1 (suc (suc (length s))) ≡ leb 1 (suc (length s)) = ground arith in rw (e, f) refl

  pub ends_with_of_Lacks : (s : Text) → Lacks u s → ends_with (u ∷ []) s ≡ false
  ends_with_of_Lacks [] h = refl
  ends_with_of_Lacks (c ∷ []) (n, h) = ground arith
  ends_with_of_Lacks (c ∷ d ∷ s) (n, h) = ends_with-cons c d s ∙ ends_with_of_Lacks (d ∷ s) h

  ends_with-append :
      (s : Text) (d : ℕ) (t : Text) → ends_with (u ∷ []) (s ++ d ∷ t) ≡ ends_with (u ∷ []) (d ∷ t)
  ends_with-append [] d t = refl
  ends_with-append (c ∷ []) d t = ends_with-cons c d t
  ends_with-append (c ∷ e ∷ s) d t = ends_with-cons c e (s ++ d ∷ t) ∙ ends_with-append (e ∷ s) d t

  -- Non-empty parts without the separator: their join neither starts nor ends with it.
  abbrev pub IsPart : Text → Type 0
  IsPart p = Lacks u p × (p ≢ [])

  pub join-nonempty : (ps : List Text) → ps ≢ [] → All IsPart ps → join u ps ≢ []
  join-nonempty [] n h e = n refl
  join-nonempty ([] ∷ ps) n ((l, m), h) e = m refl
  join-nonempty ((c ∷ p) ∷ []) n h e = cc
  join-nonempty ((c ∷ p) ∷ q ∷ ps) n h e = cc

  pub starts_with-join : (ps : List Text) → All IsPart ps → starts_with (u ∷ []) (join u ps) ≡ false
  starts_with-join [] h = refl
  starts_with-join ([] ∷ ps) ((l, m), h) = absurd (m refl)
  starts_with-join ((c ∷ p) ∷ []) (((n, l), m), h) = ground arith
  starts_with-join ((c ∷ p) ∷ q ∷ ps) (((n, l), m), h) = ground arith

  ends_with-join_cons :
      (p s : Text) → s ≢ [] → ends_with (u ∷ []) (p ++ u ∷ s) ≡ ends_with (u ∷ []) s
  ends_with-join_cons p [] n = absurd (n refl)
  ends_with-join_cons p (d ∷ s) n = ends_with-append p u (d ∷ s) ∙ ends_with-cons u d s

  pub ends_with-join : (ps : List Text) → All IsPart ps → ends_with (u ∷ []) (join u ps) ≡ false
  ends_with-join [] h = refl
  ends_with-join (p ∷ []) ((l, m), h) = ends_with_of_Lacks p l
  ends_with-join (p ∷ q ∷ ps) (h, hs) =
      ends_with-join_cons p (join u (q ∷ ps)) (join-nonempty (q ∷ ps) (λ e. cc) hs)
      ∙ ends_with-join (q ∷ ps) hs
