-- ===== src/DocSession/Manager/Lookups.antt =====
-- Lookups of sessions and of counts after a change.
use kb_1_daemon.Prelude.{
  ℕ, zero, suc, ◌-◌, ◌≤◌, ◌≡◌, ◌≢◌, refl, sym, ap, ◌∙◌, ◌⊎◌, inl, inr, Bool, true, false, ◌||◌,
  Bool-cases, List, [], ◌∷◌, Option, none, some, Text, text_eq, text_eq_iff, ltb, ◌==◌, ==_iff,
  ==_self, ==-false, if◌then◌else◌, arith, get_entry, set_entry, delete_entry, get_entry-set_entry,
  get_entry-delete_entry,
}
use kb_1_daemon.DocSession.Manager.{
  Manager, count_of, or_none, take_one, store_count, is_session_in_use, has_active_operations,
  delete_paths_of,
}

abbrev pub Sessions : Type 0
Sessions = List (Text × ℕ)

abbrev pub at : Text → Sessions → Option ℕ
at path l = get_entry text_eq path l

pub at-set :
    (q p : Text) (s : ℕ) (l : Sessions)
    → at q (set_entry text_eq p s l) ≡ (if text_eq p q then some s else at q l)
at-set q p s l = get_entry-set_entry text_eq text_eq_iff q p s l

pub at-delete :
    (q p : Text) (l : Sessions)
    → at q (delete_entry text_eq p l) ≡ (if text_eq p q then none else at q l)
at-delete q p l = get_entry-delete_entry text_eq text_eq_iff q p l

-- No path stands for another session than before.
abbrev pub Fewer : Sessions → Sessions → Type 0
Fewer l k = (q : Text) → (at q k ≡ at q l) ⊎ (at q k ≡ none)

pub Fewer-self : (l : Sessions) → Fewer l l
Fewer-self l q = inl refl

pub Fewer-trans : (l k j : Sessions) → Fewer l k → Fewer k j → Fewer l j
Fewer-trans l k j f g q = elim (g q) [
  | inl e ↦ elim (f q) [ inl d ↦ inl (e ∙ d) | inr d ↦ inr (e ∙ d) ]
  | inr e ↦ inr e
]

pub delete-Fewer : (p : Text) (l : Sessions) → Fewer l (delete_entry text_eq p l)
delete-Fewer p l q = elim (Bool-cases (text_eq p q)) [
  | inl e ↦ inr (at-delete q p l ∙ rw e refl)
  | inr e ↦ inl (at-delete q p l ∙ rw e refl)
]

pub delete_paths_of-Fewer : (s : ℕ) (entries l : Sessions) → Fewer l (delete_paths_of s entries l)
delete_paths_of-Fewer s [] l = Fewer-self l
delete_paths_of-Fewer s ((p, t) ∷ entries) l = elim (Bool-cases (t == s)) [
  | inl e ↦ rw e (
      Fewer-trans l _ _ (delete-Fewer p l)
        (delete_paths_of-Fewer s entries (delete_entry text_eq p l)))
  | inr e ↦ rw e (delete_paths_of-Fewer s entries l)
]

-- What a session is found at afterwards, it was found at before.
pub at-Fewer : (l k : Sessions) (q : Text) (s : ℕ) → Fewer l k → at q k ≡ some s → at q l ≡ some s
at-Fewer l k q s f e = elim (f q) [
  | inl d ↦ sym d ∙ e
  | inr d ↦ absurd (let no : none ≡ some s = sym d ∙ e in cc)
]

pub count-set :
    (s t n : ℕ) (c : List (ℕ × ℕ)) → s ≢ t → count_of s (set_entry ◌==◌ t n c) ≡ count_of s c
count-set s t n c d =
    let e : (t == s) ≡ false = ==-false t s (λ x. d (sym x)) in
    let same : get_entry ◌==◌ s (set_entry ◌==◌ t n c) ≡ get_entry ◌==◌ s c =
      get_entry-set_entry ◌==◌ ==_iff s t n c ∙ rw e refl in
    ap or_none same

pub count-set_same : (s n : ℕ) (c : List (ℕ × ℕ)) → count_of s (set_entry ◌==◌ s n c) ≡ n
count-set_same s n c =
    let same : get_entry ◌==◌ s (set_entry ◌==◌ s n c) ≡ some n =
      get_entry-set_entry ◌==◌ ==_iff s s n c ∙ rw (==_self s) refl in
    ap or_none same

pub count-delete :
    (s t : ℕ) (c : List (ℕ × ℕ)) → count_of s c ≡ 0 → count_of s (delete_entry ◌==◌ t c) ≡ 0
count-delete s t c z =
    let found = get_entry-delete_entry ◌==◌ ==_iff s t c in
    elim (Bool-cases (t == s)) [
      | inl e ↦
          let gone : get_entry ◌==◌ s (delete_entry ◌==◌ t c) ≡ none = found ∙ rw e refl in
          ap or_none gone
      | inr e ↦
          let same : get_entry ◌==◌ s (delete_entry ◌==◌ t c) ≡ get_entry ◌==◌ s c =
            found ∙ rw e refl in
          ap or_none same ∙ z
    ]

stored_zero :
    (s t n : ℕ) (c : List (ℕ × ℕ))
    → count_of s c ≡ 0
    → n ≤ count_of t c - 1
    → count_of s (store_count t c n) ≡ 0
stored_zero s t zero c z b = count-delete s t c z
stored_zero s t (suc n) c z b =
    count-set s t (suc n) c (λ e. (let y : count_of t c ≡ 0 = rw (sym e) z in omega arith)) ∙ z

pub count-take_one : (s t : ℕ) (c : List (ℕ × ℕ)) → count_of s c ≡ 0 → count_of s (take_one t c) ≡ 0
count-take_one s t c z = stored_zero s t (count_of t c - 1) c z (omega arith)

-- No client and no operation uses the session.
abbrev pub IsUnused : ℕ → Manager → Type 0
IsUnused s m = (count_of s m.client_counts ≡ 0) × (count_of s m.operation_counts ≡ 0)

or_false : (a b : Bool) → (a || b) ≡ false → (a ≡ false) × (b ≡ false)
or_false false b e = (refl, e)
or_false true b e = absurd cc

not_positive : (n : ℕ) → ltb 0 n ≡ false → n ≡ 0
not_positive n e = ground arith

pub in_use-IsUnused : (s : ℕ) (m : Manager) → is_session_in_use s m ≡ false → IsUnused s m
unfolding is_session_in_use
in_use-IsUnused s m e =
    let (a, b) = or_false (ltb 0 (count_of s m.client_counts)) (has_active_operations s m) e in
    (not_positive _ a, not_positive _ b)
