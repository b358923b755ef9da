-- ===== src/DocSession/Manager/Invariant.antt =====
-- What holds of a manager at every time, and what the steps outside the running change leave of it.
use mathlib.Core.Path.{subst}
use kb_1_daemon.Prelude.{
  ℕ, ◌+◌, ◌≤◌, ◌<◌, ◌≡◌, ◌≢◌, refl, sym, ap, ◌∙◌, ◌⊎◌, inl, inr, Bool, true, false, Bool-cases,
  List, ◌∷◌, ◌++◌, Option, none, some, Text, text_eq, text_eq→eq, if◌then◌else◌, arith,
}
use kb_1_daemon.DocSession.Manager.{
  Manager, Mutation, delete_session, delete_subtree, move_subtree, idle_close, move_session,
  close_all, Phase, its_turn, operation_on_disk, all_closes, source_stat, session_moves,
  session_deletes, session_closes, subtree_deletes, subtree_stat, subtree_moves,
  has_path_reservation,
}
use kb_1_daemon.DocSession.Manager.Lookups.{Sessions, at, Fewer, at-Fewer, IsUnused}

-- Sessions are numbered below the next number, and each stands for one path.
pub record IsOnePath (m : Manager) : Type 0 where
  pub numbered : (p : Text) (s : ℕ) → at p m.sessions ≡ some s → s < m.next_session
  pub one_path : (p q : Text) (s : ℕ) → at p m.sessions ≡ some s → at q m.sessions ≡ some s → p ≡ q

-- The path is reserved, and no other session than the given one stands for it.
pub record IsKept (p : Text) (o : Option ℕ) (m : Manager) : Type 0 where
  pub reserved : has_path_reservation p m ≡ true
  pub holds : (at p m.sessions ≡ o) ⊎ (at p m.sessions ≡ none)

-- The session stands for no other path than the given one.
pub record IsOnly (p : Text) (s : ℕ) (m : Manager) : Type 0 where
  pub only : (q : Text) → at q m.sessions ≡ some s → q ≡ p
  pub old : s < m.next_session

abbrev pub IsOnlyOf : Text → Option ℕ → Manager → Type 0
IsOnlyOf p none m = Unit {0}
IsOnlyOf p (some s) m = IsOnly p s m

-- The session that closes stands for no path, no one uses it, and its path is reserved and free.
pub record IsAlone (p : Text) (s : ℕ) (m : Manager) : Type 0 where
  pub kept : IsKept p none m
  pub nowhere : (q : Text) → at q m.sessions ≢ some s
  pub unused : IsUnused s m
  pub old : s < m.next_session

-- The sessions that wait for their move stand for no other paths, and each waits once.
abbrev pub IsWaiting : Sessions → Manager → Type 0
IsWaiting waiting m =
    (p : Text) (s : ℕ)
    → at p waiting ≡ some s
    → IsOnly p s m × ((q : Text) → at q waiting ≡ some s → q ≡ p)

abbrev pub IsPhase : Phase → Manager → Type 0
IsPhase its_turn m = Unit
IsPhase operation_on_disk m = Unit
IsPhase all_closes m = Unit
IsPhase (source_stat from to o) m =
    IsKept from o m × IsOnlyOf from o m × (has_path_reservation to m ≡ true)
IsPhase (session_moves from to s) m =
    IsKept from (some s) m × IsOnly from s m × IsKept to (some s) m
IsPhase (session_deletes p s) m = IsKept p (some s) m × IsOnly p s m
IsPhase (session_closes p s) m = IsAlone p s m
IsPhase (subtree_deletes p o later) m = Unit
IsPhase (subtree_stat from to) m = Unit
IsPhase (subtree_moves from to waiting) m = IsWaiting waiting m

abbrev pub IsFirst : Mutation → List Mutation → Type 0
IsFirst t ts = (rest : List Mutation) × (ts ≡ t ∷ rest)

abbrev pub uses_disk : Mutation → Bool
uses_disk (idle_close p) = false
uses_disk close_all = false
uses_disk _ = true

-- What is waited for belongs to the first change of the queue.
abbrev pub IsTurn : Phase → List Mutation → Type 0
IsTurn its_turn ts = Unit
IsTurn operation_on_disk ts = (t : Mutation) × IsFirst t ts × (uses_disk t ≡ true)
IsTurn all_closes ts = IsFirst close_all ts
IsTurn (source_stat from to o) ts = IsFirst (move_session from to) ts
IsTurn (session_moves from to s) ts = IsFirst (move_session from to) ts
IsTurn (session_deletes p s) ts = IsFirst (delete_session p) ts
IsTurn (session_closes p s) ts = IsFirst (idle_close p) ts
IsTurn (subtree_deletes p o later) ts = (folder : Text) × IsFirst (delete_subtree folder) ts
IsTurn (subtree_stat from to) ts = IsFirst (move_subtree from to) ts
IsTurn (subtree_moves from to waiting) ts = IsFirst (move_subtree from to) ts

pub record IsManager (m : Manager) : Type 0 where
  pub sound : IsOnePath m
  pub belongs : IsTurn m.phase m.mutations
  pub running : IsPhase m.phase m

-- A new session for a path that is free and not reserved.
pub record IsAdded (p : Text) (m n : Manager) : Type 0 where
  pub free : has_path_reservation p m ≡ false
  pub absent : at p m.sessions ≡ none
  pub added :
      (q : Text) → at q n.sessions ≡ (if text_eq p q then some m.next_session else at q m.sessions)
  pub next : n.next_session ≡ m.next_session + 1

-- What happens outside the running change.
pub record IsCalm (m n : Manager) : Type 0 where
  pub same_phase : n.phase ≡ m.phase
  pub queued : (more : List Mutation) × (n.mutations ≡ m.mutations ++ more)
  pub reserved : (p : Text) → has_path_reservation p m ≡ true → has_path_reservation p n ≡ true
  pub change : Fewer m.sessions n.sessions ⊎ ((p : Text) × IsAdded p m n)
  pub grows : m.next_session ≤ n.next_session
  pub unused :
      (s : ℕ)
      → ((q : Text) → at q m.sessions ≢ some s)
      → s < m.next_session
      → IsUnused s m
      → IsUnused s n

pub at_phase : (f g : Phase) → f ≡ g → (m : Manager) → IsPhase f m → IsPhase g m
at_phase f g e m i = rw (sym e) i

longer-IsFirst :
    (t : Mutation) (ts us more : List Mutation) → us ≡ ts ++ more → IsFirst t ts → IsFirst t us
longer-IsFirst t ts us more e (rest, f) = (rest ++ more, e ∙ ap (λ l. l ++ more) f)

longer-IsTurn :
    (f : Phase) (ts us more : List Mutation) → us ≡ ts ++ more → IsTurn f ts → IsTurn f us
longer-IsTurn its_turn ts us more e h = tt
longer-IsTurn operation_on_disk ts us more e (t, h, d) = (t, longer-IsFirst t ts us more e h, d)
longer-IsTurn all_closes ts us more e h = longer-IsFirst _ ts us more e h
longer-IsTurn (source_stat from to o) ts us more e h = longer-IsFirst _ ts us more e h
longer-IsTurn (session_moves from to s) ts us more e h = longer-IsFirst _ ts us more e h
longer-IsTurn (session_deletes p s) ts us more e h = longer-IsFirst _ ts us more e h
longer-IsTurn (session_closes p s) ts us more e h = longer-IsFirst _ ts us more e h
longer-IsTurn (subtree_deletes p o later) ts us more e (folder, h) =
    (folder, longer-IsFirst _ ts us more e h)
longer-IsTurn (subtree_stat from to) ts us more e h = longer-IsFirst _ ts us more e h
longer-IsTurn (subtree_moves from to waiting) ts us more e h = longer-IsFirst _ ts us more e h

module _ (m n : Manager) (c : IsCalm m n) where
  -- A session that there was already stood for the path before.
  stood :
      (q : Text) (s : ℕ) → s < m.next_session → at q n.sessions ≡ some s → at q m.sessions ≡ some s
  stood q s l e = elim c.change [
    | inl f ↦ at-Fewer m.sessions n.sessions q s f e
    | inr (p, a) ↦ elim (Bool-cases (text_eq p q)) [
      | inl b ↦
          let new : some m.next_session ≡ some s = sym (a.added q ∙ rw b refl) ∙ e in
          let same : m.next_session ≡ s = cc in absurd (omega arith)
      | inr b ↦ sym (a.added q ∙ rw b refl) ∙ e
    ]
  ]

  -- Nothing is added for a path that is reserved.
  stays :
      (q : Text)
      → has_path_reservation q m ≡ true
      → (at q n.sessions ≡ at q m.sessions) ⊎ (at q n.sessions ≡ none)
  stays q r = elim c.change [
    | inl f ↦ f q
    | inr (p, a) ↦ elim (Bool-cases (text_eq p q)) [
      | inl b ↦
          let same : p ≡ q = text_eq→eq p q b in
          absurd (let no : true ≡ false = sym r ∙ rw (sym same) a.free in cc)
      | inr b ↦ inl (a.added q ∙ rw b refl)
    ]
  ]

  calm-IsKept : (p : Text) (o : Option ℕ) → IsKept p o m → IsKept p o n
  calm-IsKept p o k = record {
    reserved = c.reserved p k.reserved;
    holds = elim (stays p k.reserved) [
      | inl e ↦ elim k.holds [ inl d ↦ inl (e ∙ d) | inr d ↦ inr (e ∙ d) ]
      | inr e ↦ inr e
    ];
  }

  calm-IsOnly : (p : Text) (s : ℕ) → IsOnly p s m → IsOnly p s n
  calm-IsOnly p s o = record {
    only = λ q e. o.only q (stood q s o.old e);
    old = let g = c.grows in let l = o.old in omega arith;
  }

  calm-IsOnlyOf : (p : Text) (o : Option ℕ) → IsOnlyOf p o m → IsOnlyOf p o n
  calm-IsOnlyOf p none i = tt
  calm-IsOnlyOf p (some s) i = calm-IsOnly p s i

  calm-IsAlone : (p : Text) (s : ℕ) → IsAlone p s m → IsAlone p s n
  calm-IsAlone p s a = record {
    kept = calm-IsKept p none a.kept;
    nowhere = λ q e. a.nowhere q (stood q s a.old e);
    unused = c.unused s a.nowhere a.old a.unused;
    old = let g = c.grows in let l = a.old in omega arith;
  }

  calm-IsPhase : (f : Phase) → IsPhase f m → IsPhase f n
  calm-IsPhase its_turn i = tt
  calm-IsPhase operation_on_disk i = tt
  calm-IsPhase all_closes i = tt
  calm-IsPhase (source_stat from to o) (k, i, r) =
      (calm-IsKept from o k, calm-IsOnlyOf from o i, c.reserved to r)
  calm-IsPhase (session_moves from to s) (k, i, j) =
      (calm-IsKept from (some s) k, calm-IsOnly from s i, calm-IsKept to (some s) j)
  calm-IsPhase (session_deletes p s) (k, i) = (calm-IsKept p (some s) k, calm-IsOnly p s i)
  calm-IsPhase (session_closes p s) a = calm-IsAlone p s a
  calm-IsPhase (subtree_deletes p o later) i = tt
  calm-IsPhase (subtree_stat from to) i = tt
  calm-IsPhase (subtree_moves from to waiting) w =
      λ p s e. (calm-IsOnly p s (w p s e).0, (w p s e).1)

  -- A session is numbered, or it is the new one at the path that was added.
  numbered_or_new :
      (i : IsOnePath m) (q : Text) (s : ℕ)
      → at q n.sessions ≡ some s
      → (at q m.sessions ≡ some s) ⊎ ((s ≡ m.next_session) × (m.next_session < n.next_session))
  numbered_or_new i q s e = elim c.change [
    | inl f ↦ inl (at-Fewer m.sessions n.sessions q s f e)
    | inr (p, a) ↦ elim (Bool-cases (text_eq p q)) [
      | inl b ↦
          let new : some m.next_session ≡ some s = sym (a.added q ∙ rw b refl) ∙ e in
          let same : s ≡ m.next_session = cc in inr (same, (let x = a.next in omega arith))
      | inr b ↦ inl (sym (a.added q ∙ rw b refl) ∙ e)
    ]
  ]

  new_at :
      (i : IsOnePath m) (p q : Text)
      → at p n.sessions ≡ some m.next_session
      → at q n.sessions ≡ some m.next_session
      → p ≡ q
  new_at i p q d e = elim c.change [
    | inl f ↦
        let l = i.numbered p m.next_session (at-Fewer m.sessions n.sessions p m.next_session f d) in
        absurd (omega arith)
    | inr (r, a) ↦
        sym (text_eq→eq r p (added_true i r a p d)) ∙ text_eq→eq r q (added_true i r a q e)
  ]
    where
      added_true :
          (i : IsOnePath m) (r : Text) (a : IsAdded r m n) (p : Text)
          → at p n.sessions ≡ some m.next_session
          → text_eq r p ≡ true
      added_true i r a p d = elim (Bool-cases (text_eq r p)) [
        | inl b ↦ b
        | inr b ↦
            let l = i.numbered p m.next_session (sym (a.added p ∙ rw b refl) ∙ d) in
            absurd (omega arith)
      ]

  calm-IsOnePath : IsOnePath m → IsOnePath n
  calm-IsOnePath i = record {
    numbered = λ p s e. elim (numbered_or_new i p s e) [
      | inl d ↦ let l = i.numbered p s d in let g = c.grows in omega arith
      | inr (d, g) ↦ omega arith
    ];
    one_path = λ p q s d e. elim (numbered_or_new i p s d) [
      | inl x ↦ i.one_path p q s x (stood q s (i.numbered p s x) e)
      | inr (x, g) ↦ new_at i p q (rw (sym x) d) (rw (sym x) e)
    ];
  }

  pub calm-IsManager : IsManager m → IsManager n
  calm-IsManager i = record {
    sound = calm-IsOnePath i.sound;
    belongs =
        subst (λ f. IsTurn f n.mutations) (sym c.same_phase)
          (longer-IsTurn m.phase m.mutations n.mutations c.queued.0 c.queued.1 i.belongs);
    running = at_phase m.phase n.phase (sym c.same_phase) n (calm-IsPhase m.phase i.running);
  }
