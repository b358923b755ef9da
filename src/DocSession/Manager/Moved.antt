-- ===== src/DocSession/Manager/Moved.antt =====
-- What a move leaves of the sessions.
use kb_1_daemon.Prelude.{
  ℕ, ◌≡◌, ◌≢◌, refl, sym, ap, ◌∙◌, inl, inr, Bool, true, false, Bool-cases, Option, none, some,
  Text, text_eq, text_eq→eq, text_eq_self, delete_entry,
}
use kb_1_daemon.DocSession.Manager.{
  Manager, Phase, session_moves, session_at, is_session_in_use, is_inactive, cancel_idle_close,
  schedule_idle, schedule_for, schedule_idle_close,
}
use kb_1_daemon.DocSession.Manager.Mutations.{
  end_mutation, schedule_unless_used, rekeyed, rekey_session, after_move, session_moved,
}
use kb_1_daemon.DocSession.Manager.Runs.{Reachable}
use kb_1_daemon.DocSession.Manager.Lookups.{at, at-set, at-delete}
use kb_1_daemon.DocSession.Manager.Invariant.{at_phase}
use kb_1_daemon.DocSession.Manager.Steps.{reached-IsManager}

differs : (p q : Text) → p ≢ q → text_eq p q ≡ false
differs p q d = elim (Bool-cases (text_eq p q)) [
  | inl b ↦ absurd (d (text_eq→eq p q b))
  | inr b ↦ b
]

module _ (is_opened : ℕ → Bool) (q p : Text) (other : p ≢ q) where
  scheduled_elsewhere :
      (m : Manager) (b : Bool) → at q (schedule_idle is_opened p m b).sessions ≡ at q m.sessions
  scheduled_elsewhere m true = refl
  scheduled_elsewhere m false = at-delete q p m.sessions ∙ rw (differs p q other) refl

  schedule_for_elsewhere :
      (m : Manager) (o : Option ℕ) → at q (schedule_for is_opened p m o).sessions ≡ at q m.sessions
  schedule_for_elsewhere m none = refl
  schedule_for_elsewhere m (some s) = elim (Bool-cases (is_session_in_use s m)) [
    | inl e ↦ rw e refl
    | inr e ↦ rw e (scheduled_elsewhere (cancel_idle_close p m) (is_opened s))
  ]

  schedule_elsewhere :
      (m : Manager) → at q (schedule_idle_close is_opened p m).sessions ≡ at q m.sessions
  unfolding schedule_idle_close
  schedule_elsewhere m = elim (Bool-cases (is_inactive m)) [
    | inl e ↦ rw e refl
    | inr e ↦ rw e (schedule_for_elsewhere m (session_at p m))
  ]

  unless_used_elsewhere :
      (s : ℕ) (m : Manager) → at q (schedule_unless_used is_opened s p m).sessions ≡ at q m.sessions
  unless_used_elsewhere s m = elim (Bool-cases (is_session_in_use s m)) [
    | inl e ↦ rw e refl
    | inr e ↦ rw e (schedule_elsewhere m)
  ]

module _ (is_opened : ℕ → Bool) (from to : Text) (s : ℕ) (m : Manager) where
  rekeyed_elsewhere :
      (q : Text) → q ≢ from → q ≢ to → at q (rekeyed from to s m).sessions ≡ at q m.sessions
  rekeyed_elsewhere q f t =
      at-set q to s (delete_entry text_eq from m.sessions)
      ∙ (let b = differs to q (λ e. t (sym e)) in rw b refl)
      ∙ at-delete q from m.sessions
      ∙ (let b = differs from q (λ e. f (sym e)) in rw b refl)

  rekeyed_there : at to (rekeyed from to s m).sessions ≡ some s
  rekeyed_there = at-set to to s (delete_entry text_eq from m.sessions) ∙ rw (text_eq_self to) refl

  in_use_again : is_session_in_use s m ≡ true → is_session_in_use s (rekeyed from to s m) ≡ true
  unfolding is_session_in_use
  in_use_again e = e

  abbrev Moved : Manager → Type 0
  Moved n =
      ((q : Text) → q ≢ from → q ≢ to → at q n.sessions ≡ at q m.sessions)
      × (is_session_in_use s m ≡ true → at to n.sessions ≡ some s)

  rekey_session-Moved : Moved (rekey_session is_opened from to s m)
  unfolding rekey_session
  rekey_session-Moved = (
    λ q f t.
        unless_used_elsewhere is_opened q to (λ e. t (sym e)) s (rekeyed from to s m)
        ∙ rekeyed_elsewhere q f t,
    λ u. (let b = in_use_again u in rw b rekeyed_there),
  )

  moved_phase :
      (f : Phase)
      → f ≡ session_moves from to s
      → after_move is_opened true m f ≡ end_mutation (rekey_session is_opened from to s m)
  moved_phase f e = rw e refl

  -- After any steps, when a session has moved: no other session stood for the path that it moves to, the paths but
  -- these two have the sessions that they had, and a session that is used stands for the new path.
  pub session_moved_lem :
      Reachable m
      → m.phase ≡ session_moves from to s
      → ((d : ℕ) → at to m.sessions ≡ some d → d ≡ s)
        × ((q : Text)
            → q ≢ from
            → q ≢ to
            → at q (session_moved is_opened true m).sessions ≡ at q m.sessions)
        × (is_session_in_use s m ≡ true → at to (session_moved is_opened true m).sessions ≡ some s)
  unfolding session_moved
  session_moved_lem r e =
      let (kept, only, there) =
        at_phase m.phase (session_moves from to s) e m (reached-IsManager m r).running in
      let (elsewhere, used) = rekey_session-Moved in
      (
        λ d f. elim there.holds [
          | inl g ↦ let same : some d ≡ some s = sym f ∙ g in cc
          | inr g ↦ absurd (let no : none ≡ some d = sym g ∙ f in cc)
        ],
        λ q f t. ap (λ (n : Manager). at q n.sessions) (moved_phase m.phase e) ∙ elsewhere q f t,
        λ u. ap (λ (n : Manager). at to n.sessions) (moved_phase m.phase e) ∙ used u,
      )
