-- ===== src/DocSession/Manager/Handlers.antt =====
-- The calls and events outside the running change keep the invariant.
use kb_1_daemon.Prelude.{
  ℕ, ◌≡◌, ◌≢◌, refl, sym, ap, ◌∙◌, inl, inr, Bool, true, false, ◌||◌, Bool-cases, List, [], ◌∷◌,
  append-nil, Option, none, some, Text, any, ltb, arith,
}
use kb_1_daemon.DocSession.Manager.{
  Manager, session_at, count_of, is_session_in_use, has_active_operations, is_reserved_by,
  has_path_reservation, is_inactive, cancel_idle_close, add_one, take_one, current_path,
  schedule_idle, schedule_for, schedule_idle_close, release, end_operation,
}
use kb_1_daemon.DocSession.Manager.Mutations.{schedule_unless_used, schedule_all}
use kb_1_daemon.DocSession.Manager.Lookups.{
  Sessions, at, Fewer, Fewer-self, Fewer-trans, delete-Fewer, count-set, count-take_one, IsUnused,
}
use kb_1_daemon.DocSession.Manager.Invariant.{IsManager, calm-IsManager}

-- Only the timers and the sessions change, and no path stands for another session.
pub record IsQuiet (m n : Manager) : Type 0 where
  pub phase : n.phase ≡ m.phase
  pub mutations : n.mutations ≡ m.mutations
  pub next : n.next_session ≡ m.next_session
  pub clients : n.client_counts ≡ m.client_counts
  pub operations : n.operation_counts ≡ m.operation_counts
  pub fewer : Fewer m.sessions n.sessions

pub reservation_of :
    (m n : Manager)
    → n.mutations ≡ m.mutations
    → (p : Text) → has_path_reservation p m ≡ true
    → has_path_reservation p n ≡ true
unfolding has_path_reservation
reservation_of m n e p r = ap (λ ts. any (is_reserved_by p) ts) e ∙ r

pub quiet-IsManager : (m n : Manager) → IsQuiet m n → IsManager m → IsManager n
quiet-IsManager m n q = calm-IsManager m n (record {
  same_phase = q.phase;
  queued = ([], q.mutations ∙ sym (append-nil m.mutations));
  reserved = reservation_of m n q.mutations;
  change = inl q.fewer;
  grows = let e = q.next in omega arith;
  unused = λ s away old (a, b). (ap (count_of s) q.clients ∙ a, ap (count_of s) q.operations ∙ b);
})

-- Only the timers change.
abbrev pub timed : Manager → List (Text × Bool) → Manager
timed m timers = record m { idle_close_timers = timers }

pub timed-IsQuiet : (m : Manager) (timers : List (Text × Bool)) → IsQuiet m (timed m timers)
timed-IsQuiet m timers = record {
  phase = refl;
  mutations = refl;
  next = refl;
  clients = refl;
  operations = refl;
  fewer = Fewer-self m.sessions;
}

abbrev pub with_sessions : Manager → Sessions → Manager
with_sessions m sessions = record m { sessions = sessions }

pub fewer-IsQuiet :
    (m : Manager) (sessions : Sessions)
    → Fewer m.sessions sessions
    → IsQuiet m (with_sessions m sessions)
fewer-IsQuiet m sessions f = record {
  phase = refl;
  mutations = refl;
  next = refl;
  clients = refl;
  operations = refl;
  fewer = f;
}

IsQuiet-trans : (m n k : Manager) → IsQuiet m n → IsQuiet n k → IsQuiet m k
IsQuiet-trans m n k p q = record {
  phase = q.phase ∙ p.phase;
  mutations = q.mutations ∙ p.mutations;
  next = q.next ∙ p.next;
  clients = q.clients ∙ p.clients;
  operations = q.operations ∙ p.operations;
  fewer = Fewer-trans m.sessions n.sessions k.sessions p.fewer q.fewer;
}

module _ (is_opened : ℕ → Bool) where
  scheduled-IsQuiet :
      (p : Text) (m : Manager) (b : Bool) → IsQuiet m (schedule_idle is_opened p m b)
  scheduled-IsQuiet p m true = timed-IsQuiet m _
  scheduled-IsQuiet p m false = fewer-IsQuiet m _ (delete-Fewer p m.sessions)

  schedule_for-IsQuiet :
      (p : Text) (m : Manager) (o : Option ℕ) → IsQuiet m (schedule_for is_opened p m o)
  schedule_for-IsQuiet p m none = timed-IsQuiet m _
  schedule_for-IsQuiet p m (some s) = elim (Bool-cases (is_session_in_use s m)) [
    | inl e ↦ rw e (timed-IsQuiet m _)
    | inr e ↦ rw e (
        IsQuiet-trans m (cancel_idle_close p m) _ (timed-IsQuiet m _)
          (scheduled-IsQuiet p (cancel_idle_close p m) (is_opened s)))
  ]

  pub schedule_idle_close-IsQuiet :
      (p : Text) (m : Manager) → IsQuiet m (schedule_idle_close is_opened p m)
  unfolding schedule_idle_close
  schedule_idle_close-IsQuiet p m = elim (Bool-cases (is_inactive m)) [
    | inl e ↦ rw e (timed-IsQuiet m _)
    | inr e ↦ rw e (schedule_for-IsQuiet p m (session_at p m))
  ]

  pub schedule_unless_used-IsQuiet :
      (s : ℕ) (p : Text) (m : Manager) → IsQuiet m (schedule_unless_used is_opened s p m)
  schedule_unless_used-IsQuiet s p m = elim (Bool-cases (is_session_in_use s m)) [
    | inl e ↦ rw e (timed-IsQuiet m _)
    | inr e ↦ rw e (schedule_idle_close-IsQuiet p m)
  ]

  pub schedule_all-IsQuiet : (l : Sessions) (m : Manager) → IsQuiet m (schedule_all is_opened l m)
  schedule_all-IsQuiet [] m = timed-IsQuiet m _
  schedule_all-IsQuiet ((p, s) ∷ l) m =
      IsQuiet-trans m _ _ (schedule_unless_used-IsQuiet s p m)
        (schedule_all-IsQuiet l (schedule_unless_used is_opened s p m))

  schedule_idle_close-IsManager :
      (p : Text) (m : Manager) → IsManager m → IsManager (schedule_idle_close is_opened p m)
  schedule_idle_close-IsManager p m = quiet-IsManager m _ (schedule_idle_close-IsQuiet p m)

-- Other counts.
abbrev counted : Manager → List (ℕ × ℕ) → List (ℕ × ℕ) → Manager
counted m clients operations = record m { client_counts = clients; operation_counts = operations }

counted-IsManager :
    (m : Manager) (clients operations : List (ℕ × ℕ))
    → ((s : ℕ)
        → ((q : Text) → at q m.sessions ≢ some s)
        → IsUnused s m
        → IsUnused s (counted m clients operations))
    → IsManager m
    → IsManager (counted m clients operations)
counted-IsManager m clients operations f = calm-IsManager m (counted m clients operations) (record {
  same_phase = refl;
  queued = ([], sym (append-nil m.mutations));
  reserved = reservation_of m _ refl;
  change = inl (Fewer-self m.sessions);
  grows = omega arith;
  unused = λ s away old u. f s away u;
})

-- A session that stands for a path is not one that stands for none.
apart :
    (m : Manager) (p : Text) (t s : ℕ)
    → at p m.sessions ≡ some t
    → ((q : Text) → at q m.sessions ≢ some s)
    → s ≢ t
apart m p t s e away d = away p (e ∙ ap some (sym d))

pub added_client-IsManager :
    (m : Manager) (p : Text) (t : ℕ)
    → at p m.sessions ≡ some t
    → IsManager m
    → IsManager (record m { client_counts = add_one t m.client_counts })
added_client-IsManager m p t e =
    counted-IsManager m (add_one t m.client_counts) m.operation_counts
      (λ s away (a, b). (count-set s t _ m.client_counts (apart m p t s e away) ∙ a, b))

pub added_operation-IsManager :
    (m : Manager) (p : Text) (t : ℕ)
    → at p m.sessions ≡ some t
    → IsManager m
    → IsManager (record m { operation_counts = add_one t m.operation_counts })
added_operation-IsManager m p t e =
    counted-IsManager m m.client_counts (add_one t m.operation_counts)
      (λ s away (a, b). (a, count-set s t _ m.operation_counts (apart m p t s e away) ∙ b))

module _ (is_opened : ℕ → Bool) where
  pub release-IsManager :
      (s : ℕ) (path : Text) (released : Bool) (m : Manager)
      → IsManager m
      → IsManager (release is_opened s path released m)
  unfolding release
  release-IsManager s path true m i = i
  release-IsManager s path false m i =
      let n = record m { client_counts = take_one s m.client_counts } in
      let j : IsManager n =
        counted-IsManager m (take_one s m.client_counts) m.operation_counts
          (λ t away (a, b). (count-take_one t s m.client_counts a, b)) i in
      elim (Bool-cases (ltb 0 (count_of s n.client_counts) || has_active_operations s n)) [
        | inl e ↦ rw e j
        | inr e ↦ rw e (schedule_idle_close-IsManager is_opened (current_path s path n) n j)
      ]

  pub end_operation-IsManager :
      (s : ℕ) (path : Text) (m : Manager)
      → IsManager m
      → IsManager (end_operation is_opened s path m)
  unfolding end_operation
  end_operation-IsManager s path m i =
      let n = record m { operation_counts = take_one s m.operation_counts } in
      let j : IsManager n =
        counted-IsManager m m.client_counts (take_one s m.operation_counts)
          (λ t away (a, b). (a, count-take_one t s m.operation_counts b)) i in
      elim (Bool-cases (is_session_in_use s n)) [
        | inl e ↦ rw e j
        | inr e ↦ rw e (schedule_idle_close-IsManager is_opened (current_path s path n) n j)
      ]
