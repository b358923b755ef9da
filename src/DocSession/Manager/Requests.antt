-- ===== src/DocSession/Manager/Requests.antt =====
-- A session that is handed out, and a change of the structure that is asked for, keep the invariant.
use kb_1_daemon.Prelude.{
  ℕ, ◌≡◌, refl, sym, ap, ◌∙◌, inl, inr, Bool, true, false, Bool-cases, List, [], ◌∷◌, ◌++◌,
  append-nil, Option, none, some, Text, text_eq, text_eq_self, any, if◌then◌else◌, arith, set_entry,
}
use kb_1_daemon.DocSession.Manager.{
  Manager, Mutation, idle_close, close_all, session_at, is_reserved_by, has_path_reservation,
  is_inactive, cancel_idle_close, existing_or_new, get_active, get_session, count_client,
  attach_client_session, count_operation, begin_operation, request_mutation, or_unchanged,
  timer_fires, doc_deleted, request_close,
}
use kb_1_daemon.DocSession.Manager.Lookups.{at, at-set, Fewer-self, delete_paths_of-Fewer}
use kb_1_daemon.DocSession.Manager.Invariant.{IsManager, calm-IsManager}
use kb_1_daemon.DocSession.Manager.Handlers.{
  quiet-IsManager, timed-IsQuiet, fewer-IsQuiet, reservation_of, added_client-IsManager,
  added_operation-IsManager,
}

-- What `get_session` gives.
abbrev pub Gives : Text → Manager → Manager × ℕ → Type 0
Gives path m (n, s) =
    (IsManager m → IsManager n) × (at path n.sessions ≡ some s) × (n.phase ≡ m.phase)

new_session-IsManager :
    (path : Text) (m : Manager)
    → has_path_reservation path m ≡ false
    → session_at path m ≡ none
    → IsManager m
    → IsManager (existing_or_new path (cancel_idle_close path m) none).0
new_session-IsManager path m r e = calm-IsManager m _ (record {
  same_phase = refl;
  queued = ([], sym (append-nil m.mutations));
  reserved = reservation_of m _ refl;
  change = inr (
    path,
    record {
      free = r;
      absent = e;
      added = λ q. at-set q path m.next_session m.sessions;
      next = refl;
    },
  );
  grows = omega arith;
  unused = λ s away old u. u;
})

existing_or_new-Gives :
    (path : Text) (m : Manager) (o : Option ℕ)
    → has_path_reservation path m ≡ false
    → session_at path m ≡ o
    → Gives path m (existing_or_new path (cancel_idle_close path m) o)
existing_or_new-Gives path m none r e = (
  new_session-IsManager path m r e,
  at-set path path m.next_session m.sessions ∙ rw (text_eq_self path) refl,
  refl,
)
existing_or_new-Gives path m (some s) r e = (quiet-IsManager m _ (timed-IsQuiet m _), e, refl)

found_pair : (p q : Manager × ℕ) → some p ≡ some q → p ≡ q
found_pair p q e = cc

pub get_session-Gives :
    (path : Text) (m : Manager) (r : Manager × ℕ) → get_session path m ≡ some r → Gives path m r
unfolding get_session
get_session-Gives path m r e = elim (Bool-cases (is_inactive m)) [
  | inl a ↦
      absurd (
        let no : none ≡ some r = sym (let x : get_session path m ≡ none = rw a refl in x) ∙ e in cc)
  | inr a ↦ elim (Bool-cases (has_path_reservation path m)) [
    | inl b ↦ absurd (
        let no : none ≡ some r =
          sym (let x : get_session path m ≡ none = rw (a, b) refl in x) ∙ e in
        cc)
    | inr b ↦
        let found : get_session path m ≡ some (get_active path m) = rw (a, b) refl in
        let same = found_pair (get_active path m) r (sym found ∙ e) in
        rw (sym same) (existing_or_new-Gives path m (session_at path m) b refl)
  ]
]

attached :
    (path : Text) (m n : Manager) (s : ℕ) (o : Option (Manager × ℕ))
    → get_session path m ≡ o
    → count_client o ≡ some (n, s)
    → IsManager m
    → IsManager n
attached path m n s none e f i = absurd (cc)
attached path m n s (some (k, t)) e f i =
    let (keeps, found, same_phase) = get_session-Gives path m (k, t) e in
    let j = added_client-IsManager k path t found (keeps i) in
    let same = ap (λ (r : Manager × ℕ). r.0) (found_pair _ (n, s) f) in rw (sym same) j

pub attach-IsManager :
    (path : Text) (m n : Manager) (s : ℕ)
    → attach_client_session path m ≡ some (n, s)
    → IsManager m
    → IsManager n
unfolding attach_client_session
attach-IsManager path m n s e = attached path m n s (get_session path m) refl e

counted_operation :
    (path : Text) (m : Manager) (o : Option (Manager × ℕ))
    → get_session path m ≡ o
    → IsManager m
    → IsManager (count_operation m o).0
counted_operation path m none e i = i
counted_operation path m (some (k, t)) e i =
    let (keeps, found, same_phase) = get_session-Gives path m (k, t) e in
    added_operation-IsManager k path t found (keeps i)

pub begin_operation-IsManager :
    (path : Text) (m : Manager) → IsManager m → IsManager (begin_operation path m).0
unfolding begin_operation
begin_operation-IsManager path m i =
    let n = cancel_idle_close path m in
    counted_operation path n (get_session path n) refl (quiet-IsManager m n (timed-IsQuiet m _) i)

any-append :
    (f : Mutation → Bool) (ts us : List Mutation) → any f ts ≡ true → any f (ts ++ us) ≡ true
any-append f [] us e = absurd cc
any-append f (t ∷ ts) us e = elim (Bool-cases (f t)) [
  | inl b ↦ rw b refl
  | inr b ↦
      let rest : any f ts ≡ true = (let x : any f (t ∷ ts) ≡ any f ts = rw b refl in sym x ∙ e) in
      rw b (any-append f ts us rest)
]

reserved_too :
    (t : Mutation) (closing : Bool) (m : Manager) (p : Text)
    → has_path_reservation p m ≡ true
    → has_path_reservation p (record m { mutations = m.mutations ++ t ∷ []; closing = closing })
      ≡ true
unfolding has_path_reservation
reserved_too t closing m p r = any-append (is_reserved_by p) m.mutations (t ∷ []) r

-- One more change waits for its turn.
queued-IsManager :
    (t : Mutation) (closing : Bool) (m : Manager)
    → IsManager m
    → IsManager (record m { mutations = m.mutations ++ t ∷ []; closing = closing })
queued-IsManager t closing m = calm-IsManager m _ (record {
  same_phase = refl;
  queued = (t ∷ [], refl);
  reserved = λ p r. reserved_too t closing m p r;
  change = inl (Fewer-self m.sessions);
  grows = omega arith;
  unused = λ s away old u. u;
})

pub request_mutation-IsManager :
    (t : Mutation) (m n : Manager) → request_mutation t m ≡ some n → IsManager m → IsManager n
unfolding request_mutation
request_mutation-IsManager t m n e i = elim (Bool-cases (is_inactive m)) [
  | inl a ↦ absurd (
      let no : none ≡ some n = sym (let x : request_mutation t m ≡ none = rw a refl in x) ∙ e in cc)
  | inr a ↦
      let found : request_mutation t m ≡ some (record m { mutations = m.mutations ++ t ∷ [] }) =
        rw a refl in
      let same : record m { mutations = m.mutations ++ t ∷ [] } ≡ n =
        (let two = sym found ∙ e in cc) in
      rw (sym same) (queued-IsManager t m.closing m i)
]

or_unchanged-IsManager :
    (t : Mutation) (m : Manager) (o : Option Manager)
    → request_mutation t m ≡ o
    → IsManager m
    → IsManager (or_unchanged m o)
or_unchanged-IsManager t m none e i = i
or_unchanged-IsManager t m (some n) e i = request_mutation-IsManager t m n e i

pub timer_fires-IsManager :
    (path : Text) (m : Manager) → IsManager m → IsManager (timer_fires path m)
unfolding timer_fires
timer_fires-IsManager path m i =
    let n = record m { idle_close_timers = set_entry text_eq path false m.idle_close_timers } in
    or_unchanged-IsManager (idle_close path) n (request_mutation (idle_close path) n) refl
      (quiet-IsManager m n (timed-IsQuiet m _) i)

pub doc_deleted-IsManager : (s : ℕ) (m : Manager) → IsManager m → IsManager (doc_deleted s m)
unfolding doc_deleted
doc_deleted-IsManager s m =
    quiet-IsManager m _ (fewer-IsQuiet m _ (delete_paths_of-Fewer s m.sessions m.sessions))

closed_unless :
    (b : Bool) (m n : Manager) → IsManager m → IsManager n → IsManager (if b then m else n)
closed_unless true m n i j = i
closed_unless false m n i j = j

pub request_close-IsManager : (m : Manager) → IsManager m → IsManager (request_close m)
unfolding request_close
request_close-IsManager m i = closed_unless m.closing m _ i (queued-IsManager close_all true m i)
