-- ===== src/DocSession/Manager/Steps.antt =====
-- What holds of a manager after any steps.
use kb_1_daemon.Prelude.{
  ℕ, ◌≡◌, ◌≢◌, refl, ap, ◌∙◌, inl, inr, true, Bool-cases, none, some, Text, get_entry,
}
use kb_1_daemon.DocSession.Manager.{
  Manager, session_closes, new_manager, is_inactive, has_path_reservation, get_session,
}
use kb_1_daemon.DocSession.Manager.Runs.{
  Step, gets, attaches, releases, operation_begins, operation_ends, requests, fires, is_deleted,
  closes, begins, stat_is_read, disk_ends, session_has_moved, session_is_deleted, session_is_closed,
  subtree_session_is_deleted, all_have_closed, subtree_stat_is_read, subtree_session_has_moved,
  subtree_fails, stat_is_rejected, Reachable, starts, steps,
}
use kb_1_daemon.DocSession.Manager.Lookups.{IsUnused}
use kb_1_daemon.DocSession.Manager.Invariant.{IsManager, at_phase}
use kb_1_daemon.DocSession.Manager.Reservations.{IsReserving, manager-IsReserving}
use kb_1_daemon.DocSession.Manager.Handlers.{release-IsManager, end_operation-IsManager}
use kb_1_daemon.DocSession.Manager.Requests.{
  get_session-Gives, attach-IsManager, begin_operation-IsManager, request_mutation-IsManager,
  timer_fires-IsManager, doc_deleted-IsManager, request_close-IsManager,
}
use kb_1_daemon.DocSession.Manager.Changes.{begin_mutation-IsManager, session_closed-IsManager}
use kb_1_daemon.DocSession.Manager.Subtrees.{
  subtree_stat_read-IsManager, subtree_session_moved-IsManager, subtree_move_fails-IsManager,
}
use kb_1_daemon.DocSession.Manager.Moves.{
  source_stat_read-IsManager, stat_fails-IsManager, disk_operation_ends-IsManager,
  session_deleted-IsManager, subtree_session_deleted-IsManager, session_moved-IsManager,
  all_closed-IsManager,
}

step-IsManager : (m n : Manager) → Step m n → IsManager m → IsManager n
step-IsManager m n (gets path _ _ s e) i = (get_session-Gives path m (n, s) e).0 i
step-IsManager m n (attaches path _ _ s e) i = attach-IsManager path m n s e i
step-IsManager m _ (releases is_opened s path released _) i =
    release-IsManager is_opened s path released m i
step-IsManager m _ (operation_begins path _) i = begin_operation-IsManager path m i
step-IsManager m _ (operation_ends is_opened s path _) i =
    end_operation-IsManager is_opened s path m i
step-IsManager m n (requests t _ _ e) i = request_mutation-IsManager t m n e i
step-IsManager m _ (fires path _ e) i = timer_fires-IsManager path m i
step-IsManager m _ (is_deleted s _) i = doc_deleted-IsManager s m i
step-IsManager m _ (closes _) i = request_close-IsManager m i
step-IsManager m _ (begins sort has_failure t rest _ e f) i =
    begin_mutation-IsManager sort has_failure t rest m f i
step-IsManager m _ (stat_is_read b _) i = source_stat_read-IsManager b m i
step-IsManager m _ (disk_ends _) i = disk_operation_ends-IsManager m i
step-IsManager m _ (session_has_moved is_opened b _) i = session_moved-IsManager is_opened b m i
step-IsManager m _ (session_is_deleted b _) i = session_deleted-IsManager b m i
step-IsManager m _ (session_is_closed sort has_failure b _) i =
    session_closed-IsManager sort has_failure b m i
step-IsManager m _ (subtree_session_is_deleted b _) i = subtree_session_deleted-IsManager b m i
step-IsManager m _ (subtree_stat_is_read sort b _) i = subtree_stat_read-IsManager sort b m i
step-IsManager m _ (subtree_session_has_moved is_opened p _) i =
    subtree_session_moved-IsManager is_opened p m i
step-IsManager m _ (stat_is_rejected _) i = stat_fails-IsManager m i
step-IsManager m _ (subtree_fails _) i = subtree_move_fails-IsManager m i
step-IsManager m _ (all_have_closed is_opened b _) i = all_closed-IsManager is_opened b m i

new-IsManager : IsManager new_manager
unfolding get_entry
new-IsManager = record {
  sound = record { numbered = λ p s e. absurd cc; one_path = λ p q s d e. absurd cc };
  belongs = tt;
  running = tt;
}

pub reached-IsManager : (m : Manager) → Reachable m → IsManager m
reached-IsManager _ starts = new-IsManager
reached-IsManager _ (steps m n r s) = step-IsManager m n s (reached-IsManager m r)

-- After any steps of a manager: each session is numbered below the next number and stands for one path. What
-- is waited for belongs to the first change of the queue. The paths of every change of the queue are
-- reserved: the notes that it names, and the folders that it names with all that lies in them. While one
-- session moves, is deleted or closes, no other session stands for its path or the path it moves to. A
-- session that moves, alone or with its folder, or is deleted alone stands for no other path, and one that
-- closes stands for none and is not used.
pub Reachable-IsManager : (m : Manager) → Reachable m → IsManager m × IsReserving m
Reachable-IsManager m r = (reached-IsManager m r, manager-IsReserving m)

reserved_refuses :
    (p : Text) (m : Manager) → has_path_reservation p m ≡ true → get_session p m ≡ none
unfolding get_session
reserved_refuses p m r = elim (Bool-cases (is_inactive m)) [
  | inl e ↦ rw e refl
  | inr e ↦ rw (e, r) refl
]

-- While a session closes for being idle, after any steps before: no client and no operation uses it, its path
-- is not handed out, and what is handed out for another path is another session.
pub closing-IsUnused :
    (m : Manager) (p : Text) (s : ℕ)
    → Reachable m
    → m.phase ≡ session_closes p s
    → IsUnused s m
      × (get_session p m ≡ none)
      × ((q : Text) (n : Manager) (t : ℕ) → get_session q m ≡ some (n, t) → t ≢ s)
closing-IsUnused m p s r e =
    let i = reached-IsManager m r in
    let a = at_phase m.phase (session_closes p s) e m i.running in
    (
      a.unused,
      reserved_refuses p m a.kept.reserved,
      λ q n t f.
          let (keeps, found, same) = get_session-Gives q m (n, t) f in
          let still = at_phase n.phase (session_closes p s) (same ∙ e) n (keeps i).running in
          λ d. still.nowhere q (found ∙ ap some d),
    )
