-- ===== src/DocSession/Manager/Runs.antt =====
-- The steps of a manager, and the managers that they lead to.
use kb_1_daemon.Prelude.{ℕ, ◌≡◌, Bool, true, List, ◌∷◌, some, Text, text_eq, get_entry}
use kb_1_daemon.DocSession.Manager.{
  Mutation, its_turn, Manager, new_manager, attach_client_session, release, begin_operation,
  end_operation, get_session, request_mutation, timer_fires, doc_deleted, request_close,
}
use kb_1_daemon.DocSession.Manager.Mutations.{
  begin_mutation, session_closed, source_stat_read, disk_operation_ends, session_moved, all_closed,
  session_deleted,
}
use kb_1_daemon.DocSession.Manager.Folders.{
  subtree_stat_read, subtree_session_moved, subtree_move_fails, subtree_session_deleted, stat_fails,
}

-- All that happens to a manager, in any order.
pub data Step : Manager → Manager → Type 0 where
  gets : (path : Text) (m n : Manager) (s : ℕ) → get_session path m ≡ some (n, s) → Step m n
  attaches :
      (path : Text) (m n : Manager) (s : ℕ) → attach_client_session path m ≡ some (n, s) → Step m n
  releases :
      (is_opened : ℕ → Bool) (s : ℕ) (path : Text) (released : Bool) (m : Manager)
      → Step m (release is_opened s path released m)
  operation_begins : (path : Text) (m : Manager) → Step m (begin_operation path m).0
  operation_ends :
      (is_opened : ℕ → Bool) (s : ℕ) (path : Text) (m : Manager)
      → Step m (end_operation is_opened s path m)
  -- A change of each kind, also those that only a timer or `close` asks for.
  requests : (t : Mutation) (m n : Manager) → request_mutation t m ≡ some n → Step m n
  fires :
      (path : Text) (m : Manager)
      → get_entry text_eq path m.idle_close_timers ≡ some true
      → Step m (timer_fires path m)
  is_deleted : (s : ℕ) (m : Manager) → Step m (doc_deleted s m)
  closes : (m : Manager) → Step m (request_close m)
  begins :
      (sort : List Text → List Text) (has_failure : ℕ → Bool) (t : Mutation) (rest : List Mutation)
      (m : Manager)
      → m.phase ≡ its_turn
      → m.mutations ≡ t ∷ rest
      → Step m (begin_mutation sort has_failure t m)
  stat_is_read : (is_file : Bool) (m : Manager) → Step m (source_stat_read is_file m)
  disk_ends : (m : Manager) → Step m (disk_operation_ends m)
  session_has_moved :
      (is_opened : ℕ → Bool) (succeeded : Bool) (m : Manager)
      → Step m (session_moved is_opened succeeded m)
  session_is_deleted : (succeeded : Bool) (m : Manager) → Step m (session_deleted succeeded m)
  session_is_closed :
      (sort : List Text → List Text) (has_failure : ℕ → Bool) (succeeded : Bool) (m : Manager)
      → Step m (session_closed sort has_failure succeeded m)
  subtree_session_is_deleted :
      (succeeded : Bool) (m : Manager) → Step m (subtree_session_deleted succeeded m)
  subtree_stat_is_read :
      (sort : List Text → List Text) (is_directory : Bool) (m : Manager)
      → Step m (subtree_stat_read sort is_directory m)
  stat_is_rejected : (m : Manager) → Step m (stat_fails m)
  subtree_session_has_moved :
      (is_opened : ℕ → Bool) (path : Text) (m : Manager)
      → Step m (subtree_session_moved is_opened path m)
  subtree_fails : (m : Manager) → Step m (subtree_move_fails m)
  all_have_closed :
      (is_opened : ℕ → Bool) (succeeded : Bool) (m : Manager)
      → Step m (all_closed is_opened succeeded m)

pub data Reachable : Manager → Type 0 where
  starts : Reachable new_manager
  steps : (m n : Manager) → Reachable m → Step m n → Reachable n
