-- ===== src/DocSession/Manager/Mutations.antt =====
-- The changes of the structure, from await to await: `moveSession`, `deleteSession`, `withStablePath`, the
-- idle close of a session and `closeUnlocked`. What is awaited is an argument: whether it succeeds.
use kb_1_daemon.Prelude.{
  ℕ, Bool, true, false, not, List, [], ◌∷◌, Option, none, some, Text, text_eq, ◌==◌, if◌then◌else◌,
  set_entry, delete_entry,
}
use kb_1_daemon.DocSession.Manager.{
  Mutation, stable_path, delete_session, delete_subtree, move_subtree, is_below, subtree_deletes,
  subtree_stat, idle_close, move_session, close_all, Phase, its_turn, operation_on_disk, all_closes,
  source_stat, session_moves, session_deletes, session_closes, Manager, session_at,
  is_session_in_use, cancel_idle_close, schedule_idle_close,
}

abbrev pub rest_of : List Mutation → List Mutation
rest_of [] = []
rest_of (t ∷ rest) = rest

-- A change ends: its reservation is released, and the next one has its turn.
abbrev pub end_mutation : Manager → Manager
end_mutation m = record m { mutations = rest_of m.mutations; phase = its_turn }

abbrev pub awaits : Phase → Manager → Manager
awaits phase m = record m { phase = phase }

abbrev pub delete_or_disk : Text → Manager → Option ℕ → Manager
delete_or_disk path m none = awaits operation_on_disk m
delete_or_disk path m (some s) = awaits (session_deletes path s) m

abbrev pub delete_path : Text → Manager → Manager
delete_path path m = record m { sessions = delete_entry text_eq path m.sessions }

-- The next path of a folder that is deleted.
abbrev pub delete_next : List Text → Manager → Manager
delete_next [] m = end_mutation m
delete_next (path ∷ later) m = awaits (subtree_deletes path (session_at path m) later) m

abbrev pub begin_subtree : Manager → List Text → Manager
begin_subtree m [] = awaits operation_on_disk m
begin_subtree m (path ∷ later) = delete_next (path ∷ later) m

abbrev pub paths_below : Text → List (Text × ℕ) → List Text
paths_below folder [] = []
paths_below folder ((path, s) ∷ sessions) =
    let later = paths_below folder sessions in if is_below folder path then path ∷ later else later

-- `sort`, `hasActivePersistFailure` of each session and `isOpened` are arguments.
module _ (sort : List Text → List Text) (has_failure : ℕ → Bool) where
  abbrev pub close_unless : Text → Manager → Option ℕ → Manager
  close_unless path m none = end_mutation m
  close_unless path m (some s) =
      if is_session_in_use s m
      then end_mutation m
      else if has_failure s
      then end_mutation m
      else awaits (session_closes path s) (delete_path path m)

  -- What a change does when it has its turn.
  unfoldable pub begin_mutation : Mutation → Manager → Manager
  unfolding is_session_in_use
  begin_mutation (stable_path path) m = awaits operation_on_disk m
  begin_mutation (move_session from to) m = awaits (source_stat from to (session_at from m)) m
  begin_mutation (delete_session path) m = delete_or_disk path m (session_at path m)
  begin_mutation (idle_close path) m =
      close_unless path (cancel_idle_close path m) (session_at path m)
  begin_mutation (delete_subtree folder) m = begin_subtree m (sort (paths_below folder m.sessions))
  begin_mutation (move_subtree from to) m = awaits (subtree_stat from to) m
  begin_mutation close_all m = awaits all_closes (record m { idle_close_timers = [] })

  -- `session.close()` of the idle session has succeeded or not.
  abbrev pub close_ends : Bool → Text → ℕ → Manager → Manager
  close_ends true path s m = m
  close_ends false path s m =
      if has_failure s then record m { sessions = set_entry text_eq path s m.sessions } else m

  abbrev pub after_session_close : Bool → Manager → Phase → Manager
  after_session_close succeeded m (session_closes path s) =
      end_mutation (close_ends succeeded path s m)
  after_session_close succeeded m _ = m

  unfoldable pub session_closed : Bool → Manager → Manager
  session_closed succeeded m = after_session_close succeeded m m.phase

-- `destination && destination !== session`
abbrev pub is_conflict : Option ℕ → Option ℕ → Bool
is_conflict none session = false
is_conflict (some d) none = true
is_conflict (some d) (some s) = not (d == s)

abbrev pub move_or_disk : Text → Text → Manager → Option ℕ → Manager
move_or_disk from to m none = awaits operation_on_disk m
move_or_disk from to m (some s) = awaits (session_moves from to s) m

abbrev pub move_if_file : Bool → Text → Text → Option ℕ → Manager → Manager
move_if_file false from to session m = awaits operation_on_disk m
move_if_file true from to session m =
    if is_conflict (session_at to m) session then end_mutation m else move_or_disk from to m session

abbrev pub after_source_stat : Bool → Manager → Phase → Manager
after_source_stat is_file m (source_stat from to session) = move_if_file is_file from to session m
after_source_stat is_file m _ = m

-- `statOrNull` has said whether the source is a file.
unfoldable pub source_stat_read : Bool → Manager → Manager
source_stat_read is_file m = after_source_stat is_file m m.phase

abbrev pub after_disk : Manager → Phase → Manager
after_disk m operation_on_disk = end_mutation m
after_disk m _ = m

unfoldable pub disk_operation_ends : Manager → Manager
disk_operation_ends m = after_disk m m.phase

abbrev pub rekeyed : Text → Text → ℕ → Manager → Manager
rekeyed from to s m = record m {
  sessions = set_entry text_eq to s (delete_entry text_eq from m.sessions);
  idle_close_timers = delete_entry text_eq to (delete_entry text_eq from m.idle_close_timers);
}

module _ (is_opened : ℕ → Bool) where
  abbrev pub schedule_unless_used : ℕ → Text → Manager → Manager
  schedule_unless_used s path m =
      if is_session_in_use s m then m else schedule_idle_close is_opened path m

  unfoldable pub rekey_session : Text → Text → ℕ → Manager → Manager
  unfolding is_session_in_use schedule_idle_close
  rekey_session from to s m = schedule_unless_used s to (rekeyed from to s m)

  abbrev pub move_ends : Bool → Text → Text → ℕ → Manager → Manager
  move_ends true from to s m = rekey_session from to s m
  move_ends false from to s m = m

  abbrev pub after_move : Bool → Manager → Phase → Manager
  after_move succeeded m (session_moves from to s) = end_mutation (move_ends succeeded from to s m)
  after_move succeeded m _ = m

  -- `session.moveTo` has succeeded or not.
  unfoldable pub session_moved : Bool → Manager → Manager
  unfolding rekey_session
  session_moved succeeded m = after_move succeeded m m.phase

  abbrev pub schedule_all : List (Text × ℕ) → Manager → Manager
  schedule_all [] m = m
  schedule_all ((path, s) ∷ sessions) m = schedule_all sessions (schedule_unless_used s path m)

  abbrev pub all_settled : Bool → Manager → Manager
  all_settled true m = record m {
    sessions = [];
    client_counts = [];
    operation_counts = [];
    closed = true;
  }
  all_settled false m = schedule_all m.sessions (record m { closing = false })

  abbrev pub after_all_close : Bool → Manager → Phase → Manager
  after_all_close succeeded m all_closes = end_mutation (all_settled succeeded m)
  after_all_close succeeded m _ = m

  -- All sessions have closed, or one has not.
  unfoldable pub all_closed : Bool → Manager → Manager
  unfolding is_session_in_use schedule_idle_close
  all_closed succeeded m = after_all_close succeeded m m.phase

abbrev pub delete_ends : Bool → Text → Manager → Manager
delete_ends true path m = delete_path path m
delete_ends false path m = m

abbrev pub after_delete : Bool → Manager → Phase → Manager
after_delete succeeded m (session_deletes path s) = end_mutation (delete_ends succeeded path m)
after_delete succeeded m _ = m

-- `session.deleteWith` has succeeded or not.
unfoldable pub session_deleted : Bool → Manager → Manager
session_deleted succeeded m = after_delete succeeded m m.phase
