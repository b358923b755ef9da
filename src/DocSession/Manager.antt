-- ===== src/DocSession/Manager.antt =====
-- packages/doc-session/src/manager.ts: which session stands for which path, who uses it, and the changes of the
-- structure, which run one after the other. Each function is the code between two awaits. A session object
-- is a number; what its methods answer, and how what is awaited ends, are arguments.
pub mod Mutations
pub mod Folders
pub mod Runs
pub mod Lookups
pub mod Invariant
pub mod Handlers
pub mod Requests
pub mod Changes
pub mod Moves
pub mod Subtrees
pub mod Reservations
pub mod Steps
pub mod Moved
mod Tests
use kb_1_daemon.Prelude.{
  ℕ, zero, suc, ◌+◌, ◌-◌, ◌≡◌, Bool, true, false, not, ◌&&◌, ◌||◌, List, [], ◌∷◌, ◌++◌, Option,
  none, some, Text, text_eq, any, ltb, ◌==◌, starts_with, if◌then◌else◌, get_entry, set_entry,
  delete_entry,
}
use kb_1_daemon.VaultCore.Path.{slash}

-- What `structureMutationTail` runs. The reservation of a change is released when the change ends, so
-- those that are held are the ones of the changes that are not at their end.
pub data Mutation : Type 0 where
  stable_path delete_session idle_close : (path : Text) → Mutation
  delete_subtree : (folder : Text) → Mutation
  move_session move_subtree : (from to : Text) → Mutation
  close_all : Mutation

-- `reserveExactPaths`
abbrev pub reserved_paths : Mutation → List Text
reserved_paths (stable_path path) = path ∷ []
reserved_paths (delete_session path) = path ∷ []
reserved_paths (idle_close path) = path ∷ []
reserved_paths (move_session from to) = from ∷ to ∷ []
reserved_paths _ = []

-- `reserveSubtrees`
abbrev pub is_below : Text → Text → Bool
is_below folder path = starts_with (folder ++ slash ∷ []) path

abbrev pub is_at_or_below : Text → Text → Bool
is_at_or_below folder path = text_eq path folder || is_below folder path

abbrev pub is_reserved_by : Text → Mutation → Bool
is_reserved_by path (delete_subtree folder) = is_at_or_below folder path
is_reserved_by path (move_subtree from to) = is_at_or_below from path || is_at_or_below to path
is_reserved_by path t = any (text_eq path) (reserved_paths t)

-- What the first change waits for.
pub data Phase : Type 0 where
  its_turn operation_on_disk all_closes : Phase
  source_stat : (from to : Text) (session : Option ℕ) → Phase
  session_moves : (from to : Text) (session : ℕ) → Phase
  session_deletes session_closes : (path : Text) (session : ℕ) → Phase
  subtree_stat : (from to : Text) → Phase
  subtree_moves : (from to : Text) (waiting : List (Text × ℕ)) → Phase
  subtree_deletes : (path : Text) (session : Option ℕ) (later : List Text) → Phase

-- A timer is entered with `true` until it fires.
pub record Manager : Type 0 where
  pub sessions : List (Text × ℕ)
  pub client_counts : List (ℕ × ℕ)
  pub operation_counts : List (ℕ × ℕ)
  pub idle_close_timers : List (Text × Bool)
  pub mutations : List Mutation
  pub phase : Phase
  pub next_session : ℕ
  pub closing : Bool
  pub closed : Bool

abbrev pub new_manager : Manager
new_manager = record {
  sessions = [];
  client_counts = [];
  operation_counts = [];
  idle_close_timers = [];
  mutations = [];
  phase = its_turn;
  next_session = 0;
  closing = false;
  closed = false;
}

abbrev pub session_at : Text → Manager → Option ℕ
session_at path m = get_entry text_eq path m.sessions

-- `counts.get(session) ?? 0`
abbrev pub or_none : Option ℕ → ℕ
or_none none = 0
or_none (some n) = n

abbrev pub count_of : ℕ → List (ℕ × ℕ) → ℕ
count_of s counts = or_none (get_entry ◌==◌ s counts)

abbrev pub has_active_operations : ℕ → Manager → Bool
has_active_operations s m = ltb 0 (count_of s m.operation_counts)

unfoldable pub is_session_in_use : ℕ → Manager → Bool
is_session_in_use s m = ltb 0 (count_of s m.client_counts) || has_active_operations s m

unfoldable pub has_path_reservation : Text → Manager → Bool
has_path_reservation path m = any (is_reserved_by path) m.mutations

-- `assertActive` throws.
abbrev pub is_inactive : Manager → Bool
is_inactive m = m.closing || m.closed

abbrev pub cancel_idle_close : Text → Manager → Manager
cancel_idle_close path m = record m {
  idle_close_timers = delete_entry text_eq path m.idle_close_timers;
}

abbrev pub existing_or_new : Text → Manager → Option ℕ → Manager × ℕ
existing_or_new path m (some s) = (m, s)
existing_or_new path m none = (
  record m {
    sessions = set_entry text_eq path m.next_session m.sessions;
    next_session = m.next_session + 1;
  },
  m.next_session,
)

abbrev pub get_active : Text → Manager → Manager × ℕ
get_active path m = existing_or_new path (cancel_idle_close path m) (session_at path m)

-- `none` where it throws.
unfoldable pub get_session : Text → Manager → Option (Manager × ℕ)
unfolding has_path_reservation
get_session path m =
    if is_inactive m
    then none
    else if has_path_reservation path m
    then none
    else some (get_active path m)

abbrev pub add_one : ℕ → List (ℕ × ℕ) → List (ℕ × ℕ)
add_one s counts = set_entry ◌==◌ s (count_of s counts + 1) counts

-- `(counts.get(session) ?? 1) - 1`, which is at most 0 for a missing count.
abbrev pub store_count : ℕ → List (ℕ × ℕ) → ℕ → List (ℕ × ℕ)
store_count s counts zero = delete_entry ◌==◌ s counts
store_count s counts (suc n) = set_entry ◌==◌ s (suc n) counts

abbrev pub take_one : ℕ → List (ℕ × ℕ) → List (ℕ × ℕ)
take_one s counts = store_count s counts (count_of s counts - 1)

abbrev pub count_client : Option (Manager × ℕ) → Option (Manager × ℕ)
count_client none = none
count_client (some (m, s)) = some (record m { client_counts = add_one s m.client_counts }, s)

-- `attachClientSession`, when the path has become available; `none` where it waits again or throws.
unfoldable pub attach_client_session : Text → Manager → Option (Manager × ℕ)
unfolding get_session
attach_client_session path m = count_client (get_session path m)

unfoldable pub find_path : ℕ → List (Text × ℕ) → Option Text
find_path s [] = none
find_path s ((path, t) ∷ sessions) = if t == s then some path else find_path s sessions

abbrev pub or_path : Option Text → Text → Text
or_path none path = path
or_path (some current) path = current

abbrev pub current_path : ℕ → Text → Manager → Text
current_path s path m = or_path (find_path s m.sessions) path

-- `isOpened` of each session is an argument.
module _ (is_opened : ℕ → Bool) where
  abbrev pub schedule_idle : Text → Manager → Bool → Manager
  schedule_idle path m true = record m {
    idle_close_timers = set_entry text_eq path true m.idle_close_timers;
  }
  schedule_idle path m false = record m { sessions = delete_entry text_eq path m.sessions }

  abbrev pub schedule_for : Text → Manager → Option ℕ → Manager
  schedule_for path m none = m
  schedule_for path m (some s) =
      if is_session_in_use s m
      then m
      else schedule_idle path (cancel_idle_close path m) (is_opened s)

  unfoldable pub schedule_idle_close : Text → Manager → Manager
  unfolding is_session_in_use
  schedule_idle_close path m = if is_inactive m then m else schedule_for path m (session_at path m)

  abbrev pub after_release : ℕ → Text → Manager → Manager
  after_release s path m =
      if ltb 0 (count_of s m.client_counts) || has_active_operations s m
      then m
      else schedule_idle_close (current_path s path m) m

  -- The function `release` of a client, with what its variable `released` says.
  unfoldable pub release : ℕ → Text → Bool → Manager → Manager
  unfolding schedule_idle_close
  release s path true m = m
  release s path false m =
      after_release s path (record m { client_counts = take_one s m.client_counts })

  abbrev pub after_operation : ℕ → Text → Manager → Manager
  after_operation s path m =
      if is_session_in_use s m then m else schedule_idle_close (current_path s path m) m

  -- The end of an operation of `withSession`.
  unfoldable pub end_operation : ℕ → Text → Manager → Manager
  unfolding schedule_idle_close
  end_operation s path m =
      after_operation s path (record m { operation_counts = take_one s m.operation_counts })

abbrev pub count_operation : Manager → Option (Manager × ℕ) → Manager × Option ℕ
count_operation m none = (m, none)
count_operation m (some (n, s)) =
    (record n { operation_counts = add_one s n.operation_counts }, some s)

-- `withSession`, when the path has become available.
unfoldable pub begin_operation : Text → Manager → Manager × Option ℕ
unfolding get_session
begin_operation path m =
    count_operation (cancel_idle_close path m) (get_session path (cancel_idle_close path m))

-- A reservation and `runStructureMutation`; `none` where `assertActive` throws.
unfoldable pub request_mutation : Mutation → Manager → Option Manager
request_mutation t m =
    if is_inactive m then none else some (record m { mutations = m.mutations ++ t ∷ [] })

abbrev pub or_unchanged : Manager → Option Manager → Manager
or_unchanged m none = m
or_unchanged m (some n) = n

-- The timer's function: `closeSession`.
unfoldable pub timer_fires : Text → Manager → Manager
unfolding request_mutation
timer_fires path m =
    let n = record m { idle_close_timers = set_entry text_eq path false m.idle_close_timers } in
    or_unchanged n (request_mutation (idle_close path) n)

-- Deletes the paths that stand for the session.
abbrev pub delete_paths_of : ℕ → List (Text × ℕ) → List (Text × ℕ) → List (Text × ℕ)
delete_paths_of s [] sessions = sessions
delete_paths_of s ((path, t) ∷ entries) sessions =
    delete_paths_of s entries (if t == s then delete_entry text_eq path sessions else sessions)

-- The handler of the event `doc-deleted`.
unfoldable pub doc_deleted : ℕ → Manager → Manager
doc_deleted s m = record m { sessions = delete_paths_of s m.sessions m.sessions }

-- `close`, up to its first await.
unfoldable pub request_close : Manager → Manager
request_close m =
    if m.closing then m else record m { closing = true; mutations = m.mutations ++ close_all ∷ [] }
