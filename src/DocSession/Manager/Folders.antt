-- ===== src/DocSession/Manager/Folders.antt =====
-- `moveSessionSubtree` and `deleteSessionSubtree`, from await to await.
use kb_1_daemon.Prelude.{
  ℕ, ◌+◌, Bool, true, false, not, ◌&&◌, List, [], ◌∷◌, ◌++◌, any, drop, length, Option, none, some,
  Text, text_eq, ◌==◌, if◌then◌else◌, get_entry, delete_entry,
}
use kb_1_daemon.VaultCore.Path.{slash}
use kb_1_daemon.DocSession.Manager.{
  is_at_or_below, subtree_deletes, subtree_stat, subtree_moves, source_stat, Phase,
  operation_on_disk, Manager, session_at,
}
use kb_1_daemon.DocSession.Manager.Mutations.{
  end_mutation, awaits, delete_path, delete_next, paths_below, rekey_session,
}

abbrev pub with_session : Text → Option ℕ → List (Text × ℕ) → List (Text × ℕ)
with_session path none later = later
with_session path (some s) later = (path, s) ∷ later

-- The sessions that stand for the paths.
abbrev pub sessions_at : Manager → List Text → List (Text × ℕ)
sessions_at m [] = []
sessions_at m (path ∷ paths) = with_session path (session_at path m) (sessions_at m paths)

-- A session under the destination that does not move.
abbrev pub is_collision : Text → List (Text × ℕ) → Text × ℕ → Bool
is_collision to matches (path, s) =
    is_at_or_below to path && not (any (λ (e : Text × ℕ). e.1 == s) matches)

abbrev pub move_matches : Text → Text → Manager → List (Text × ℕ) → Manager
move_matches from to m [] = awaits operation_on_disk m
move_matches from to m (e ∷ matches) = awaits (subtree_moves from to (e ∷ matches)) m

abbrev pub move_unless_collision : Text → Text → Manager → List (Text × ℕ) → Manager
move_unless_collision from to m matches =
    if any (is_collision to matches) m.sessions
    then end_mutation m
    else move_matches from to m matches

module _ (sort : List Text → List Text) where
  abbrev pub move_if_directory : Bool → Text → Text → Manager → Manager
  move_if_directory false from to m = awaits operation_on_disk m
  move_if_directory true from to m =
      move_unless_collision from to m (sessions_at m (sort (paths_below from m.sessions)))

  abbrev pub after_subtree_stat : Bool → Manager → Phase → Manager
  after_subtree_stat is_directory m (subtree_stat from to) =
      move_if_directory is_directory from to m
  after_subtree_stat is_directory m _ = m

  -- `statOrNull` has said whether the source is a directory.
  unfoldable pub subtree_stat_read : Bool → Manager → Manager
  subtree_stat_read is_directory m = after_subtree_stat is_directory m m.phase

abbrev pub after_stat_failure : Manager → Phase → Manager
after_stat_failure m (source_stat from to session) = end_mutation m
after_stat_failure m (subtree_stat from to) = end_mutation m
after_stat_failure m _ = m

-- `statOrNull` of the source of a move has thrown.
unfoldable pub stat_fails : Manager → Manager
stat_fails m = after_stat_failure m m.phase

abbrev pub go_on_moving : Text → Text → Manager → List (Text × ℕ) → Manager
go_on_moving from to m [] = end_mutation m
go_on_moving from to m (e ∷ waiting) = awaits (subtree_moves from to (e ∷ waiting)) m

-- `${toFolder}/${fromPath.slice(fromFolder.length + 1)}`
abbrev pub destination : Text → Text → Text → Text
destination from to path = to ++ slash ∷ drop (length from + 1) path

module _ (is_opened : ℕ → Bool) where
  abbrev pub move_waiting : Text → Text → Text → List (Text × ℕ) → Manager → Option ℕ → Manager
  move_waiting path from to waiting m none = m
  move_waiting path from to waiting m (some s) =
      go_on_moving from to (rekey_session is_opened path (destination from to path) s m)
        (delete_entry text_eq path waiting)

  abbrev pub after_subtree_move : Text → Manager → Phase → Manager
  after_subtree_move path m (subtree_moves from to waiting) =
      move_waiting path from to waiting m (get_entry text_eq path waiting)
  after_subtree_move path m _ = m

  -- The session of a path that waits has completed its move.
  unfoldable pub subtree_session_moved : Text → Manager → Manager
  unfolding rekey_session
  subtree_session_moved path m = after_subtree_move path m m.phase

abbrev pub after_subtree_failure : Manager → Phase → Manager
after_subtree_failure m (subtree_moves from to waiting) = end_mutation m
after_subtree_failure m _ = m

-- The preparation of a session or the move on disk, which the sessions share, has failed. That one session alone fails
-- after the move on disk is not modelled.
unfoldable pub subtree_move_fails : Manager → Manager
subtree_move_fails m = after_subtree_failure m m.phase

abbrev pub subtree_delete_ends : Bool → Text → Option ℕ → List Text → Manager → Manager
subtree_delete_ends true path none later m = delete_next later m
subtree_delete_ends true path (some s) later m = delete_next later (delete_path path m)
subtree_delete_ends false path session later m = end_mutation m

abbrev pub after_subtree_delete : Bool → Manager → Phase → Manager
after_subtree_delete succeeded m (subtree_deletes path session later) =
    subtree_delete_ends succeeded path session later m
after_subtree_delete succeeded m _ = m

-- `deleteSessionUnlocked` of one path of the folder has succeeded or not.
unfoldable pub subtree_session_deleted : Bool → Manager → Manager
subtree_session_deleted succeeded m = after_subtree_delete succeeded m m.phase
