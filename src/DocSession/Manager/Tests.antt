-- ===== src/DocSession/Manager/Tests.antt =====
-- A client opens a note and leaves it; the idle session begins to close.
use kb_1_daemon.Prelude.{
  ℕ, ◌≡◌, ◌≢◌, refl, Bool, true, false, List, [], ◌∷◌, none, some, Text, text, get_entry, set_entry,
  delete_entry,
}
use kb_1_daemon.DocSession.Manager.{
  Manager, idle_close, move_session, new_manager, get_session, attach_client_session, release,
  request_mutation, timer_fires, is_session_in_use, find_path,
}
use kb_1_daemon.DocSession.Manager.Mutations.{
  begin_mutation, source_stat_read, session_moved, rekey_session,
}
use kb_1_daemon.DocSession.Manager.Runs.{
  attaches, releases, fires, begins, requests, stat_is_read, Reachable, starts, steps,
}
use kb_1_daemon.DocSession.Manager.Lookups.{at, IsUnused}
use kb_1_daemon.DocSession.Manager.Invariant.{IsManager}
use kb_1_daemon.DocSession.Manager.Reservations.{IsReserving}
use kb_1_daemon.DocSession.Manager.Moved.{session_moved_lem}
use kb_1_daemon.DocSession.Manager.Steps.{Reachable-IsManager, closing-IsUnused}

abbrev note : Text
note = text "a.md"

abbrev always : ℕ → Bool
always s = true

abbrev never : ℕ → Bool
never s = false

abbrev as_they_are : List Text → List Text
as_they_are paths = paths

abbrev attached : Manager
attached = record new_manager {
  sessions = (note, 0) ∷ [];
  client_counts = (0, 1) ∷ [];
  next_session = 1;
}

abbrev left : Manager
left = release always 0 note false attached

abbrev fired : Manager
fired = timer_fires note left

abbrev closing : Manager
closing = begin_mutation as_they_are never (idle_close note) fired

attached-Reachable : Reachable attached
unfolding attach_client_session get_entry set_entry delete_entry
attached-Reachable = steps _ _ starts (attaches note new_manager attached 0 refl)

left-Reachable : Reachable left
left-Reachable = steps _ _ attached-Reachable (releases always 0 note false attached)

closing-Reachable : Reachable closing
unfolding release timer_fires get_entry set_entry delete_entry find_path
closing-Reachable =
    steps _ _ (steps _ _ left-Reachable (fires note left refl))
      (begins as_they_are never (idle_close note) [] fired refl refl)

closing-IsUnused_example :
    IsUnused 0 closing
    × (get_session note closing ≡ none)
    × ((q : Text) (n : Manager) (t : ℕ) → get_session q closing ≡ some (n, t) → t ≢ 0)
unfolding begin_mutation release timer_fires get_entry set_entry delete_entry find_path
closing-IsUnused_example = closing-IsUnused closing note 0 closing-Reachable refl

Reachable-IsManager_example : IsManager closing × IsReserving closing
Reachable-IsManager_example = Reachable-IsManager closing closing-Reachable

-- The note is moved while the client has it open.
abbrev new_note : Text
new_note = text "b.md"

abbrev asked : Manager
asked = record attached { mutations = move_session note new_note ∷ [] }

abbrev begun : Manager
begun = begin_mutation as_they_are never (move_session note new_note) asked

abbrev moving : Manager
moving = source_stat_read true begun

moving-Reachable : Reachable moving
unfolding request_mutation
moving-Reachable =
    steps _ _
      (steps _ _
        (steps _ _ attached-Reachable (requests (move_session note new_note) attached asked refl))
        (begins as_they_are never (move_session note new_note) [] asked refl refl))
      (stat_is_read true begun)

session_moved_lem_example :
    ((d : ℕ) → at new_note moving.sessions ≡ some d → d ≡ 0)
    × ((q : Text)
        → q ≢ note
        → q ≢ new_note
        → at q (session_moved always true moving).sessions ≡ at q moving.sessions)
    × (is_session_in_use 0 moving ≡ true
        → at new_note (session_moved always true moving).sessions ≡ some 0)
unfolding begin_mutation source_stat_read get_entry
session_moved_lem_example = session_moved_lem always note new_note 0 moving moving-Reachable refl

-- The client's session stands for the new path.
moved : at new_note (session_moved always true moving).sessions ≡ some 0
unfolding session_moved rekey_session begin_mutation source_stat_read is_session_in_use get_entry
    set_entry delete_entry
moved = refl
