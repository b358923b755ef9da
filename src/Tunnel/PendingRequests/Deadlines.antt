-- ===== src/Tunnel/PendingRequests/Deadlines.antt =====
-- What `expire` leaves in the table.
use kb_1_daemon.Prelude.{
  ℕ, ◌≡◌, refl, [], ◌∷◌, Option, none, some, arith, Text, text_eq_iff, leb, if◌then◌else◌,
}
use kb_1_daemon.Tunnel.PendingRequests.{
  DeadlineMap, RelayPendingRequestTable, deadline_for, live, expire,
}

-- No identifier stands twice.
abbrev pub IsUnique : DeadlineMap → Type 0
IsUnique [] = Unit
IsUnique ((j, at) ∷ m) = (deadline_for j m ≡ none) × IsUnique m

abbrev pub still : ℕ → Option ℕ → Option ℕ
still now none = none
still now (some at) = if leb at now then none else some at

deadline_for-live :
    (id : Text) (now : ℕ) (m : DeadlineMap)
    → IsUnique m
    → deadline_for id (live now m) ≡ still now (deadline_for id m)
unfolding deadline_for live
deadline_for-live id now [] h = refl
deadline_for-live id now ((j, at) ∷ m) (fresh, h) =
    ground (arith, text_eq_iff j id, deadline_for-live id now m h)

-- In a table where no identifier stands twice, a request keeps its deadline when the table expires
-- exactly if that deadline is after the given time, and is gone otherwise.
pub deadline_for-expire :
    (t : RelayPendingRequestTable) (now : ℕ) (id : Text)
    → IsUnique t.deadlines
    → deadline_for id (expire t now).0.deadlines ≡ still now (deadline_for id t.deadlines)
unfolding expire
deadline_for-expire t now id h = deadline_for-live id now t.deadlines h
