-- ===== src/Tunnel/PendingRequests/Tests.antt =====
-- Two requests, of which one expires.
use kb_1_daemon.Prelude.{
  ◌≡◌, refl, [], ◌∷◌, none, some, true, false, length, ◌⊎◌, ◌≤◌, ◌<◌, if◌then◌else◌, text_eq, arith,
  text,
}
use kb_1_daemon.Tunnel.PendingRequests.{
  RelayPendingRequestTable, deadline_for, deadline_of, expire, create, add, has, resolve, cancel,
  clear,
}
use kb_1_daemon.Tunnel.PendingRequests.Deadlines.{IsUnique}
use kb_1_daemon.Tunnel.PendingRequests.Requests.{
  IsTable, operations-IsTable, deadline_for-operations,
}

abbrev two : RelayPendingRequestTable
two = record {
  max_pending = 4;
  default_timeout_ms = 15000;
  deadlines = (text "a", 5) ∷ (text "b", 9) ∷ [];
}

two-IsUnique : IsUnique two.deadlines
unfolding deadline_for
two-IsUnique = (refl, (refl, tt))

two-IsTable : IsTable two
two-IsTable = record { unique = two-IsUnique; few = omega arith }

operations-IsTable_example :
    IsTable (create (some 1) (some 3))
    × IsTable (add two (text "c") none (some 3) 6).0
    × IsTable (resolve two (text "c")).0
    × IsTable (cancel two (text "c")).0
    × IsTable (expire two 6).0
    × IsTable (clear two)
operations-IsTable_example = operations-IsTable two (text "c") none (some 3) (some 1) 6 two-IsTable

deadline_for-operations_example :
    (((add two (text "c") none (some 3) 6).0 ≡ two)
        × ((has two (text "c") ≡ true) ⊎ (two.max_pending ≤ length two.deadlines))
      ⊎ (has two (text "c") ≡ false)
        × (length two.deadlines < two.max_pending)
        × (deadline_for (text "a") (add two (text "c") none (some 3) 6).0.deadlines ≡ (
            if text_eq (text "c") (text "a")
            then some (deadline_of none (some 3) 6 two.default_timeout_ms)
            else deadline_for (text "a") two.deadlines)))
    × ((resolve two (text "c")).1 ≡ has two (text "c"))
    × (deadline_for (text "a") (resolve two (text "c")).0.deadlines
        ≡ (if text_eq (text "c") (text "a") then none else deadline_for (text "a") two.deadlines))
deadline_for-operations_example =
    deadline_for-operations two (text "c") (text "a") none (some 3) 6 two-IsTable
