-- ===== src/Tunnel/PendingRequests.antt =====
-- `RelayPendingRequestTable` of packages/tunnel-protocol/src/index.ts. The map of deadlines is an
-- association list in insertion order, and the clock's value is an argument.
pub mod Deadlines
pub mod Requests
mod Tests
use kb_1_daemon.Prelude.{
  ℕ, ◌+◌, Bool, true, false, List, [], ◌∷◌, ◌++◌, Option, none, some, Text, text_eq, length, leb,
  if◌then◌else◌,
}

abbrev pub DeadlineMap : Type 0
DeadlineMap = List (Text × ℕ)

pub data AddResult : Type 0 where
  added : (pending deadline_at : ℕ) → AddResult
  duplicate limit : (pending : ℕ) → AddResult

pub record RelayPendingRequestTable : Type 0 where
  pub max_pending : ℕ
  pub default_timeout_ms : ℕ
  pub deadlines : DeadlineMap

-- `RELAY_PENDING_REQUEST_LIMIT` and `RELAY_DEFAULT_REQUEST_TIMEOUT_MS`
abbrev pub default_max_pending : ℕ
default_max_pending = 128

abbrev pub default_timeout : ℕ
default_timeout = 15000

unfoldable pub deadline_for : Text → DeadlineMap → Option ℕ
deadline_for id [] = none
deadline_for id ((j, at) ∷ m) = if text_eq j id then some at else deadline_for id m

pub deadline_of : Option ℕ → Option ℕ → ℕ → ℕ → ℕ
deadline_of (some at) timeout now fallback = at
deadline_of none (some timeout) now fallback = now + timeout
deadline_of none none now fallback = now + fallback

unfoldable pub add :
    RelayPendingRequestTable → Text → Option ℕ → Option ℕ → ℕ → RelayPendingRequestTable × AddResult
unfolding deadline_of
add t id deadline timeout now = elim (deadline_for id t.deadlines) [
  | some _ ↦ (t, duplicate (length t.deadlines))
  | none ↦
      if leb t.max_pending (length t.deadlines)
      then (t, limit (length t.deadlines))
      else let at = deadline_of deadline timeout now t.default_timeout_ms in
        let m = t.deadlines ++ (id, at) ∷ [] in (record t { deadlines = m }, added (length m) at)
]

-- The loop of `expire`: what stays, and the identifiers that it returns.
unfoldable pub live : ℕ → DeadlineMap → DeadlineMap
live now [] = []
live now ((j, at) ∷ m) = let rest = live now m in if leb at now then rest else (j, at) ∷ rest

unfoldable pub expired : ℕ → DeadlineMap → List Text
expired now [] = []
expired now ((j, at) ∷ m) = let rest = expired now m in if leb at now then j ∷ rest else rest

unfoldable pub expire : RelayPendingRequestTable → ℕ → RelayPendingRequestTable × List Text
unfolding live expired
expire t now = (record t { deadlines = live now t.deadlines }, expired now t.deadlines)

unfoldable pub create : Option ℕ → Option ℕ → RelayPendingRequestTable
create max timeout = record {
  max_pending = elim max [ none ↦ default_max_pending | some n ↦ n ];
  default_timeout_ms = elim timeout [ none ↦ default_timeout | some n ↦ n ];
  deadlines = [];
}

abbrev pub size : RelayPendingRequestTable → ℕ
size t = length t.deadlines

unfoldable pub has : RelayPendingRequestTable → Text → Bool
has t id = elim (deadline_for id t.deadlines) [ none ↦ false | some _ ↦ true ]

-- `Map.delete`
unfoldable pub delete : Text → DeadlineMap → DeadlineMap
delete id [] = []
delete id ((j, at) ∷ m) = if text_eq j id then m else (j, at) ∷ delete id m

-- Both `resolve` and `cancel`, whose bodies are the same: was the request there?
unfoldable pub resolve : RelayPendingRequestTable → Text → RelayPendingRequestTable × Bool
unfolding delete has
resolve t id = (record t { deadlines = delete id t.deadlines }, has t id)

unfoldable pub cancel : RelayPendingRequestTable → Text → RelayPendingRequestTable × Bool
unfolding delete has
cancel t id = (record t { deadlines = delete id t.deadlines }, has t id)

unfoldable pub clear : RelayPendingRequestTable → RelayPendingRequestTable
clear t = record t { deadlines = [] }
