-- ===== src/VaultCore/FileHistory/Message/Actors.antt =====
-- An actor and an operation are read from the texts that they are written as.
use kb_1_daemon.Prelude.{◌≡◌, refl, Option, none, some, Text}
use kb_1_daemon.Tunnel.Relay.Value.{get}
use kb_1_daemon.VaultCore.FileHistory.{
  ActorKind, user, mcp_client, integration, system, unknown, FileHistoryOperation, create, update,
  move, rename, kind_text, operation_text, file_history_operation, actor_kind, actor_value,
  actor_of_value, normalize_actor,
}

pub actor_kind-kind_text : (kind : ActorKind) → actor_kind (kind_text kind) ≡ some kind
unfolding actor_kind
actor_kind-kind_text user = refl
actor_kind-kind_text mcp_client = refl
actor_kind-kind_text integration = refl
actor_kind-kind_text system = refl
actor_kind-kind_text unknown = refl

pub operation-operation_text :
    (operation : FileHistoryOperation)
    → file_history_operation (operation_text operation) ≡ some operation
unfolding file_history_operation
operation-operation_text create = refl
operation-operation_text update = refl
operation-operation_text move = refl
operation-operation_text rename = refl

pub actor_of_parts :
    (kind : ActorKind) (id name client : Option Text)
    → actor_of_value
        (some (actor_value (record { kind = kind; id = id; name = name; client = client })))
      ≡ some (record { kind = kind; id = id; name = name; client = client })
unfolding normalize_actor get
actor_of_parts kind none none none = rw (actor_kind-kind_text kind) refl
actor_of_parts kind none none (some c) = rw (actor_kind-kind_text kind) refl
actor_of_parts kind none (some n) none = rw (actor_kind-kind_text kind) refl
actor_of_parts kind none (some n) (some c) = rw (actor_kind-kind_text kind) refl
actor_of_parts kind (some i) none none = rw (actor_kind-kind_text kind) refl
actor_of_parts kind (some i) none (some c) = rw (actor_kind-kind_text kind) refl
actor_of_parts kind (some i) (some n) none = rw (actor_kind-kind_text kind) refl
actor_of_parts kind (some i) (some n) (some c) = rw (actor_kind-kind_text kind) refl
