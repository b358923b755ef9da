-- ===== src/VaultCore/FileHistory.antt =====
-- packages/vault-core/src/file-history.ts: the versions of a note, pending ones in memory and committed ones in
-- the vault's Git repository. Here are the shared types, the actors, and what the host provides.
pub mod Message
pub mod Committed
pub mod Pending
pub mod Listing
pub mod Versions
pub mod Git
pub mod Flush
mod Tests
use kb_1_daemon.Prelude.{
  ℕ, Bool, true, false, List, [], ◌∷◌, ◌++◌, map, Option, none, some, Text, text, text_eq, length,
  any, if◌then◌else◌,
}
use kb_1_daemon.VaultCore.Ops.{AuditOperation}
use kb_1_daemon.Tunnel.Relay.Value.{Value, string, object, Fields, end, field, get}

pub data ActorKind : Type 0 where
  user mcp_client integration system unknown : ActorKind

pub record VaultActor : Type 0 where
  pub kind : ActorKind
  pub id : Option Text
  pub name : Option Text
  pub client : Option Text

pub data FileHistoryOperation : Type 0 where
  create update move rename : FileHistoryOperation

pub record FileHistoryEntry : Type 0 where
  pub id : Text
  pub path : Text
  pub operation : FileHistoryOperation
  pub actor : VaultActor
  pub integration_id : Option Text
  pub contributors : Option (List VaultActor)
  pub pending : Bool
  pub commit_id : Option Text
  pub created_at : Text
  pub updated_at : Text
  pub size : ℕ
  pub content_hash : Text

pub record PendingHistoryEntry : Type 0 where
  pub id : Text
  pub path : Text
  pub from_path : Option Text
  pub operation : FileHistoryOperation
  pub bucket_start : Text
  pub created_at : Text
  pub updated_at : Text
  pub content : Text
  pub size : ℕ
  pub content_hash : Text
  pub content_hash_format : Option Text
  pub contributors : List VaultActor

-- The functions of JavaScript and of the platform that the module calls: `toISOString` of a time in
-- milliseconds, `getTime` of a text (`none` for NaN), SHA-256 in hex of a text, `JSON.stringify`,
-- `JSON.parse` (`none` where it throws), a number in decimal, and `Number` of a text (`none` if not finite).
pub record Host : Type 0 where
  pub iso : ℕ → Text
  pub time_of : Text → Option ℕ
  pub hash_content : Text → Text
  pub stringify : Value → Text
  pub parse : Text → Option Value
  pub decimal : ℕ → Text
  pub number_value : Text → Option ℕ

abbrev pub kind_text : ActorKind → Text
kind_text user = text "user"
kind_text mcp_client = text "mcp_client"
kind_text integration = text "integration"
kind_text system = text "system"
kind_text unknown = text "unknown"

abbrev pub operation_text : FileHistoryOperation → Text
operation_text create = text "create"
operation_text update = text "update"
operation_text move = text "move"
operation_text rename = text "rename"

unfoldable pub file_history_operation : Text → Option FileHistoryOperation
file_history_operation value =
    if text_eq value (text "create")
    then some create
    else if text_eq value (text "update")
    then some update
    else if text_eq value (text "move")
    then some move
    else if text_eq value (text "rename")
    then some rename
    else none

-- `historyOperationFromAudit`
unfoldable pub history_operation_from_audit : AuditOperation → Option FileHistoryOperation
history_operation_from_audit AuditOperation.create = some FileHistoryOperation.create
history_operation_from_audit AuditOperation.write = some update
history_operation_from_audit AuditOperation.splice = some update
history_operation_from_audit AuditOperation.append = some update
history_operation_from_audit AuditOperation.prepend = some update
history_operation_from_audit AuditOperation.move = some FileHistoryOperation.move
history_operation_from_audit AuditOperation.mkdir = none
history_operation_from_audit AuditOperation.delete = none

unfoldable pub actor_kind : Text → Option ActorKind
actor_kind value =
    if text_eq value (text "user")
    then some user
    else if text_eq value (text "mcp_client")
    then some mcp_client
    else if text_eq value (text "integration")
    then some integration
    else if text_eq value (text "system")
    then some system
    else if text_eq value (text "unknown")
    then some unknown
    else none

-- `typeof value === "string" ? value : undefined`
abbrev pub string_of : Value → Option Text
string_of (string s) = some s
string_of _ = none

abbrev pub kind_of : Option Text → Option ActorKind
kind_of none = none
kind_of (some value) = actor_kind value

abbrev pub with_kind : Fields → Option ActorKind → Option VaultActor
with_kind fields none = none
with_kind fields (some kind) = some (record {
  kind = kind;
  id = string_of (get (text "id") fields);
  name = string_of (get (text "name") fields);
  client = string_of (get (text "client") fields);
})

unfoldable pub normalize_actor : Fields → Option VaultActor
normalize_actor fields = with_kind fields (kind_of (string_of (get (text "kind") fields)))

abbrev pub optional_field : Text → Option Text → Fields → Fields
optional_field key none fields = fields
optional_field key (some value) fields = field key (string value) fields

-- The object of an actor as `cloneActor` builds it.
abbrev pub actor_value : VaultActor → Value
actor_value actor = object true (
    field (text "kind") (string (kind_text actor.kind)) (
      optional_field (text "id") actor.id (
        optional_field (text "name") actor.name (optional_field (text "client") actor.client end))))

abbrev pub actor_of_value : Option Value → Option VaultActor
actor_of_value (some (object plain fields)) = normalize_actor fields
actor_of_value _ = none

unfoldable pub parse_actor_json : Host → Text → Option VaultActor
parse_actor_json h value = actor_of_value (h.parse value)

abbrev pub unknown_actor : VaultActor
unknown_actor = record { kind = unknown; id = none; name = none; client = none }

unfoldable pub actor_for_contributors : Host → List VaultActor → VaultActor
actor_for_contributors h [] = unknown_actor
actor_for_contributors h (a ∷ []) = a
actor_for_contributors h (a ∷ b ∷ rest) = record {
  kind = system;
  id = none;
  name = some (h.decimal (length (a ∷ b ∷ rest)) ++ text " contributors");
  client = none;
}

-- `a ?? b`
abbrev pub or_text : Option Text → Text → Text
or_text none other = other
or_text (some value) other = value

abbrev pub or_option : Option Text → Option Text → Option Text
or_option none other = other
or_option (some value) other = some value

-- `undefined` and the empty string are falsy.
abbrev pub truthy : Option Text → Option Text
truthy none = none
truthy (some []) = none
truthy (some (c ∷ s)) = some (c ∷ s)

abbrev pub with_client : Text → Option Text → Text
with_client label none = label
with_client label (some client) = label ++ text " (" ++ client ++ text ")"

unfoldable pub actor_label : VaultActor → Text
actor_label actor =
    with_client (or_text (or_option actor.name actor.id) (kind_text actor.kind))
      (truthy actor.client)
