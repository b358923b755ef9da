-- ===== src/VaultCore/FileHistory/Pending.antt =====
-- The pending versions of a vault: `recordFileHistory` gathers the changes of a note within a window of time.
-- An actor's copies are the actor itself. The clock and the random id of a call stand in its input.
pub mod Contributors
pub mod Summary
pub mod Coalesce
use kb_1_daemon.Prelude.{
  ℕ, ◌*◌, ◌/◌, Bool, true, false, List, [], ◌∷◌, ◌++◌, map, Option, none, some, Text, text, text_eq,
  utf8_length, any, ◌==◌, if◌then◌else◌, get_entry, set_entry, delete_entry, Result, ok, err,
}
use kb_1_daemon.Tunnel.Relay.Value.{Value, undefined, string, array, Elements, nil, cons}
use kb_1_daemon.VaultCore.Path.{Platform, file, InvalidPathError, validate_vault_path}
use kb_1_daemon.VaultCore.FileHistory.{
  VaultActor, FileHistoryOperation, create, update, move, rename, FileHistoryEntry,
  PendingHistoryEntry, Host, kind_text, actor_for_contributors, unknown_actor,
}

abbrev pub PendingHistoryMap : Type 0
PendingHistoryMap = List (Text × PendingHistoryEntry)

abbrev pub get_pending : Text → PendingHistoryMap → Option PendingHistoryEntry
get_pending key pending = get_entry text_eq key pending

abbrev pub set_pending : Text → PendingHistoryEntry → PendingHistoryMap → PendingHistoryMap
set_pending key entry pending = set_entry text_eq key entry pending

abbrev pub delete_pending : Text → PendingHistoryMap → PendingHistoryMap
delete_pending key pending = delete_entry text_eq key pending

-- A window in whole milliseconds, or a number that is negative or not finite.
pub data WindowMs : Type 0 where
  milliseconds : ℕ → WindowMs
  unusable : WindowMs

abbrev pub default_history_bucket_window_ms : ℕ
default_history_bucket_window_ms = 5 * 60 * 1000

unfoldable pub normalize_bucket_window_ms : Option WindowMs → ℕ
normalize_bucket_window_ms (some (milliseconds n)) = n
normalize_bucket_window_ms _ = default_history_bucket_window_ms

pub record RecordFileHistoryInput : Type 0 where
  pub path : Text
  pub operation : FileHistoryOperation
  pub actor : Option VaultActor
  pub content : Text
  pub now : ℕ
  pub coalesce_window_ms : Option WindowMs
  pub random_id : Text

-- `path` and a NUL before the bucket.
abbrev pub pending_key : Text → Text → Text
pending_key rel bucket_start = rel ++ 0 ∷ bucket_start

abbrev pub or_unknown : Option VaultActor → VaultActor
or_unknown none = unknown_actor
or_unknown (some actor) = actor

abbrev pub value_or_undefined : Option Text → Value
value_or_undefined none = undefined
value_or_undefined (some s) = string s

abbrev pub is_creation : FileHistoryOperation → Bool
is_creation create = true
is_creation _ = false

module _ (h : Host) where
  unfoldable pub bucket_start_iso : ℕ → Option WindowMs → Text
  unfolding normalize_bucket_window_ms
  bucket_start_iso now window =
      let ms = normalize_bucket_window_ms window in
      if ms == 0 then h.iso now else h.iso (now / ms * ms)

  unfoldable pub actor_key : VaultActor → Text
  actor_key actor = h.stringify (
      array (
        cons (string (kind_text actor.kind)) (
          cons (value_or_undefined actor.id)
            (cons (value_or_undefined actor.name) (cons (value_or_undefined actor.client) nil)))))

  unfoldable pub add_contributor : List VaultActor → VaultActor → List VaultActor
  unfolding actor_key
  add_contributor contributors actor =
      if any (λ candidate. text_eq (actor_key candidate) (actor_key actor)) contributors
      then contributors
      else contributors ++ actor ∷ []

  abbrev pub bucket_of : RecordFileHistoryInput → Text
  bucket_of input = bucket_start_iso input.now input.coalesce_window_ms

  -- What a change makes of the pending version in its bucket.
  abbrev pub merged : RecordFileHistoryInput → PendingHistoryEntry → PendingHistoryEntry
  merged input existing = record existing {
    operation = if is_creation existing.operation then create else input.operation;
    updated_at = h.iso input.now;
    content = input.content;
    size = utf8_length input.content;
    content_hash = h.hash_content input.content;
    contributors = add_contributor existing.contributors (or_unknown input.actor);
  }

  abbrev pub first_version : Text → RecordFileHistoryInput → PendingHistoryEntry
  first_version rel input = record {
    id = text "pending-" ++ input.random_id;
    path = rel;
    from_path = none;
    operation = input.operation;
    bucket_start = bucket_of input;
    created_at = bucket_of input;
    updated_at = h.iso input.now;
    content = input.content;
    size = utf8_length input.content;
    content_hash = h.hash_content input.content;
    content_hash_format = none;
    contributors = or_unknown input.actor ∷ [];
  }

  abbrev pub next_version :
      Text → RecordFileHistoryInput → Option PendingHistoryEntry → PendingHistoryEntry
  next_version rel input none = first_version rel input
  next_version rel input (some existing) = merged input existing

  unfoldable pub pending_entry_to_history_entry : PendingHistoryEntry → FileHistoryEntry
  pending_entry_to_history_entry entry = record {
    id = entry.id;
    path = entry.path;
    operation = entry.operation;
    actor = actor_for_contributors h entry.contributors;
    integration_id = (actor_for_contributors h entry.contributors).client;
    contributors = some entry.contributors;
    pending = true;
    commit_id = none;
    created_at = entry.created_at;
    updated_at = entry.updated_at;
    size = entry.size;
    content_hash = entry.content_hash;
  }

  -- The call with a valid path.
  unfoldable pub record_version :
      Text → RecordFileHistoryInput → PendingHistoryMap → PendingHistoryMap × PendingHistoryEntry
  record_version rel input pending =
      let key = pending_key rel (bucket_of input) in
      let entry = next_version rel input (get_pending key pending) in
      (set_pending key entry pending, entry)

  abbrev pub record_if_valid :
      RecordFileHistoryInput
      → PendingHistoryMap
      → Result InvalidPathError Text
      → PendingHistoryMap × Result InvalidPathError FileHistoryEntry
  record_if_valid input pending (err e) = (pending, err e)
  record_if_valid input pending (ok rel) =
      let done = record_version rel input pending in
      (done.0, ok (pending_entry_to_history_entry done.1))

  unfoldable pub record_file_history :
      Platform
      → RecordFileHistoryInput
      → PendingHistoryMap
      → PendingHistoryMap × Result InvalidPathError FileHistoryEntry
  unfolding record_version pending_entry_to_history_entry
  record_file_history platform input pending =
      record_if_valid input pending (validate_vault_path platform input.path file)
