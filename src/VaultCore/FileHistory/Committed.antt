-- ===== src/VaultCore/FileHistory/Committed.antt =====
-- The committed versions of a note, found by following it through Git's log and back over its moves.
-- `git log` is an argument: for a path, its marker and a revision it prints a log, or fails.
pub mod Termination
use kb_1_daemon.Prelude.{
  ℕ, zero, suc, Bool, true, false, ◌||◌, List, [], ◌∷◌, ◌++◌, map, Option, none, some, Text, text,
  text_eq, split, join, trim, length, any, ◌==◌, if◌then◌else◌, Result, ok, err,
}
use kb_1_daemon.VaultCore.Path.{
  Platform, file, slash, InvalidPathError, validate_vault_path, relative_descendant_path,
}
use kb_1_daemon.VaultCore.FileHistory.{
  FileHistoryOperation, create, update, move, rename, FileHistoryEntry, Host,
}
use kb_1_daemon.VaultCore.FileHistory.Message.{
  Trailer, PathValue, missing, malformed, given, commit_values, commit_path_value, value_of,
  entry_from_commit_values,
}

pub record HistoryLogRecord : Type 0 where
  pub commit_id : Text
  pub committed_at : Text
  pub body : Text

pub record CommittedHistoryRecord : Type 0 where
  pub entry : FileHistoryEntry
  pub commit_id : Text
  pub content_path : Text
  pub content_hash_format : Option Text

pub data HistoryCommitScope : Type 0 where
  unmatched : HistoryCommitScope
  matched : (previous_path : Option Text) (stops_traversal : Bool) → HistoryCommitScope

-- The units `\x1e` and `\x00`.
abbrev pub commit_separator : ℕ
commit_separator = 30

abbrev pub field_separator : ℕ
field_separator = 0

abbrev pub is_create : FileHistoryOperation → Bool
is_create create = true
is_create _ = false

abbrev pub suffix_for : FileHistoryOperation → Text → Text → Option Text
suffix_for move recorded current = relative_descendant_path recorded current
suffix_for _ recorded current = none

abbrev pub previous_path : Text → Text → Text
previous_path from [] = from
previous_path from (c ∷ suffix) = from ++ slash ∷ c ∷ suffix

abbrev pub scope_of_previous : Result InvalidPathError Text → HistoryCommitScope
scope_of_previous (ok path) = matched (some path) false
scope_of_previous (err e) = matched none true

abbrev pub moved_scope : Platform → Text → PathValue → HistoryCommitScope
moved_scope platform suffix missing = matched none true
moved_scope platform suffix malformed = matched none true
moved_scope platform suffix (given from) =
    scope_of_previous (validate_vault_path platform (previous_path from suffix) file)

abbrev pub suffix_scope :
    Platform → FileHistoryOperation → PathValue → Option Text → HistoryCommitScope
suffix_scope platform operation from none = unmatched
suffix_scope platform create from (some suffix) = matched none false
suffix_scope platform update from (some suffix) = matched none false
suffix_scope platform move from (some suffix) = moved_scope platform suffix from
suffix_scope platform rename from (some suffix) = moved_scope platform suffix from

unfoldable pub history_commit_scope :
    Platform → Text → FileHistoryOperation → PathValue → PathValue → HistoryCommitScope
history_commit_scope platform current operation missing from = matched none false
history_commit_scope platform current operation malformed from = unmatched
history_commit_scope platform current operation (given recorded) from =
    suffix_scope platform operation from
      (if text_eq recorded current then some [] else suffix_for operation recorded current)

-- One record of the log's output, from its fields.
abbrev pub record_of_fields : List Text → List HistoryLogRecord
record_of_fields [] = []
record_of_fields (a ∷ []) = []
record_of_fields (commit_id ∷ committed_at ∷ body) =
    if length commit_id == 0 || length committed_at == 0
    then []
    else record {
      commit_id = commit_id;
      committed_at = committed_at;
      body = join field_separator body;
    }
      ∷ []

abbrev pub records_of_parts : List Text → List HistoryLogRecord
records_of_parts [] = []
records_of_parts (raw ∷ parts) =
    (if length (trim raw) == 0 then [] else record_of_fields (split field_separator (trim raw)))
    ++ records_of_parts parts

unfoldable pub log_records : Text → List HistoryLogRecord
log_records stdout = records_of_parts (split commit_separator stdout)

-- What was found so far, and the ids of the commits that were counted.
pub record Found : Type 0 where
  pub entries : List CommittedHistoryRecord
  pub seen_commit_ids : List Text

abbrev pub nothing_found : Found
nothing_found = record { entries = []; seen_commit_ids = [] }

-- How the loop over the records goes on.
pub data Turn : Type 0 where
  next_record return_entries : Turn
  next_segment : (path revision : Text) → Turn

module _ (h : Host) (platform : Platform) (git_log : Text → Text → Option Text → Option Text) where
  unfoldable pub history_marker_path : Text → Text
  history_marker_path note_path = text ".kb1/history-index/" ++ h.hash_content note_path

  abbrev pub records_of_output : Option Text → Option (List HistoryLogRecord)
  records_of_output none = none
  records_of_output (some stdout) = some (log_records stdout)

  unfoldable pub read_history_log_segment : Text → Option Text → Option (List HistoryLogRecord)
  read_history_log_segment current revision =
      records_of_output (git_log current (history_marker_path current) revision)

  abbrev pub add_entry : Text → HistoryLogRecord → FileHistoryEntry → Found → Found
  add_entry current r parsed w = if any (text_eq r.commit_id) w.seen_commit_ids then w else record {
    entries =
        w.entries
        ++ record {
          entry = parsed;
          commit_id = r.commit_id;
          content_path = current;
          content_hash_format = value_of (text "KB1-Content-Hash-Format") (commit_values r.body);
        }
          ∷ [];
    seen_commit_ids = w.seen_commit_ids ++ r.commit_id ∷ [];
  }

  abbrev pub follow : HistoryLogRecord → Option Text → Turn
  follow r none = next_record
  follow r (some path) = next_segment path (r.commit_id ++ text "^")

  abbrev pub turn : HistoryLogRecord → FileHistoryEntry → Option Text → Bool → Turn
  turn r parsed previous stops =
      if is_create parsed.operation || stops then return_entries else follow r previous

  abbrev pub visit_scope :
      Text → HistoryLogRecord → FileHistoryEntry → Found → HistoryCommitScope → Found × Turn
  visit_scope current r parsed w unmatched = (w, next_record)
  visit_scope current r parsed w (matched previous stops) =
      (add_entry current r parsed w, turn r parsed previous stops)

  abbrev pub visit_entry : Text → HistoryLogRecord → Found → Option FileHistoryEntry → Found × Turn
  visit_entry current r w none = (w, next_record)
  visit_entry current r w (some parsed) =
      let values = commit_values r.body in
      visit_scope current r parsed w (
        history_commit_scope platform current parsed.operation
          (commit_path_value h values (text "KB1-Path"))
          (commit_path_value h values (text "KB1-From-Path")))

  unfoldable pub visit : Text → Text → HistoryLogRecord → Found → Found × Turn
  visit rel current r w =
      visit_entry current r w
        (entry_from_commit_values h rel r.commit_id r.committed_at (commit_values r.body))

  abbrev pub take_turn : Found × Turn → Found × Option (Text × Text) → Found × Option (Text × Text)
  take_turn (w, next_record) later = later
  take_turn (w, return_entries) later = (w, none)
  take_turn (w, next_segment path revision) later = (w, some (path, revision))

  -- The loop over the records of a segment, with the segment that comes next.
  unfoldable pub scan_records :
      Text → Text → List HistoryLogRecord → Found → Found × Option (Text × Text)
  scan_records rel current [] w = (w, none)
  scan_records rel current (r ∷ records) w =
      let v = visit rel current r w in take_turn v (scan_records rel current records v.0)

  abbrev pub after_scan :
      (Text → Text → Found → Option (List CommittedHistoryRecord))
      → Found × Option (Text × Text)
      → Option (List CommittedHistoryRecord)
  after_scan again (w, none) = some w.entries
  after_scan again (w, some (path, revision)) = again path revision w

  abbrev pub after_log :
      (Text → Text → Found → Option (List CommittedHistoryRecord))
      → Text
      → Text
      → Found
      → Option (List HistoryLogRecord)
      → Option (List CommittedHistoryRecord)
  after_log again rel current w none = some w.entries
  after_log again rel current w (some records) =
      after_scan again (scan_records rel current records w)

  -- The loop over the segments; `none` says that the rounds ran out.
  unfoldable pub read_segments :
      ℕ → Text → Text → Option Text → Found → Option (List CommittedHistoryRecord)
  read_segments zero rel current revision w = none
  read_segments (suc rounds) rel current revision w =
      after_log (λ path next found. read_segments rounds rel path (some next) found) rel current w
        (read_history_log_segment current revision)

  -- `Termination.read_committed_history-returns` has rounds that are enough.
  unfoldable pub read_committed_history : ℕ → Bool → Text → Option (List CommittedHistoryRecord)
  read_committed_history rounds has_git_repository rel =
      if has_git_repository then read_segments rounds rel rel none nothing_found else some []
