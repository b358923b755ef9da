-- ===== src/VaultCore/FileHistory/Tests.antt =====
-- A host with a simple notation for JSON and for times, and notes with one or two versions.
use Prim.Native.Nat.{Ordering}
use kb_1_daemon.Prelude.{
  ℕ, ◌+◌, ◌-◌, ◌<◌, ◌≡◌, refl, sym, inr, true, false, List, [], ◌∷◌, ◌++◌, Option, none, some, Text,
  text, text_eq, trim_start, trim, length, take, drop, ltb, All, Lacks, if◌then◌else◌, arith, ok,
}
use kb_1_daemon.Tunnel.Relay.Value.{Value, string}
use kb_1_daemon.VaultCore.Path.{posix, validate_vault_path}
use kb_1_daemon.VaultCore.FileHistory.{
  VaultActor, user, create, update, rename, FileHistoryEntry, PendingHistoryEntry, Host,
  actor_value, actor_label,
}
use kb_1_daemon.VaultCore.FileHistory.Message.{
  commit_message, commit_values, commit_path_value, entry_from_commit_values, value_of, given,
  legacy_path, has_terminator, missing,
}
use kb_1_daemon.VaultCore.FileHistory.Message.Readable.{IsReadable, IsValue}
use kb_1_daemon.VaultCore.FileHistory.Message.Lines.{message_text}
use kb_1_daemon.VaultCore.FileHistory.Message.RoundTrip.{read-commit_message, version_of}
use kb_1_daemon.VaultCore.FileHistory.Committed.{
  HistoryLogRecord, CommittedHistoryRecord, log_records, read_committed_history,
}
use kb_1_daemon.VaultCore.FileHistory.Committed.Termination.{
  IsHistory, read_committed_history-returns,
}
use kb_1_daemon.VaultCore.FileHistory.Pending.{
  PendingHistoryMap, get_pending, RecordFileHistoryInput, milliseconds, pending_key,
  pending_entry_to_history_entry,
}
use kb_1_daemon.VaultCore.FileHistory.Pending.Summary.{record_all, changes_of, summary}
use kb_1_daemon.VaultCore.FileHistory.Pending.Coalesce.{record_all-summary}
use kb_1_daemon.VaultCore.FileHistory.Listing.{
  text_lt, list_file_history, normalize_page_limit, compare_history_entries_desc,
  pending_entries_for_path,
}
use kb_1_daemon.VaultCore.FileHistory.Listing.Pages.{list_file_history-page}
use kb_1_daemon.VaultCore.FileHistory.Versions.{
  find_pending, read_file_history_version, IsVersionOf, read_file_history_version-IsVersionOf,
}
use kb_1_daemon.VaultCore.FileHistory.Git.{Command, Outcome, prints, ensure_git_repository}
use kb_1_daemon.VaultCore.FileHistory.Flush.{
  History, Selected, select_pending_entries, flush_file_history, loop_result,
}
use kb_1_daemon.VaultCore.FileHistory.Flush.Commits.{IsFlush, flush_file_history-IsFlush}

abbrev eve : VaultActor
eve = record { kind = user; id = none; name = some (text "Eve"); client = none }

-- Letters that stand for numbers.
abbrev digit : ℕ → Text
digit n = (n + 100000) ∷ []

abbrev number_of : Text → Option ℕ
number_of [] = none
number_of (c ∷ s) = some (c - 100000)

abbrev stringify : Value → Text
stringify (string s) = b'"' ∷ s ++ b'"' ∷ []
stringify _ = text "{}"

abbrev parse : Text → Option Value
parse t =
    if text_eq t (text "{}")
    then some (actor_value eve)
    else some (string (take (length t - 2) (drop 1 t)))

abbrev host : Host
host = record {
  iso = digit;
  time_of = number_of;
  hash_content = λ s. b'h' ∷ s;
  stringify = stringify;
  parse = parse;
  decimal = digit;
  number_value = number_of;
}

abbrev entry : PendingHistoryEntry
entry = record {
  id = text "pending-1";
  path = text "b.md";
  from_path = some (text "a.md");
  operation = rename;
  bucket_start = digit 3;
  created_at = digit 3;
  updated_at = digit 4;
  content = text "x";
  size = 1;
  content_hash = text "hx";
  content_hash_format = some (text "git-blob-v1");
  contributors = eve ∷ [];
}

plain : (s : Text) → trim_start s ≡ s → has_terminator s ≡ false → IsValue s
plain s p q = record { not_padded = p; one_line = q }

entry-IsReadable : IsReadable host entry none
unfolding trim_start has_terminator
entry-IsReadable = record {
  path = record { json = plain _ refl refl; parses = refl; plain = inr refl };
  from_path = record { json = plain _ refl refl; parses = refl; plain = inr refl };
  id = plain _ refl refl;
  bucket_start = plain _ refl refl;
  bucket_end = plain _ refl refl;
  size = plain _ refl refl;
  number = refl;
  content_hash = plain _ refl refl;
  format = plain _ refl refl;
  contributors = (
    record { json = plain _ refl refl; parses = refl; label = unfold actor_label in omega arith },
    tt,
  );
}

abbrev commit_text : Text
commit_text = message_text (commit_message host entry none)

read-commit_message_example :
    let values = commit_values commit_text in
    (entry_from_commit_values host (text "b.md") (text "c1") (text "t") values
      ≡ some (version_of host entry none (text "b.md") (text "c1")))
    × (commit_path_value host values (text "KB1-Path") ≡ given (text "b.md"))
    × (commit_path_value host values (text "KB1-From-Path") ≡ legacy_path (some (text "a.md")))
    × (value_of (text "KB1-Content-Hash-Format") values ≡ some (text "git-blob-v1"))
read-commit_message_example =
    read-commit_message host entry none (text "b.md") (text "c1") (text "t") entry-IsReadable

-- A line separator in the path keeps both lines with the path from being read.
abbrev separated : PendingHistoryEntry
separated = record entry { path = text "b" ++ 8232 ∷ text ".md" }

separated_path :
    commit_path_value host
      (commit_values (message_text (commit_message host separated none)))
      (text "KB1-Path")
    ≡ missing
unfolding commit_path_value value_of commit_values commit_message has_terminator trim_start
    actor_label
separated_path = refl

-- A line break in a contributor's name puts a trailer before those that the daemon writes.
abbrev mallory : VaultActor
mallory = record eve { name = some (text "x" ++ 10 ∷ text "KB1-History-ID: forged") }

forged_id :
    value_of (text "KB1-History-ID") (
      commit_values
        (message_text (commit_message host (record entry { contributors = mallory ∷ [] }) none)))
    ≡ some (text "forged")
unfolding value_of commit_values commit_message has_terminator trim_start actor_label
forged_id = refl

-- One commit, which has no older ones.
abbrev log_of : Option Text → Text
log_of none = text "c1" ++ 0 ∷ text "t" ++ 0 ∷ commit_text
log_of (some revision) = []

abbrev git_log : Text → Text → Option Text → Option Text
git_log path marker revision = some (log_of revision)

log_older :
    (path marker commit_id stdout : Text)
    → git_log path marker (some (commit_id ++ text "^")) ≡ some stdout
    → All (λ (r : HistoryLogRecord). 0 < 0) (log_records stdout)
unfolding log_records trim
log_older path marker commit_id stdout e = let same : [] ≡ stdout = cc in rw (sym same) tt

log_young :
    (path marker stdout : Text)
    → git_log path marker none ≡ some stdout
    → All (λ (r : HistoryLogRecord). 0 < 1) (log_records stdout)
log_young path marker stdout e = all_young (log_records stdout)
  where
    all_young : (rs : List HistoryLogRecord) → All (λ (r : HistoryLogRecord). 0 < 1) rs
    all_young [] = tt
    all_young (r ∷ rs) = (omega arith, all_young rs)

read_committed_history-returns_example :
    (cs : List CommittedHistoryRecord) × (read_committed_history host posix git_log 2 true
        (text "b.md")
      ≡ some cs)
    × IsHistory cs
read_committed_history-returns_example =
    read_committed_history-returns host posix git_log (λ c. 0) 1 2 true (text "b.md") log_older
      log_young (omega arith)

abbrev change : RecordFileHistoryInput
change = record {
  path = text "b.md";
  operation = create;
  actor = some eve;
  content = text "x";
  now = 13;
  coalesce_window_ms = some (milliseconds 10);
  random_id = text "1";
}

-- Two changes in a bucket and one in the next.
abbrev changes : List RecordFileHistoryInput
changes =
    change
    ∷ record change { operation = update; content = text "y"; now = 15; random_id = text "2" }
    ∷ record change { operation = update; content = text "z"; now = 25; random_id = text "3" }
    ∷ []

digit_no_nul : (t : ℕ) → Lacks 0 (digit t)
digit_no_nul t = omega arith

record_all-summary_example :
    get_pending (pending_key (text "b.md") (digit 10)) (record_all host posix changes [])
    ≡ summary host posix
        (text "b.md")
        (digit 10)
        (changes_of host posix (text "b.md") (digit 10) changes)
record_all-summary_example =
    record_all-summary host posix (text "b.md") (digit 10) changes digit_no_nul (omega arith)

-- The pending versions at the end.
abbrev later : PendingHistoryEntry
later = record entry { id = text "pending-2"; path = text "b.md"; created_at = digit 9 }

abbrev pending : PendingHistoryMap
pending = (text "k2", later) ∷ (text "k1", entry) ∷ []

abbrev locale_compare : Text → Text → Ordering
locale_compare s t =
    if text_lt s t then Ordering.lt else if text_lt t s then Ordering.gt else Ordering.eq

locale_agrees : (s t : Text) → locale_compare s t ≡ Ordering.lt → text_lt s t ≡ true
locale_agrees s t e = ground arith

abbrev no_commits : Text → List CommittedHistoryRecord
no_commits rel = []

abbrev as_it_is :
    (FileHistoryEntry → FileHistoryEntry → Ordering) → List FileHistoryEntry → List FileHistoryEntry
as_it_is order entries = entries

abbrev first : FileHistoryEntry
first = pending_entry_to_history_entry host later

abbrev second : FileHistoryEntry
second = pending_entry_to_history_entry host entry

list_file_history-page_example :
    list_file_history host posix locale_compare as_it_is pending no_commits (record {
      path = text "b.md";
      before = some first.created_at;
      before_id = some first.id;
      limit = none;
    })
    ≡ ok (record {
      entries = take (normalize_page_limit none) (second ∷ []);
      has_more = ltb (normalize_page_limit none) (length (second ∷ []));
    })
unfolding validate_vault_path pending_entries_for_path pending_entry_to_history_entry
    compare_history_entries_desc
list_file_history-page_example =
    list_file_history-page host posix locale_compare as_it_is pending no_commits (text "b.md") none
      [] first (second ∷ []) refl refl ((refl, tt), (tt, tt)) ((9, refl), ((3, refl), tt)) tt
      ((λ same. locale_agrees second.id first.id), tt) (λ e. cc)

abbrev no_show : Text → Text → Option Text
no_show commit_id path = none

read_file_history_version-IsVersionOf_example :
    IsVersionOf host posix pending no_commits no_show
      (text "b.md")
      (text "pending-1")
      (record { entry = second; content = some (text "x") })
      (text "x")
unfolding validate_vault_path read_file_history_version find_pending pending_entry_to_history_entry
read_file_history_version-IsVersionOf_example =
    read_file_history_version-IsVersionOf host posix pending no_commits no_show (text "b.md")
      (text "b.md") (text "pending-1") (text "x")
      (record { entry = second; content = some (text "x") }) refl refl refl

-- Every command prints an object's name, and is counted.
abbrev object_name : Text
object_name = text "0123456789012345678901234567890123456789"

abbrev exec : ℕ → Command → ℕ × Outcome
exec n c = (n + 1, prints object_name)

abbrev same_order : Selected → Selected
same_order selected = selected

abbrev temp_name : Text → Text
temp_name id = id

abbrev history : History ℕ
history = record { world = 0; pending = pending; git_ready = true }

flush_file_history-IsFlush_example :
    (last : ℕ × PendingHistoryMap × Option ℕ) × IsFlush exec host temp_name posix same_order none 0
      pending pending 0 last
    × (flush_file_history exec host temp_name posix same_order none none history ≡ (
      record { world = last.0; pending = last.1; git_ready = true },
      loop_result exec host temp_name posix same_order last.2,
    ))
unfolding select_pending_entries ensure_git_repository
flush_file_history-IsFlush_example =
    flush_file_history-IsFlush exec host temp_name posix same_order none none history (text "k2")
      later ((text "k1", entry) ∷ []) 0 refl refl
