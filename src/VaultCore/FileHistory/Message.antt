-- ===== src/VaultCore/FileHistory/Message.antt =====
-- The message of a commit, and what is read from it again.
pub mod Trailers
pub mod Readable
pub mod Lines
pub mod Actors
pub mod RoundTrip
use kb_1_daemon.Prelude.{
  ℕ, ◌-◌, Bool, true, false, not, ◌&&◌, ◌||◌, List, [], ◌∷◌, ◌++◌, map, Option, none, some, Text,
  text, text_eq, starts_with, ends_with, includes, split, join, length, take, drop, any, leb, ◌==◌,
  if◌then◌else◌, trim_start,
}
use kb_1_daemon.Tunnel.Relay.Value.{Value, string}
use kb_1_daemon.VaultCore.FileHistory.{
  VaultActor, FileHistoryOperation, FileHistoryEntry, PendingHistoryEntry, Host, operation_text,
  file_history_operation, string_of, actor_value, parse_actor_json, actor_for_contributors, or_text,
  truthy, actor_label,
}

pub record CommitMessage : Type 0 where
  pub subject : Text
  pub body : Text

-- A line `key: value`.
abbrev pub Trailer : Type 0
Trailer = Text × Text

abbrev pub trailer_line : Trailer → Text
trailer_line (key, value) = key ++ text ": " ++ value

abbrev pub line_feed : ℕ
line_feed = 10

abbrev pub carriage_return : ℕ
carriage_return = 13

-- `/[\r\n]/u`
unfoldable pub has_line_break : Text → Bool
has_line_break value = includes carriage_return value || includes line_feed value

module _ (h : Host) where
  unfoldable pub commit_path_display : Text → Text
  unfolding has_line_break
  commit_path_display value = if has_line_break value then h.stringify (string value) else value

  -- `KB1-Path-JSON` and, if the path has no line break, `KB1-Path`; so too for `KB1-From-Path`.
  abbrev pub path_trailers : Text → Text → List Trailer
  path_trailers key path =
      (key ++ text "-JSON", h.stringify (string path))
      ∷ (if has_line_break path then [] else (key, path) ∷ [])

  abbrev pub from_trailers : Option Text → List Trailer
  from_trailers none = []
  from_trailers (some path) = path_trailers (text "KB1-From-Path") path

  abbrev pub format_trailers : Option Text → List Trailer
  format_trailers none = []
  format_trailers (some format) = (text "KB1-Content-Hash-Format", format) ∷ []

  abbrev pub contributor_trailer : VaultActor → Trailer
  contributor_trailer actor = (text "KB1-Contributor", h.stringify (actor_value actor))

  abbrev pub bucket_end : PendingHistoryEntry → Option ℕ → Text
  bucket_end entry none = entry.updated_at
  bucket_end entry (some now) = h.iso now

  abbrev pub trailers : PendingHistoryEntry → Option ℕ → List Trailer
  trailers entry now =
      path_trailers (text "KB1-Path") entry.path
      ++ (from_trailers entry.from_path
          ++ ((text "KB1-Operation", operation_text entry.operation)
              ∷ (text "KB1-History-ID", entry.id)
              ∷ (text "KB1-Bucket-Start", entry.bucket_start)
              ∷ (text "KB1-Bucket-End", bucket_end entry now)
              ∷ (text "KB1-Size", h.decimal entry.size)
              ∷ (text "KB1-Content-SHA256", entry.content_hash)
              ∷ (format_trailers entry.content_hash_format
                  ++ map contributor_trailer entry.contributors)))

  abbrev pub display_from : Option Text → Option Text
  display_from none = none
  display_from (some path) = truthy (some (commit_path_display path))

  abbrev pub from_line : Option Text → List Text
  from_line none = []
  from_line (some path) = (text "From: " ++ path) ∷ []

  -- The lines for a reader.
  abbrev pub preamble : PendingHistoryEntry → Option ℕ → List Text
  preamble entry now =
      (text "Path: " ++ commit_path_display entry.path)
      ∷ (from_line (display_from entry.from_path)
          ++ ((text "Bucket: " ++ entry.bucket_start ++ text " - " ++ bucket_end entry now)
              ∷ []
              ∷ text "Contributors:"
              ∷ (map (λ a. text "- " ++ actor_label a) entry.contributors ++ [] ∷ [])))

  unfoldable pub commit_message : PendingHistoryEntry → Option ℕ → CommitMessage
  unfolding commit_path_display
  commit_message entry now = record {
    subject =
        text "KB-1 history: "
        ++ operation_text entry.operation
        ++ text " "
        ++ commit_path_display entry.path;
    body = join line_feed (preamble entry now ++ map trailer_line (trailers entry now));
  }

-- `[A-Za-z0-9-]`
unfoldable pub is_key_unit : ℕ → Bool
is_key_unit c =
    (leb b'A' c && leb c b'Z')
    || (leb b'a' c && leb c b'z')
    || (leb b'0' c && leb c b'9')
    || c == b'-'

-- The longest key, and what follows it.
unfoldable pub key_part : Text → Text × Text
unfolding is_key_unit
key_part [] = ([], [])
key_part (c ∷ s) =
    let rest = key_part s in if is_key_unit c then (c ∷ rest.0, rest.1) else ([], c ∷ s)

abbrev pub after_key : Text → Text → Option Trailer
after_key [] s = none
after_key (c ∷ key) [] = none
after_key (c ∷ key) (d ∷ s) = if d == b':' then some (text "KB1-" ++ c ∷ key, s) else none

-- `/^(KB1-[A-Za-z0-9-]+):/`: the key and the rest of the line.
unfoldable pub trailer_head : Text → Option Trailer
unfolding key_part
trailer_head line =
    let parts = key_part (drop 4 line) in
    if starts_with (text "KB1-") line then after_key parts.0 parts.1 else none

-- What `.` does not match.
unfoldable pub is_terminator : ℕ → Bool
is_terminator c = c == 10 || c == 13 || c == 8232 || c == 8233

unfoldable pub has_terminator : Text → Bool
unfolding is_terminator
has_terminator s = any is_terminator s

abbrev pub with_value : Option Trailer → Option Trailer
with_value none = none
with_value (some (key, s)) =
    if has_terminator (trim_start s) then none else some (key, trim_start s)

-- `/^(KB1-[A-Za-z0-9-]+):\s*(.*)$/`
unfoldable pub trailer_match : Text → Option Trailer
unfolding trailer_head has_terminator
trailer_match line = with_value (trailer_head line)

abbrev pub is_path_key : Text → Bool
is_path_key key = text_eq key (text "KB1-Path") || text_eq key (text "KB1-From-Path")

-- What a line adds, and the trailer whose value may go on in the next lines.
abbrev pub begin_trailer : Option Trailer → List Trailer × Option Trailer
begin_trailer none = ([], none)
begin_trailer (some (key, value)) =
    if is_path_key key then ([], some (key, value)) else ((key, value) ∷ [], none)

abbrev pub next_trailer : Trailer → List Trailer × Option Trailer → List Trailer × Option Trailer
next_trailer done (found, open_trailer) = (done ∷ found, open_trailer)

abbrev pub go_on : Trailer → Text → Option Trailer → List Trailer × Option Trailer
go_on (key, value) line none = ([], some (key, value ++ line_feed ∷ line))
go_on done line (some found) = next_trailer done (begin_trailer (trailer_match line))

abbrev pub read_line : Option Trailer → Text → List Trailer × Option Trailer
read_line none line = begin_trailer (trailer_match line)
read_line (some done) line = go_on done line (trailer_head line)

abbrev pub last_trailer : Option Trailer → List Trailer
last_trailer none = []
last_trailer (some done) = done ∷ []

unfoldable pub read_lines : Option Trailer → List Text → List Trailer
unfolding trailer_match
read_lines open_trailer [] = last_trailer open_trailer
read_lines open_trailer (line ∷ lines) =
    let s = read_line open_trailer line in s.0 ++ read_lines s.1 lines

unfoldable pub strip_carriage_return : Text → Text
strip_carriage_return line =
    if ends_with (carriage_return ∷ []) line then take (length line - 1) line else line

unfoldable pub commit_values : Text → List Trailer
unfolding read_lines strip_carriage_return
commit_values body = read_lines none (map strip_carriage_return (split line_feed body))

-- `values.get(key)` and `values.getAll(key)`
unfoldable pub value_of : Text → List Trailer → Option Text
value_of key [] = none
value_of key ((k, value) ∷ rest) = if text_eq k key then some value else value_of key rest

unfoldable pub values_of : Text → List Trailer → List Text
values_of key [] = []
values_of key ((k, value) ∷ rest) =
    let later = values_of key rest in if text_eq k key then value ∷ later else later

-- A path is missing, no text, or a text.
pub data PathValue : Type 0 where
  missing malformed : PathValue
  given : Text → PathValue

abbrev pub legacy_path : Option Text → PathValue
legacy_path none = missing
legacy_path (some path) = given path

abbrev pub json_path : Option Value → PathValue
json_path (some (string path)) = given path
json_path _ = malformed

abbrev pub path_value : Host → Option Text → Option Text → PathValue
path_value h (some encoded) legacy = json_path (h.parse encoded)
path_value h none legacy = legacy_path legacy

unfoldable pub commit_path_value : Host → List Trailer → Text → PathValue
commit_path_value h values legacy_key =
    path_value h (value_of (legacy_key ++ text "-JSON") values) (value_of legacy_key values)

abbrev pub keep_actors : List (Option VaultActor) → List VaultActor
keep_actors [] = []
keep_actors (none ∷ actors) = keep_actors actors
keep_actors (some a ∷ actors) = a ∷ keep_actors actors

abbrev pub some_actors : List VaultActor → Option (List VaultActor)
some_actors [] = none
some_actors (a ∷ actors) = some (a ∷ actors)

abbrev pub or_zero : Option ℕ → ℕ
or_zero none = 0
or_zero (some n) = n

abbrev pub size_of : Host → Option Text → ℕ
size_of h none = 0
size_of h (some value) = or_zero (h.number_value value)

abbrev pub committed_entry :
    Host
    → Text
    → Text
    → Text
    → List Trailer
    → List VaultActor
    → FileHistoryOperation
    → FileHistoryEntry
committed_entry h requested_path commit_id committed_at values contributors operation = record {
  id = or_text (value_of (text "KB1-History-ID") values) commit_id;
  path = requested_path;
  operation = operation;
  actor = actor_for_contributors h contributors;
  integration_id = (actor_for_contributors h contributors).client;
  contributors = some_actors contributors;
  pending = false;
  commit_id = some commit_id;
  created_at = or_text (value_of (text "KB1-Bucket-Start") values) committed_at;
  updated_at = or_text (value_of (text "KB1-Bucket-End") values) committed_at;
  size = size_of h (value_of (text "KB1-Size") values);
  content_hash = or_text (value_of (text "KB1-Content-SHA256") values) [];
}

abbrev pub with_operation :
    Host → Text → Text → Text → List Trailer → Option FileHistoryOperation → Option FileHistoryEntry
with_operation h requested_path commit_id committed_at values none = none
with_operation h requested_path commit_id committed_at values (some operation) = some (
    committed_entry h requested_path commit_id committed_at values
      (keep_actors (map (parse_actor_json h) (values_of (text "KB1-Contributor") values)))
      operation)

unfoldable pub entry_from_commit_values :
    Host → Text → Text → Text → List Trailer → Option FileHistoryEntry
entry_from_commit_values h requested_path commit_id committed_at values =
    with_operation h requested_path commit_id committed_at values
      (file_history_operation (or_text (value_of (text "KB1-Operation") values) (text "update")))
