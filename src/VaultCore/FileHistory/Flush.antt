-- ===== src/VaultCore/FileHistory/Flush.antt =====
-- `flushFileHistory`, `moveFileHistory` and `moveFolderHistory`: pending versions become commits.
-- The sort by time is an argument.
pub mod Commits
use kb_1_daemon.Prelude.{
  ℕ, ◌+◌, Bool, true, false, not, ◌&&◌, List, [], ◌∷◌, ◌++◌, map, Option, none, some, Text, text,
  text_eq, length, any, join, split, ◌==◌, if◌then◌else◌, Result, ok, err,
}
use mathlib.Core.List.{reverse}
use kb_1_daemon.VaultCore.Path.{
  Platform, VaultPathKind, file, folder, slash, InvalidPathError, validate_vault_path,
}
use kb_1_daemon.VaultCore.FileHistory.{
  VaultActor, FileHistoryOperation, move, rename, FileHistoryEntry, PendingHistoryEntry, Host,
}
use kb_1_daemon.VaultCore.FileHistory.Pending.{
  PendingHistoryMap, set_pending, delete_pending, RecordFileHistoryInput, WindowMs, milliseconds,
  or_unknown, record_file_history,
}
use kb_1_daemon.VaultCore.FileHistory.Git.{
  Command, run_git, Outcome, Io, carry, ◌>>=◌, ◌>>◌, give, gitignore_relative_path, command,
  has_staged_changes, ensure_git_repository, commit_pending_entry, commit_history_entry,
}

-- How a call ends: with a value, with the answer that a path is invalid, or with what it throws.
pub data Ended (A : Type 0) : Type 0 where
  value : A → Ended A
  refuses throws_path : InvalidPathError → Ended A
  throws_git : Ended A

pub data Flushed : Type 0 where
  flushed : ℕ → Flushed
  unavailable : Flushed

pub record History (W : Type 0) : Type 0 where
  pub world : W
  pub pending : PendingHistoryMap
  pub git_ready : Bool

abbrev pub Selected : Type 0
Selected = List (Text × PendingHistoryEntry)

unfoldable pub validate_all : Platform → List Text → Result InvalidPathError (List Text)
validate_all platform [] = ok []
validate_all platform (path ∷ paths) = elim (validate_vault_path platform path file) [
  | err e ↦ err e
  | ok rel ↦ elim (validate_all platform paths) [ err e ↦ err e | ok rels ↦ ok (rel ∷ rels) ]
]

abbrev pub is_selected : Option (List Text) → PendingHistoryEntry → Bool
is_selected none entry = true
is_selected (some paths) entry = any (text_eq entry.path) paths

abbrev pub keep_selected : Option (List Text) → PendingHistoryMap → Selected
keep_selected paths [] = []
keep_selected paths ((key, entry) ∷ pending) =
    let later = keep_selected paths pending in
    if is_selected paths entry then (key, entry) ∷ later else later

-- `path.posix.dirname` of a relative path.
unfoldable pub posix_dirname : Text → Text
posix_dirname path = elim (reverse (split slash path)) [
  | [] ↦ text "."
  | ◌∷◌ last parents ↦ elim parents [ [] ↦ text "." | ◌∷◌ p ps ↦ join slash (reverse (p ∷ ps)) ]
]

unfoldable pub move_operation_for_paths : Text → Text → FileHistoryOperation
unfolding posix_dirname
move_operation_for_paths from to =
    if text_eq (posix_dirname from) (posix_dirname to) then rename else move

abbrev pub checked_paths :
    Platform → Option (List Text) → Result InvalidPathError (Option (List Text))
checked_paths platform none = ok none
checked_paths platform (some paths) = elim (validate_all platform paths) [
  | err e ↦ err e
  | ok rels ↦ ok (some rels)
]

module _ {W : Type 0} (exec : W → Command → W × Outcome) (h : Host) (random_id : Text → Text)
    (platform : Platform) (sort : Selected → Selected) where
  unfoldable pub select_pending_entries :
      PendingHistoryMap → Option (List Text) → Result InvalidPathError Selected
  unfolding validate_all
  select_pending_entries pending paths = elim (checked_paths platform paths) [
    | err e ↦ err e
    | ok checked ↦ ok (sort (keep_selected checked pending))
  ]

  -- What is left of the pending versions when the loop ends or throws, and the count.
  abbrev pub LoopEnd : Type 0
  LoopEnd = W × PendingHistoryMap × Option ℕ

  abbrev pub after_commit : W × Option (Unit {0}) → PendingHistoryMap → (W → LoopEnd) → LoopEnd
  after_commit (w, none) pending again = (w, pending, none)
  after_commit (w, some done) pending again = again w

  unfoldable pub flush_loop : Option ℕ → Selected → ℕ → PendingHistoryMap → W → LoopEnd
  flush_loop now [] count pending w = (w, pending, some count)
  flush_loop now ((key, entry) ∷ selected) count pending w =
      after_commit (commit_pending_entry exec h random_id entry now w) pending
        (flush_loop now selected (count + 1) (delete_pending key pending))

  abbrev pub loop_result : Option ℕ → Ended Flushed
  loop_result none = throws_git
  loop_result (some count) = value (flushed count)

  abbrev pub ended_loop : LoopEnd → History W × Ended Flushed
  ended_loop (w, pending, count) =
      (record { world = w; pending = pending; git_ready = true }, loop_result count)

  abbrev pub flush_if_ready :
      Option ℕ → Selected → PendingHistoryMap → W × Bool → History W × Ended Flushed
  flush_if_ready now selected pending (w, false) =
      (record { world = w; pending = pending; git_ready = false }, value unavailable)
  flush_if_ready now selected pending (w, true) = ended_loop (flush_loop now selected 0 pending w)

  abbrev pub flush_selected :
      Option ℕ → History W → Result InvalidPathError Selected → History W × Ended Flushed
  flush_selected now s (err e) = (s, throws_path e)
  flush_selected now s (ok []) = (s, value (flushed 0))
  flush_selected now s (ok (e ∷ selected)) =
      flush_if_ready now (e ∷ selected) s.pending
        (ensure_git_repository exec h random_id s.git_ready s.world)

  unfoldable pub flush_file_history :
      Option (List Text) → Option ℕ → History W → History W × Ended Flushed
  flush_file_history paths now s = flush_selected now s (select_pending_entries s.pending paths)

  -- The first pending version of the path with the id is marked with where it comes from.
  unfoldable pub mark_from : Text → Text → Text → PendingHistoryMap → PendingHistoryMap
  mark_from to id from [] = []
  mark_from to id from ((key, entry) ∷ pending) =
      let later = mark_from to id from pending in
      if text_eq entry.path to && text_eq entry.id id
      then (key, record entry { from_path = some from }) ∷ pending
      else (key, entry) ∷ later

  abbrev pub with_flush :
      FileHistoryEntry → History W × Ended Flushed → History W × Ended FileHistoryEntry
  with_flush recorded (s, value v) = (s, value recorded)
  with_flush recorded (s, refuses e) = (s, refuses e)
  with_flush recorded (s, throws_path e) = (s, throws_path e)
  with_flush recorded (s, throws_git) = (s, throws_git)

  abbrev pub flush_moved :
      Text
      → Text
      → ℕ
      → History W
      → PendingHistoryMap × Result InvalidPathError FileHistoryEntry
      → History W × Ended FileHistoryEntry
  flush_moved from to now s (pending, err e) = (record s { pending = pending }, refuses e)
  flush_moved from to now s (pending, ok recorded) = with_flush recorded (
      flush_file_history (some (to ∷ [])) (some now)
        (record s { pending = mark_from to recorded.id from pending }))

  abbrev pub both_paths : VaultPathKind → Text → Text → Result InvalidPathError (Text × Text)
  both_paths kind from to = elim (validate_vault_path platform from kind) [
    | err e ↦ err e
    | ok a ↦ elim (validate_vault_path platform to kind) [ err e ↦ err e | ok b ↦ ok (a, b) ]
  ]

  abbrev pub move_recorded :
      RecordFileHistoryInput
      → History W
      → Result InvalidPathError (Text × Text)
      → History W × Ended FileHistoryEntry
  move_recorded input s (err e) = (s, refuses e)
  move_recorded input s (ok (from, to)) = flush_moved from to input.now s (
      record_file_history h platform
        (record input {
          path = to;
          operation = move_operation_for_paths from to;
          coalesce_window_ms = some (milliseconds 0);
        })
        s.pending)

  -- The input has the path that the note is moved to.
  unfoldable pub move_file_history :
      Text → RecordFileHistoryInput → History W → History W × Ended FileHistoryEntry
  unfolding flush_file_history mark_from
  move_file_history from_path input s = move_recorded input s (both_paths file from_path input.path)

  -- The entry that stands for the move of a folder.
  abbrev pub folder_move : Text → Text → Option VaultActor → ℕ → PendingHistoryEntry
  folder_move from to actor now = record {
    id = text "folder-move-" ++ random_id to;
    path = to;
    from_path = some from;
    operation = move;
    bucket_start = h.iso now;
    created_at = h.iso now;
    updated_at = h.iso now;
    content = [];
    size = 0;
    content_hash = [];
    content_hash_format = none;
    contributors = or_unknown actor ∷ [];
  }

  abbrev pub commit_if_changed : Text → Text → Option VaultActor → ℕ → Bool → Io W ℕ
  commit_if_changed from to actor now false = give 0
  commit_if_changed from to actor now true = do
    command exec h random_id (run_git (text "add" ∷ text "--" ∷ gitignore_relative_path ∷ []))
    commit_history_entry exec h random_id (folder_move from to actor now) (some now)
    give 1

  unfoldable pub stage_folder_move : Text → Text → Option VaultActor → ℕ → Io W ℕ
  stage_folder_move from to actor now = do
    command exec h random_id (
        run_git (
          text "rm"
          ∷ text "-r"
          ∷ text "--cached"
          ∷ text "--ignore-unmatch"
          ∷ text "--"
          ∷ from
          ∷ []))
    command exec h random_id (run_git (text "add" ∷ text "-A" ∷ text "--" ∷ to ∷ []))
    changed ← has_staged_changes exec h random_id (from ∷ to ∷ [])
    commit_if_changed from to actor now changed

  abbrev pub ended_move : PendingHistoryMap → W × Option ℕ → History W × Ended Flushed
  ended_move pending (w, count) =
      (record { world = w; pending = pending; git_ready = true }, loop_result count)

  abbrev pub move_if_ready :
      Text → Text → Option VaultActor → ℕ → PendingHistoryMap → W × Bool → History W × Ended Flushed
  move_if_ready from to actor now pending (w, false) =
      (record { world = w; pending = pending; git_ready = false }, value unavailable)
  move_if_ready from to actor now pending (w, true) =
      ended_move pending (stage_folder_move from to actor now w)

  abbrev pub move_folder_if_valid :
      Option VaultActor
      → ℕ
      → History W
      → Result InvalidPathError (Text × Text)
      → History W × Ended Flushed
  move_folder_if_valid actor now s (err e) = (s, refuses e)
  move_folder_if_valid actor now s (ok (from, to)) =
      move_if_ready from to actor now s.pending
        (ensure_git_repository exec h random_id s.git_ready s.world)

  unfoldable pub move_folder_history :
      Text → Text → Option VaultActor → ℕ → History W → History W × Ended Flushed
  unfolding stage_folder_move
  move_folder_history from_path to_path actor now s =
      move_folder_if_valid actor now s (both_paths folder from_path to_path)
