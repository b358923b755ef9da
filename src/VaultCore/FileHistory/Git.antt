-- ===== src/VaultCore/FileHistory/Git.antt =====
-- What the history asks of Git and of the file system. A command changes a world W and has an outcome, both
-- given by an argument; paths are below the vault's root.
use kb_1_daemon.Prelude.{
  ℕ, Bool, true, false, ◌&&◌, ◌||◌, List, [], ◌∷◌, ◌++◌, Option, none, some, Text, text, trim,
  length, utf8_length, all, leb, ◌==◌, if◌then◌else◌,
}
use kb_1_daemon.VaultCore.FileHistory.{PendingHistoryEntry, Host}
use kb_1_daemon.VaultCore.FileHistory.Message.{commit_message}

pub data Command : Type 0 where
  run_git : List Text → Command
  mkdir_path rm_path stat_path : Text → Command
  write_path : Text → Text → Command

-- What is printed, the code of a program that fails, or another failure.
pub data Outcome : Type 0 where
  prints : Text → Outcome
  exits : ℕ → Outcome
  breaks : Outcome

-- Actions that may throw: the world that they leave, and a value if they do not throw.
abbrev pub Io : Type 0 → Type 0 → Type 0
Io W A = W → W × Option A

abbrev pub carry : {W A B : Type 0} → W × Option A → (A → Io W B) → W × Option B
carry (w, none) next = (w, none)
carry (w, some a) next = next a w

infixl 5 ◌>>=◌ ◌>>◌
abbrev pub ◌>>=◌ : {W A B : Type 0} → Io W A → (A → Io W B) → Io W B
◌>>=◌ act next w = carry (act w) next

abbrev pub ◌>>◌ : {W A B : Type 0} → Io W A → Io W B → Io W B
act >> next = act >>= λ _. next

abbrev pub give : {W A : Type 0} → A → Io W A
give a w = (w, some a)

abbrev pub throw : {W A : Type 0} → Io W A
throw w = (w, none)

abbrev pub clean_up : {W A : Type 0} → W × Option A → Io W (Unit {0}) → W × Option A
clean_up (w, result) last = carry (last w) (λ _ w. (w, result))

-- `try { act } finally { last }`
abbrev pub finally : {W A : Type 0} → Io W A → Io W (Unit {0}) → Io W A
finally act last w = clean_up (act w) last

abbrev pub outcome_text : {W : Type 0} → W × Outcome → W × Option Text
outcome_text (w, prints s) = (w, some s)
outcome_text (w, exits code) = (w, none)
outcome_text (w, breaks) = (w, none)

-- `true` for what is there, as `stat` with a `catch` around it.
abbrev pub outcome_there : {W : Type 0} → W × Outcome → W × Option Bool
outcome_there (w, prints s) = (w, some true)
outcome_there (w, exits code) = (w, some false)
outcome_there (w, breaks) = (w, some false)

-- `diff --quiet` exits with 1 if there are changes.
abbrev pub outcome_changed : {W : Type 0} → W × Outcome → W × Option Bool
outcome_changed (w, prints s) = (w, some false)
outcome_changed (w, exits code) = if code == 1 then (w, some true) else (w, none)
outcome_changed (w, breaks) = (w, none)

abbrev pub outcome_ready : {W : Type 0} → W × Option (Unit {0}) → W × Bool
outcome_ready (w, none) = (w, false)
outcome_ready (w, some done) = (w, true)

abbrev pub gitignore_relative_path : Text
gitignore_relative_path = text ".gitignore"

abbrev pub temp_dir : Text
temp_dir = text ".kb1/tmp/file-history"

abbrev pub history_index_relative_path : Text
history_index_relative_path = text ".kb1/history-index"

abbrev pub git_blob_content_hash_format : Text
git_blob_content_hash_format = text "git-blob-v1"

abbrev pub default_gitignore : Text
default_gitignore =
    text "# Managed by KB-1 daemon history."
    ++ 10 ∷ text ".kb1/cache/"
    ++ 10 ∷ text ".kb1/runtime/"
    ++ 10 ∷ text ".kb1/tmp/"
    ++ 10 ∷ []

abbrev pub is_hex_unit : ℕ → Bool
is_hex_unit c = (leb b'0' c && leb c b'9') || (leb b'a' c && leb c b'f')

-- `/^[0-9a-f]{40,64}$/u`
unfoldable pub is_blob_id : Text → Bool
is_blob_id s = leb 40 (length s) && leb (length s) 64 && all is_hex_unit s

module _ {W : Type 0} (exec : W → Command → W × Outcome) (h : Host) (random_id : Text → Text) where
  abbrev pub command : Command → Io W Text
  command c w = outcome_text (exec w c)

  abbrev pub has_git_repository : Io W Bool
  has_git_repository w = outcome_there (exec w (stat_path (text ".git")))

  abbrev pub has_staged_changes : List Text → Io W Bool
  has_staged_changes paths w =
      outcome_changed
        (exec w (run_git (text "diff" ∷ text "--cached" ∷ text "--quiet" ∷ text "--" ∷ paths)))

  abbrev pub init_unless : Bool → Io W (Unit {0})
  init_unless true = give tt
  init_unless false = do command (run_git (text "init" ∷ [])); give tt

  abbrev pub write_unless : Bool → Io W (Unit {0})
  write_unless true = give tt
  write_unless false = do command (write_path gitignore_relative_path default_gitignore); give tt

  unfoldable pub write_default_gitignore : Io W (Unit {0})
  write_default_gitignore w =
      carry (outcome_there (exec w (stat_path gitignore_relative_path))) write_unless

  unfoldable pub init_git_repository : Io W (Unit {0})
  unfolding write_default_gitignore
  init_git_repository = do
    command (mkdir_path [])
    has ← has_git_repository
    init_unless has
    write_default_gitignore
    command (run_git (text "config" ∷ text "user.name" ∷ text "KB-1 Daemon" ∷ []))
    command (run_git (text "config" ∷ text "user.email" ∷ text "history@kb-1.ai" ∷ []))
    command (run_git (text "config" ∷ text "commit.gpgsign" ∷ text "false" ∷ []))
    give tt

  -- `ready` says whether an earlier call succeeded; what is thrown is caught.
  unfoldable pub ensure_git_repository : Bool → W → W × Bool
  unfolding init_git_repository
  ensure_git_repository ready w = if ready then (w, true) else outcome_ready (init_git_repository w)

  abbrev pub marker_path : Text → Text
  marker_path note_path = history_index_relative_path ++ text "/" ++ h.hash_content note_path

  abbrev pub temp_path : PendingHistoryEntry → Text
  temp_path entry = temp_dir ++ text "/" ++ random_id entry.id

  abbrev pub check_blob_id : Text → Io W Text
  check_blob_id blob_id = if is_blob_id blob_id then give blob_id else throw

  abbrev pub unstage_previous : Option Text → Io W (Unit {0})
  unstage_previous none = give tt
  unstage_previous (some from) = do
    command (rm_path (marker_path from))
    command (
        run_git (
          text "rm"
          ∷ text "--cached"
          ∷ text "--ignore-unmatch"
          ∷ text "--"
          ∷ from
          ∷ marker_path from
          ∷ []))
    give tt

  unfoldable pub stage_content : PendingHistoryEntry → Io W (Unit {0})
  stage_content entry = do
    command (write_path (temp_path entry) entry.content)
    printed ← command (
        run_git
          (text "hash-object" ∷ text "-w" ∷ (text "--path=" ++ entry.path) ∷ temp_path entry ∷ []))
    blob_id ← check_blob_id (trim printed)
    unstage_previous entry.from_path
    command (
        run_git (
          text "update-index"
          ∷ text "--add"
          ∷ text "--cacheinfo"
          ∷ text "100644"
          ∷ blob_id
          ∷ entry.path
          ∷ []))
    command (mkdir_path history_index_relative_path)
    command (write_path (marker_path entry.path) (entry.id ++ 10 ∷ []))
    command (run_git (text "add" ∷ text "--force" ∷ text "--" ∷ marker_path entry.path ∷ []))
    give tt

  abbrev pub remove_temp : PendingHistoryEntry → Io W (Unit {0})
  remove_temp entry = do command (rm_path (temp_path entry)); give tt

  unfoldable pub stage_pending_entry : PendingHistoryEntry → Io W (Unit {0})
  unfolding stage_content
  stage_pending_entry entry = do
    command (mkdir_path temp_dir)
    finally (stage_content entry) (remove_temp entry)

  unfoldable pub commit_history_entry : PendingHistoryEntry → Option ℕ → Io W (Unit {0})
  commit_history_entry entry now =
      let m = commit_message h entry now in
      do
        command (run_git (text "commit" ∷ text "-m" ∷ m.subject ∷ text "-m" ∷ m.body ∷ []))
        give tt

  abbrev pub add_gitignore : Io W Text
  add_gitignore = command (run_git (text "add" ∷ text "--" ∷ gitignore_relative_path ∷ []))

  -- The entry with the size and the hash of what is staged.
  abbrev pub staged_entry : PendingHistoryEntry → Text → PendingHistoryEntry
  staged_entry entry staged = record entry {
    size = utf8_length staged;
    content_hash = h.hash_content staged;
    content_hash_format = some git_blob_content_hash_format;
  }

  unfoldable pub commit_pending_entry : PendingHistoryEntry → Option ℕ → Io W (Unit {0})
  unfolding stage_pending_entry commit_history_entry
  commit_pending_entry entry now = do
    stage_pending_entry entry
    add_gitignore
    staged ←
        command (run_git (text "show" ∷ text "--no-textconv" ∷ (text ":0:" ++ entry.path) ∷ []))
    commit_history_entry (staged_entry entry staged) now
