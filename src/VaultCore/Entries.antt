-- ===== src/VaultCore/Entries.antt =====
-- `walkEntries` of packages/vault-core/src/vault-ops.ts: the entries of the vault's tree, up to a depth and a cap.
-- The tree is a value, so `readdir` and `stat` are taken to succeed.
pub mod Cap
pub mod Tree
mod Tests
use kb_1_daemon.Prelude.{
  ℕ, ◌+◌, Bool, true, false, List, [], ◌∷◌, ◌++◌, Option, none, some, Text, length, ltb, leb,
  if◌then◌else◌, Result, ok, err, ◌>>=◌,
}
use kb_1_daemon.VaultCore.Path.{is_internal_vault_path}
use kb_1_daemon.VaultCore.Artifact.{ArtifactInfo, classify_artifact_path}
use kb_1_daemon.VaultCore.Search.{child_path}

pub record Stat : Type 0 where
  pub size : ℕ
  pub mtime_ms : ℕ
  pub ctime_ms : ℕ
  pub ino : ℕ

pub data EntryKind : Type 0 where
  file_entry folder_entry : EntryKind

-- The metadata is attached later.
pub record VaultEntry : Type 0 where
  pub path : Text
  pub kind : EntryKind
  pub size : ℕ
  pub mtime_ms : ℕ
  pub artifact : Option ArtifactInfo
  pub watch_ctime_ms : Option ℕ
  pub watch_ino : Option ℕ

-- What `readdir` and `stat` give, with what is below.
pub data Rows : Type 0 where
  no_rows : Rows
  folder_row : (name : Text) (stat : Stat) (inside : Rows) → Rows → Rows
  file_row : (name : Text) (stat : Stat) → Rows → Rows
  other_row : (name : Text) → Rows → Rows

pub data EntryCapExceededError : Type 0 where
  entry_cap_exceeded : EntryCapExceededError

abbrev pub folder_of : Text → Stat → VaultEntry
folder_of path stat = record {
  path = path;
  kind = folder_entry;
  size = 0;
  mtime_ms = stat.mtime_ms;
  artifact = none;
  watch_ctime_ms = none;
  watch_ino = none;
}

-- `if (entries.length >= cap) throw new EntryCapExceededError()`
abbrev pub check_cap : ℕ → List VaultEntry → Result EntryCapExceededError (List VaultEntry)
check_cap cap entries = if leb cap (length entries) then err entry_cap_exceeded else ok entries

module _ (to_lower_case : Text → Text) (max_depth cap : ℕ) where
  abbrev pub file_of : Text → Stat → VaultEntry
  file_of path stat = record {
    path = path;
    kind = file_entry;
    size = stat.size;
    mtime_ms = stat.mtime_ms;
    artifact = some (classify_artifact_path to_lower_case path);
    watch_ctime_ms = some stat.ctime_ms;
    watch_ino = some stat.ino;
  }

  -- The call for a folder, whose rows are walked by the last argument.
  abbrev pub enter :
      ℕ
      → List VaultEntry
      → (List VaultEntry → Result EntryCapExceededError (List VaultEntry))
      → Result EntryCapExceededError (List VaultEntry)
  enter depth entries walk = check_cap cap entries >>= λ es.
      let walked = walk es in if ltb max_depth depth then ok es else walked

  unfoldable pub walk_rows :
      Text → ℕ → Rows → List VaultEntry → Result EntryCapExceededError (List VaultEntry)
  walk_rows rel depth no_rows entries = ok entries
  walk_rows rel depth (folder_row name stat inside rest) entries =
      let path = child_path rel name in
      let skipped = walk_rows rel depth rest entries in
      let taken =
        check_cap cap (entries ++ folder_of path stat ∷ [])
        >>= (λ es. enter (depth + 1) es (walk_rows path (depth + 1) inside))
        >>= (walk_rows rel depth rest) in
      if is_internal_vault_path path then skipped else taken
  walk_rows rel depth (file_row name stat rest) entries =
      let path = child_path rel name in
      let skipped = walk_rows rel depth rest entries in
      let taken =
        check_cap cap (entries ++ file_of path stat ∷ []) >>= (walk_rows rel depth rest) in
      if is_internal_vault_path path then skipped else taken
  walk_rows rel depth (other_row name rest) entries = walk_rows rel depth rest entries

  unfoldable pub walk_entries :
      Text → ℕ → Rows → List VaultEntry → Result EntryCapExceededError (List VaultEntry)
  walk_entries rel depth rows entries = enter depth entries (walk_rows rel depth rows)
