-- ===== src/VaultCore/FileHistory/Listing.antt =====
-- `listFileHistory`: the versions of a note, pending and committed, the newest first, page by page.
-- `localeCompare` and `sort`, which takes the comparison, are arguments.
-- What `readCommittedHistory` gives for a path is an argument: Committed.antt has it, with rounds that are enough.
pub mod Pages
use Prim.Native.Nat.{compare, Ordering}
use kb_1_daemon.Prelude.{
  ℕ, zero, suc, ◌+◌, min, Bool, true, false, List, [], ◌∷◌, ◌++◌, map, Option, none, some, Text,
  text_eq, length, take, ltb, ◌==◌, if◌then◌else◌, Result, ok, err,
}
use kb_1_daemon.VaultCore.Path.{Platform, file, InvalidPathError, validate_vault_path}
use kb_1_daemon.VaultCore.Search.{Number, whole, between, below_zero, not_finite}
use kb_1_daemon.VaultCore.FileHistory.{FileHistoryEntry, PendingHistoryEntry, Host}
use kb_1_daemon.VaultCore.FileHistory.Committed.{CommittedHistoryRecord}
use kb_1_daemon.VaultCore.FileHistory.Pending.{PendingHistoryMap, pending_entry_to_history_entry}

pub record ListFileHistoryInput : Type 0 where
  pub path : Text
  pub before : Option Text
  pub before_id : Option Text
  pub limit : Option Number

pub record FileHistoryPage : Type 0 where
  pub entries : List FileHistoryEntry
  pub has_more : Bool

abbrev pub default_history_page_limit : ℕ
default_history_page_limit = 50

abbrev pub max_history_page_limit : ℕ
max_history_page_limit = 200

unfoldable pub normalize_page_limit : Option Number → ℕ
normalize_page_limit (some (whole (suc n))) = min (suc n) max_history_page_limit
normalize_page_limit _ = default_history_page_limit

-- `s < t`, by code units.
unfoldable pub text_lt : Text → Text → Bool
text_lt s [] = false
text_lt [] (d ∷ t) = true
text_lt (c ∷ s) (d ∷ t) =
    let later = text_lt s t in if ltb c d then true else if ltb d c then false else later

abbrev pub then_by : Ordering → Ordering → Ordering
then_by Ordering.lt other = Ordering.lt
then_by Ordering.eq other = other
then_by Ordering.gt other = Ordering.gt

-- The difference of two times, where NaN counts as no difference.
abbrev pub time_delta : Option ℕ → Option ℕ → Ordering
time_delta none right = Ordering.eq
time_delta (some t) none = Ordering.eq
time_delta (some t) (some u) = compare t u

module _ (h : Host) where
  module _ (locale_compare : Text → Text → Ordering) where
    unfoldable pub compare_history_entries_desc : FileHistoryEntry → FileHistoryEntry → Ordering
    compare_history_entries_desc left right =
        then_by (time_delta (h.time_of right.created_at) (h.time_of left.created_at))
          (locale_compare right.id left.id)

  abbrev pub is_before_id : Option Text → Text → Bool
  is_before_id none id = false
  is_before_id (some before_id) id = text_lt id before_id

  abbrev pub is_before : ℕ → Option Text → Option ℕ → Text → Bool
  is_before time before_id none id = is_before_id before_id id
  is_before time before_id (some entry_time) id =
      if ltb entry_time time
      then true
      else if ltb time entry_time
      then false
      else is_before_id before_id id

  abbrev pub keep_before : ℕ → Option Text → List FileHistoryEntry → List FileHistoryEntry
  keep_before time before_id [] = []
  keep_before time before_id (e ∷ entries) =
      let later = keep_before time before_id entries in
      if is_before time before_id (h.time_of e.created_at) e.id then e ∷ later else later

  abbrev pub cursor_at : List FileHistoryEntry → Option Text → Option ℕ → List FileHistoryEntry
  cursor_at entries before_id none = entries
  cursor_at entries before_id (some time) = keep_before time before_id entries

  unfoldable pub apply_history_cursor :
      List FileHistoryEntry → Option Text → Option Text → List FileHistoryEntry
  apply_history_cursor entries none before_id = entries
  apply_history_cursor entries (some []) before_id = entries
  apply_history_cursor entries (some (c ∷ before)) before_id =
      cursor_at entries before_id (h.time_of (c ∷ before))

  unfoldable pub pending_entries_for_path : PendingHistoryMap → Text → List FileHistoryEntry
  pending_entries_for_path [] rel = []
  pending_entries_for_path ((key, e) ∷ pending) rel =
      let later = pending_entries_for_path pending rel in
      if text_eq e.path rel then pending_entry_to_history_entry h e ∷ later else later

  abbrev pub page_at : ℕ → List FileHistoryEntry → FileHistoryPage
  page_at limit limited = record {
    entries = take limit limited;
    has_more = ltb (length (take limit limited)) (length limited);
  }

  module _ (platform : Platform) (locale_compare : Text → Text → Ordering)
      (sort : (FileHistoryEntry → FileHistoryEntry → Ordering)
        → List FileHistoryEntry
        → List FileHistoryEntry)
      (pending : PendingHistoryMap) (committed_history : Text → List CommittedHistoryRecord) where
    -- All versions, the newest first.
    abbrev pub newest_first : Text → List FileHistoryEntry
    newest_first rel =
        sort (compare_history_entries_desc locale_compare)
          (pending_entries_for_path pending rel ++ map (λ c. c.entry) (committed_history rel))

    abbrev pub list_if_valid :
        ListFileHistoryInput
        → Result InvalidPathError Text
        → Result InvalidPathError FileHistoryPage
    list_if_valid input (err e) = err e
    list_if_valid input (ok rel) = ok (
        page_at (normalize_page_limit input.limit)
          (apply_history_cursor (newest_first rel) input.before input.before_id))

    unfoldable pub list_file_history :
        ListFileHistoryInput → Result InvalidPathError FileHistoryPage
    list_file_history input = list_if_valid input (validate_vault_path platform input.path file)
