-- ===== src/VaultCore/Search.antt =====
-- packages/vault-core/src/search.ts: the lines of a vault's notes that contain a query. The directory that
-- is searched is a value, `toLocaleLowerCase` and the sort by `localeCompare` are arguments.
pub mod Pages
pub mod Walks
mod Tests
use kb_1_daemon.Prelude.{
  ℕ, zero, suc, ◌+◌, ◌-◌, ◌*◌, ◌^◌, min, Bool, true, false, not, ◌&&◌, ◌||◌, List, [], ◌∷◌, ◌++◌,
  Option, none, some, Text, text, text_eq, trim, split, starts_with, ends_with, length, slice, ltb,
  leb, ◌==◌, if◌then◌else◌, Result, ok, err, ◌>>=◌,
}
use kb_1_daemon.VaultCore.Nodes.{FsError}
use kb_1_daemon.VaultCore.Path.{
  Platform, InvalidPathError, slash, folder, validate_optional_vault_path, is_internal_vault_path,
}
use kb_1_daemon.VaultCore.Splice.{index_of}

-- A number that a client may give: n, a number strictly between n and n + 1, a negative one, or one
-- of Infinity, -Infinity and NaN.
pub data Number : Type 0 where
  whole between : ℕ → Number
  below_zero not_finite : Number

pub record SearchInput : Type 0 where
  pub q : Text
  pub under : Option Text
  pub context : Option Number
  pub limit : Option Number
  pub offset : Option Number

pub record SearchHit : Type 0 where
  pub path : Text
  pub line : ℕ
  pub line_text : Text
  pub before : List Text
  pub after : List Text

pub record SearchResult : Type 0 where
  pub q : Text
  pub under : Text
  pub limit : ℕ
  pub offset : ℕ
  pub total : ℕ
  pub truncated : Bool
  pub results : List SearchHit

abbrev pub default_context_lines : ℕ
default_context_lines = 2

abbrev pub max_context_lines : ℕ
max_context_lines = 5

abbrev pub default_search_limit : ℕ
default_search_limit = 20

abbrev pub max_search_limit : ℕ
max_search_limit = 100

abbrev pub search_entry_cap : ℕ
search_entry_cap = 5000

-- `Number.MAX_SAFE_INTEGER`
abbrev pub max_safe_integer : ℕ
max_safe_integer = 2 ^ 53 - 1

unfoldable pub clamp_positive_integer : Option Number → ℕ → ℕ → ℕ
clamp_positive_integer (some (whole (suc n))) fallback max = min (suc n) max
clamp_positive_integer (some (between n)) fallback max = min n max
clamp_positive_integer _ fallback max = fallback

unfoldable pub clamp_non_negative_integer : Option Number → ℕ → ℕ → ℕ
clamp_non_negative_integer (some (whole n)) fallback max = min n max
clamp_non_negative_integer (some (between n)) fallback max = min n max
clamp_non_negative_integer _ fallback max = fallback

unfoldable pub is_excluded_search_path : Text → Bool
is_excluded_search_path path =
    is_internal_vault_path path || text_eq path (text "trash") || starts_with (text "trash/") path

unfoldable pub is_markdown_like_path : Text → Bool
is_markdown_like_path path =
    ends_with (text ".md") path || ends_with (text ".markdown") path || ends_with (text ".txt") path

-- What `readdir` lists, with what is below.
pub data Dirents : Type 0 where
  no_more : Dirents
  directory : (name : Text) (inside : Dirents) → Dirents → Dirents
  regular_file : (name content : Text) → Dirents → Dirents
  other : (name : Text) → Dirents → Dirents

-- A file that is searched, with its content.
pub record Found : Type 0 where
  pub path : Text
  pub content : Text

-- `path.posix.join` of a path that is normalised and a name
abbrev pub child_path : Text → Text → Text
child_path [] name = name
child_path (c ∷ rel) name = c ∷ rel ++ slash ∷ name

-- The files so far, and whether there are as many as the cap.
abbrev pub Walk : Type 0
Walk = List Found × Bool

abbrev pub add_file : ℕ → Found → List Found → Walk
add_file cap f files = (files ++ f ∷ [], leb cap (length (files ++ f ∷ [])))

unfoldable pub walk : ℕ → Text → Dirents → List Found → Walk
unfolding is_excluded_search_path is_markdown_like_path
walk cap rel no_more files = (files, false)
walk cap rel (directory name inside rest) files =
    let inner = walk cap (child_path rel name) inside files in
    let state = if is_excluded_search_path (child_path rel name) then (files, false) else inner in
    let later = walk cap rel rest state.0 in if state.1 then state else later
walk cap rel (regular_file name content rest) files =
    let path = child_path rel name in
    let state =
      if not (is_excluded_search_path path) && is_markdown_like_path path
      then add_file cap (record { path = path; content = content }) files
      else (files, false) in
    let later = walk cap rel rest state.0 in if state.1 then state else later
walk cap rel (other name rest) files = walk cap rel rest files

-- What was counted and kept so far.
pub record Page : Type 0 where
  pub total : ℕ
  pub results : List SearchHit

abbrev pub count_hit : ℕ → ℕ → SearchHit → Page → Page
count_hit limit offset hit p = record {
  total = p.total + 1;
  results =
      if ltb p.total offset || leb limit (length p.results)
      then p.results
      else p.results ++ hit ∷ [];
}

-- `s.includes(needle)`
abbrev pub contains : Text → Text → Bool
contains needle s = elim (index_of needle s) [ none ↦ false | some i ↦ true ]

module _ (to_lower_case : Text → Text) (lower_query : Text) where
  abbrev pub is_hit : Text → Bool
  is_hit line_text = contains lower_query (to_lower_case line_text)

  abbrev pub hit_at : Text → List Text → ℕ → ℕ → Text → SearchHit
  hit_at path lines context index line_text = record {
    path = path;
    line = index + 1;
    line_text = line_text;
    before = slice lines (index - context) index;
    after = slice lines (index + 1) (index + 1 + context);
  }

  -- The loop over the lines of a file, from the line `index`.
  unfoldable pub scan_lines : Text → List Text → ℕ → ℕ → ℕ → ℕ → List Text → Page → Page
  scan_lines path lines context limit offset index [] page = page
  scan_lines path lines context limit offset index (line_text ∷ rest) page =
      scan_lines path lines context limit offset (index + 1) rest (
        if is_hit line_text
        then count_hit limit offset (hit_at path lines context index line_text) page
        else page)

  -- The loop over the files.
  unfoldable pub scan_files : ℕ → ℕ → ℕ → List Found → Page → Page
  unfolding scan_lines
  scan_files context limit offset [] page = page
  scan_files context limit offset (f ∷ files) page =
      let lines = split 10 f.content in
      scan_files context limit offset files
        (scan_lines f.path lines context limit offset 0 lines page)

abbrev pub empty_page : Page
empty_page = record { total = 0; results = [] }

abbrev pub or_root : Option Text → Text
or_root none = []
or_root (some under) = under

-- `validateOptionalVaultPath` throws, or `stat` does.
pub data SearchFailure : Type 0 where
  invalid : InvalidPathError → SearchFailure
  stat_throws : FsError → SearchFailure

abbrev pub from_stat : {A : Type 0} → Result FsError A → Result SearchFailure A
from_stat (err e) = err (stat_throws e)
from_stat (ok a) = ok a

abbrev pub no_dirents : Option Dirents → Dirents
no_dirents none = no_more
no_dirents (some d) = d

module _ (platform : Platform) (to_lower_case : Text → Text) (sort : List Found → List Found)
    (dirents_at : Text → Result FsError (Option Dirents)) where
  abbrev pub sorted_walk : Text → Dirents → Walk
  sorted_walk under dirents = let w = walk search_entry_cap under dirents [] in (sort w.0, w.1)

  -- A folder that is not there has no files. For a path below a file, `stat` throws.
  unfoldable pub collect_searchable_files : Text → Result FsError Walk
  unfolding walk
  collect_searchable_files under =
      dirents_at under >>= λ found. ok (sorted_walk under (no_dirents found))

  abbrev pub limit_of : SearchInput → ℕ
  limit_of input = clamp_positive_integer input.limit default_search_limit max_search_limit

  abbrev pub offset_of : SearchInput → ℕ
  offset_of input = clamp_non_negative_integer input.offset 0 max_safe_integer

  abbrev pub context_of : SearchInput → ℕ
  context_of input =
      clamp_non_negative_integer input.context default_context_lines max_context_lines

  abbrev pub no_results : SearchInput → SearchResult
  no_results input = record {
    q = input.q;
    under = [];
    limit = limit_of input;
    offset = offset_of input;
    total = 0;
    truncated = false;
    results = [];
  }

  unfoldable pub search_result : SearchInput → Text → Walk → SearchResult
  unfolding scan_files
  search_result input under w =
      let page =
        scan_files to_lower_case (to_lower_case (trim input.q)) (context_of input) (limit_of input)
          (offset_of input) w.0 empty_page in
      record {
        q = input.q;
        under = under;
        limit = limit_of input;
        offset = offset_of input;
        total = page.total;
        truncated = w.1;
        results = page.results;
      }

  unfoldable pub search_under : SearchInput → Text → Result SearchFailure SearchResult
  unfolding collect_searchable_files search_result
  search_under input under =
      from_stat (collect_searchable_files under >>= λ w. ok (search_result input under w))

  abbrev pub with_under :
      SearchInput → Result InvalidPathError (Option Text) → Result SearchFailure SearchResult
  with_under input (err e) = err (invalid e)
  with_under input (ok under) = search_under input (or_root under)

  unfoldable pub search_vault_files : SearchInput → Result SearchFailure SearchResult
  unfolding search_under
  search_vault_files input =
      if length (trim input.q) == 0
      then ok (no_results input)
      else with_under input (validate_optional_vault_path platform input.under folder)
