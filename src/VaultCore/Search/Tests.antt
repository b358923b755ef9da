-- ===== src/VaultCore/Search/Tests.antt =====
-- A vault of a few notes, of which some contain the query.
use kb_1_daemon.Prelude.{
  Result, ◌>>=◌, ◌≡◌, refl, ◌≤◌, ◌<◌, ◌⊎◌, true, false, ◌==◌, length, take, drop, trim, arith, ok,
  some, none, List, [], ◌∷◌, Option, Text, text, ◌++◌, if◌then◌else◌,
}
use kb_1_daemon.VaultCore.Nodes.{FsError}
use kb_1_daemon.VaultCore.Path.{is_internal_vault_path, validate_optional_vault_path, posix}
use kb_1_daemon.VaultCore.Search.{
  between, whole, SearchInput, Dirents, no_more, directory, regular_file, other, Found,
  default_search_limit, max_search_limit, clamp_positive_integer, clamp_non_negative_integer,
  is_excluded_search_path, is_markdown_like_path, walk, scan_lines, scan_files,
  collect_searchable_files, search_under, search_result, Walk, from_stat, search_vault_files,
}
use kb_1_daemon.VaultCore.Splice.{index_of}
use kb_1_daemon.VaultCore.Search.Pages.{
  hits_of_files, search_vault_files-page, clamp_positive_integer_lem,
}
use kb_1_daemon.VaultCore.Search.Walks.{IsWalk, walk-IsWalk}

abbrev line_end : Text
line_end = 10 ∷ []

abbrev vault : Dirents
vault =
    regular_file (text "a.md") (text "one" ++ line_end ++ text "two" ++ line_end ++ text "a two") (
      directory (text "trash") (regular_file (text "t.md") (text "two") no_more) (
        directory (text "d") (regular_file (text "b.txt") (text "two") no_more)
          (other (text "link") (regular_file (text "c.png") (text "two") no_more))))

abbrev dirents_at : Text → Result FsError (Option Dirents)
dirents_at path = ok (if length path == 0 then some vault else none)

abbrev same : Text → Text
same s = s

abbrev sorted : List Found → List Found
sorted files = files

-- The second hit alone.
abbrev input : SearchInput
input = record {
  q = text " two";
  under = none;
  context = some (whole 1);
  limit = some (whole 1);
  offset = some (whole 1);
}

search_two :
    search_vault_files posix same sorted dirents_at input
    ≡ ok (record {
      q = text " two";
      under = [];
      limit = 1;
      offset = 1;
      total = 3;
      truncated = false;
      results =
          record {
            path = text "a.md";
            line = 3;
            line_text = text "a two";
            before = text "two" ∷ [];
            after = [];
          }
          ∷ [];
    })
unfolding search_vault_files search_under search_result scan_files scan_lines
    collect_searchable_files walk is_excluded_search_path is_markdown_like_path trim
    validate_optional_vault_path clamp_positive_integer clamp_non_negative_integer
    is_internal_vault_path index_of
search_two = refl

search_vault_files-page_example :
    let hits = λ (found : Walk). hits_of_files same (trim input.q) 1 found.0 in
    search_vault_files posix same sorted dirents_at input
    ≡ from_stat (
        collect_searchable_files posix same sorted dirents_at [] >>= λ found. ok (record {
          q = text " two";
          under = [];
          limit = 1;
          offset = 1;
          total = length (hits found);
          truncated = found.1;
          results = take 1 (drop 1 (hits found));
        }))
unfolding trim validate_optional_vault_path clamp_positive_integer clamp_non_negative_integer
    hits_of_files
search_vault_files-page_example =
    search_vault_files-page posix same sorted dirents_at input none refl refl

clamp_positive_integer_lem_example :
    (clamp_positive_integer (some (between 0)) default_search_limit max_search_limit
      ≤ max_search_limit)
    × ((0 < clamp_positive_integer (some (between 0)) default_search_limit max_search_limit)
        ⊎ (some (between 0) ≡ some (between 0)))
clamp_positive_integer_lem_example =
    clamp_positive_integer_lem (some (between 0)) default_search_limit max_search_limit
      (omega arith) (omega arith)

-- With a cap of one file the walk stops at the first note.
walk_stops : (walk 1 [] vault []).1 ≡ true
unfolding walk is_excluded_search_path is_markdown_like_path is_internal_vault_path
walk_stops = refl

walk-IsWalk_example : IsWalk 2 (walk 2 [] vault [])
walk-IsWalk_example = walk-IsWalk 2 [] vault [] (omega arith) tt
