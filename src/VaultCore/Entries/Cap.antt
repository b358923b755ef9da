-- ===== src/VaultCore/Entries/Cap.antt =====
-- The walk against the list of all entries without a cap.
use kb_1_daemon.Prelude.{
  ℕ, ◌+◌, ◌≡◌, sym, ap, ◌∙◌, inl, inr, true, Bool-cases, List, [], ◌∷◌, ◌++◌, append-nil,
  append_assoc, Text, length, length-append, ltb, leb, leb→le, leb-false, ◌<◌, ◌≤◌, if◌then◌else◌,
  Result, ok, ◌>>=◌, arith,
}
use kb_1_daemon.VaultCore.Path.{is_internal_vault_path}
use kb_1_daemon.VaultCore.Search.{child_path}
use kb_1_daemon.VaultCore.Entries.{
  VaultEntry, Rows, no_rows, folder_row, file_row, other_row, EntryCapExceededError, folder_of,
  check_cap, file_of, enter, walk_rows, walk_entries,
}

check_cap-bind :
    (cap : ℕ) (xs ys : List VaultEntry)
    (next : List VaultEntry → Result EntryCapExceededError (List VaultEntry))
    → (length xs < cap → next xs ≡ check_cap cap (xs ++ ys))
    → (check_cap cap xs >>= next) ≡ check_cap cap (xs ++ ys)
check_cap-bind cap xs ys next h = elim (Bool-cases (leb cap (length xs))) [
  | inl e ↦
      let more : leb cap (length (xs ++ ys)) ≡ true =
        (let n : cap ≤ length (xs ++ ys) = omega (arith, leb→le _ _ e, length-append xs ys) in
          ground arith) in
      rw (e, more)
  | inr e ↦ rw e (h (leb-false _ _ e))
]

check_cap-ok : (cap : ℕ) (xs : List VaultEntry) → length xs < cap → ok xs ≡ check_cap cap xs
check_cap-ok cap xs h = ground arith

module _ (lower : Text → Text) (max_depth cap : ℕ) where
  -- All entries that are not internal, folders before what they hold, down to the greatest depth.
  unfoldable pub entries_of : Text → ℕ → Rows → List VaultEntry
  entries_of rel depth no_rows = []
  entries_of rel depth (folder_row name stat inside rest) =
      let path = child_path rel name in
      let below = entries_of path (depth + 1) inside in
      let later = entries_of rel depth rest in
      if is_internal_vault_path path
      then later
      else folder_of path stat ∷ (if ltb max_depth (depth + 1) then [] else below) ++ later
  entries_of rel depth (file_row name stat rest) =
      let path = child_path rel name in
      let later = entries_of rel depth rest in
      if is_internal_vault_path path then later else file_of lower max_depth cap path stat ∷ later
  entries_of rel depth (other_row name rest) = entries_of rel depth rest

  abbrev pub entries_below : Text → ℕ → Rows → List VaultEntry
  entries_below rel depth rows = if ltb max_depth depth then [] else entries_of rel depth rows

  enter_lem :
      (rel : Text) (depth : ℕ) (rows : Rows) (es : List VaultEntry)
      → (length es < cap
          → walk_rows lower max_depth cap rel depth rows es
            ≡ check_cap cap (es ++ entries_of rel depth rows))
      → enter lower max_depth cap depth es (walk_rows lower max_depth cap rel depth rows)
        ≡ check_cap cap (es ++ entries_below rel depth rows)
  enter_lem rel depth rows es h = check_cap-bind cap es (entries_below rel depth rows) _ (λ room.
      elim (Bool-cases (ltb max_depth depth)) [
        | inl e ↦ rw e (check_cap-ok cap es room ∙ ap (check_cap cap) (sym (append-nil es)))
        | inr e ↦ rw e (h room)
      ])

  walk_rows_lem :
      (rel : Text) (depth : ℕ) (rows : Rows) (es : List VaultEntry)
      → length es < cap
      → walk_rows lower max_depth cap rel depth rows es
        ≡ check_cap cap (es ++ entries_of rel depth rows)
  unfolding walk_rows entries_of
  walk_rows_lem rel depth no_rows es h =
      check_cap-ok cap es h ∙ ap (check_cap cap) (sym (append-nil es))
  walk_rows_lem rel depth (folder_row name stat inside rest) es h =
      let path = child_path rel name in
      let here = es ++ folder_of path stat ∷ [] in
      let below = entries_below path (depth + 1) inside in
      let later = entries_of rel depth rest in
      elim (Bool-cases (is_internal_vault_path path)) [
        | inl e ↦ rw e (walk_rows_lem rel depth rest es h)
        | inr e ↦ rw e (
            ap (λ r. r >>= (walk_rows lower max_depth cap rel depth rest))
              (check_cap-bind cap here below _ (λ room.
                enter_lem path (depth + 1) inside here
                  (walk_rows_lem path (depth + 1) inside here)))
            ∙ check_cap-bind cap (here ++ below) later _
                (walk_rows_lem rel depth rest (here ++ below))
            ∙ ap (check_cap cap) (
                append_assoc here below later
                ∙ append_assoc es (folder_of path stat ∷ []) (below ++ later)))
      ]
  walk_rows_lem rel depth (file_row name stat rest) es h =
      let path = child_path rel name in
      let here = es ++ file_of lower max_depth cap path stat ∷ [] in
      let later = entries_of rel depth rest in
      elim (Bool-cases (is_internal_vault_path path)) [
        | inl e ↦ rw e (walk_rows_lem rel depth rest es h)
        | inr e ↦ rw e (
            check_cap-bind cap here later _ (walk_rows_lem rel depth rest here)
            ∙ ap (check_cap cap)
                (append_assoc es (file_of lower max_depth cap path stat ∷ []) later))
      ]
  walk_rows_lem rel depth (other_row name rest) es h = walk_rows_lem rel depth rest es h

-- Whatever stands in the list before, the walk adds all entries below the folder that are not internal, each
-- folder before what it holds, down to the greatest depth, and fails exactly if the cap is reached then.
pub walk_entries_lem :
    (lower : Text → Text) (max_depth cap : ℕ) (rel : Text) (depth : ℕ) (rows : Rows)
    (es : List VaultEntry)
    → walk_entries lower max_depth cap rel depth rows es
      ≡ check_cap cap (es ++ entries_below lower max_depth cap rel depth rows)
unfolding walk_entries
walk_entries_lem lower max_depth cap rel depth rows es =
    enter_lem lower max_depth cap rel depth rows es
      (walk_rows_lem lower max_depth cap rel depth rows es)
