-- ===== src/VaultCore/Search/Walks.antt =====
-- What the walk over the folders collects.
use kb_1_daemon.Prelude.{
  ℕ, ◌<◌, ◌≡◌, refl, ◌⊎◌, inl, inr, Bool, true, false, not, ◌&&◌, &&-true, Bool-cases, List, [],
  ◌∷◌, ◌++◌, Text, length, length-append, All, All-append, leb, leb→le, leb-false, if◌then◌else◌,
  arith,
}
use kb_1_daemon.VaultCore.Search.{
  is_excluded_search_path, is_markdown_like_path, Dirents, no_more, directory, regular_file, other,
  Found, child_path, Walk, add_file, walk,
}

-- Neither in the vault's own folders nor in the trash, and with the extension of a note.
abbrev pub IsSearchable : Found → Type 0
IsSearchable f = (is_excluded_search_path f.path ≡ false) × (is_markdown_like_path f.path ≡ true)

-- Never more files than the cap, and truncated exactly if there are as many.
pub record IsWalk (cap : ℕ) (w : Walk) : Type 0 where
  pub capped : ((w.1 ≡ true) × (length w.0 ≡ cap)) ⊎ ((w.1 ≡ false) × (length w.0 < cap))
  pub searchable : All IsSearchable w.0

go_on :
    (cap : ℕ) (state : Walk) (later : Walk)
    → IsWalk cap state
    → (length state.0 < cap → IsWalk cap later)
    → IsWalk cap (if state.1 then state else later)
go_on cap state later h next = elim h.capped [
  | inl (stop, full) ↦ rw stop (record { capped = inl (refl, full); searchable = h.searchable })
  | inr (on, room) ↦ rw on (next room)
]

stay :
    (cap : ℕ) (files : List Found)
    → length files < cap
    → All IsSearchable files
    → IsWalk cap (files, false)
stay cap files h k = record { capped = inr (refl, h); searchable = k }

not-true : (b : Bool) → not b ≡ true → b ≡ false
not-true b h = ground arith

add_file-IsWalk :
    (cap : ℕ) (f : Found) (files : List Found)
    → length files < cap
    → All IsSearchable files
    → IsSearchable f
    → IsWalk cap (add_file cap f files)
add_file-IsWalk cap f files h k s = record {
  capped = elim (Bool-cases (leb cap (length (files ++ f ∷ [])))) [
    | inl e ↦ inl (e, omega (arith, leb→le _ _ e, length-append files (f ∷ [])))
    | inr e ↦ inr (e, leb-false _ _ e)
  ];
  searchable = All-append IsSearchable files (f ∷ []) k (s, tt);
}

-- The files of a folder, from a list that is below the cap.
pub walk-IsWalk :
    (cap : ℕ) (rel : Text) (d : Dirents) (files : List Found)
    → length files < cap
    → All IsSearchable files
    → IsWalk cap (walk cap rel d files)
unfolding walk
walk-IsWalk cap rel no_more files h k = stay cap files h k
walk-IsWalk cap rel (directory name inside rest) files h k =
    let inner = walk cap (child_path rel name) inside files in
    let state = if is_excluded_search_path (child_path rel name) then (files, false) else inner in
    let state-IsWalk : IsWalk cap state =
      elim (Bool-cases (is_excluded_search_path (child_path rel name))) [
        | inl e ↦ rw e (stay cap files h k)
        | inr e ↦ rw e (walk-IsWalk cap (child_path rel name) inside files h k)
      ] in
    go_on cap state _ state-IsWalk
      (λ room. walk-IsWalk cap rel rest state.0 room state-IsWalk.searchable)
walk-IsWalk cap rel (regular_file name content rest) files h k =
    let path = child_path rel name in
    let f : Found = record { path = path; content = content } in
    let test = not (is_excluded_search_path path) && is_markdown_like_path path in
    let state = if test then add_file cap f files else (files, false) in
    let state-IsWalk : IsWalk cap state = elim (Bool-cases test) [
      | inl e ↦ rw e (
          let both = &&-true (not (is_excluded_search_path path)) (is_markdown_like_path path) e in
          add_file-IsWalk cap f files h k (not-true _ both.0, both.1))
      | inr e ↦ rw e (stay cap files h k)
    ] in
    go_on cap state _ state-IsWalk
      (λ room. walk-IsWalk cap rel rest state.0 room state-IsWalk.searchable)
walk-IsWalk cap rel (other name rest) files h k = walk-IsWalk cap rel rest files h k
