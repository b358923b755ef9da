-- ===== src/VaultCore/Metadata/Moves.antt =====
-- What a path has after `moveFolderMetadataSubtree`, told by where the path lies.
use kb_1_daemon.Prelude.{
  ◌≡◌, refl, sym, ◌∙◌, ◌⊎◌, inl, inr, Bool, true, false, ◌||◌, Option-cases, [], ◌∷◌, ◌++◌, Option,
  none, some, Text, text_eq, text_eq→eq, arith, if◌then◌else◌,
}
use kb_1_daemon.VaultCore.Path.{slash, relative_descendant_path}
use kb_1_daemon.VaultCore.Metadata.{
  FolderMetadata, FolderMetadataMap, metadata_of, is_within, join_rest,
  move_folder_metadata_subtree,
}
use kb_1_daemon.VaultCore.Metadata.Subtrees.{
  IsUnique, IsBare, AllBare, below_self, below_join, join-below, not_within, chosen_key,
  moved_key_lem, via, metadata_of-moved_key,
}

-- The path is the folder or lies in it.
abbrev pub IsUnder : Text → Text → Type 0
IsUnder folder p = (p ≡ folder) ⊎ ((rest : Text) × (p ≡ folder ++ slash ∷ rest))

not-IsUnder :
    (folder p : Text) → IsBare p → relative_descendant_path folder p ≡ none → ¬ IsUnder folder p
not-IsUnder folder p bare e (inl same) =
    let found : relative_descendant_path folder p ≡ some [] = rw same (below_self folder) in
    let no : none ≡ some [] = sym e ∙ found in cc
not-IsUnder folder p bare e (inr ([], same)) = bare folder same
not-IsUnder folder p bare e (inr (c ∷ rest, same)) =
    let found : relative_descendant_path folder p ≡ some (c ∷ rest) =
      rw same (below_join folder (c ∷ rest)) in
    let no : none ≡ some (c ∷ rest) = sym e ∙ found in cc

joined-IsUnder : (folder p rest : Text) → join_rest folder rest ≡ p → IsUnder folder p
joined-IsUnder folder p [] e = inl (sym e)
joined-IsUnder folder p (c ∷ rest) e = inr (c ∷ rest, sym e)

within-IsUnder :
    (folder p : Text)
    → IsBare p
    → (text_eq p folder || is_within folder p) ≡ true
    → IsUnder folder p
unfolding is_within
within-IsUnder folder p bare e = elim (Option-cases (relative_descendant_path folder p)) [
  | inr (rest, f) ↦ joined-IsUnder folder p rest (join-below folder p rest bare f)
  | inl f ↦
      let no : is_within folder p ≡ false = rw (f, is_within) refl in
      inl (text_eq→eq p folder (ground arith))
]

module _ (from to p : Text) (m : FolderMetadataMap) where
  -- What the path has after the move, if `found` is it.
  abbrev pub IsMoved : Option FolderMetadata → Type 0
  IsMoved found =
      ((p ≡ to) × (found ≡ metadata_of from m))
      ⊎ ((rest : Text) × (p ≡ to ++ slash ∷ rest) × (found ≡ metadata_of (from ++ slash ∷ rest) m))
      ⊎ ((¬ IsUnder to p) × IsUnder from p × (found ≡ none))
      ⊎ ((¬ IsUnder to p) × (¬ IsUnder from p) × (found ≡ metadata_of p m))

  in-IsMoved :
      (rest : Text) → join_rest to rest ≡ p → IsMoved (via (chosen_key from p (some rest)) m)
  in-IsMoved [] e = inl (sym e, refl)
  in-IsMoved (c ∷ rest) e = inr (inl (c ∷ rest, sym e, refl))

  out-IsMoved :
      (hit : Bool)
      → IsBare p
      → ¬ IsUnder to p
      → (text_eq p from || is_within from p) ≡ hit
      → IsMoved (via (if hit then none else some p) m)
  out-IsMoved true bare away e = inr (inr (inl (away, within-IsUnder from p bare e, refl)))
  out-IsMoved false bare away e =
      inr (inr (inr (away, not-IsUnder from p bare (not_within from p e), refl)))

  chosen-IsMoved :
      (o : Option Text)
      → IsBare p
      → relative_descendant_path to p ≡ o
      → IsMoved (via (chosen_key from p o) m)
  chosen-IsMoved none bare e = out-IsMoved _ bare (not-IsUnder to p bare e) refl
  chosen-IsMoved (some rest) bare e = in-IsMoved rest (join-below to p rest bare e)

-- In a map with every key once, of keys that like the path do not end with a slash, after a folder is
-- moved: the target has the metadata that the folder had, a path in the target has what the path with the same
-- rest in the folder had, the folder and the paths in it have none unless they are the target or in it, and
-- every other path has what it had.
pub metadata_of-move :
    (from to p : Text) (m : FolderMetadataMap)
    → IsBare p
    → AllBare m
    → IsUnique m
    → IsMoved from to p m (metadata_of p (move_folder_metadata_subtree m from to))
metadata_of-move from to p m bare h u =
    rw (metadata_of-moved_key from to p m bare h u, moved_key_lem to from p)
      (chosen-IsMoved from to p m (relative_descendant_path to p) bare refl)
