-- ===== src/VaultCore/Metadata/Subtrees.antt =====
-- What a move and a removal of a folder do to the metadata.
use kb_1_daemon.Prelude.{
  ◌≡◌, ◌≢◌, refl, sym, ap, ◌∙◌, inl, inr, Bool, true, false, ◌||◌, Bool-cases, Option-cases, [],
  ◌∷◌, ◌++◌, append-nil, append_assoc, All, Option, none, some, Text, text_eq, text_eq_iff,
  text_eq_self, text_eq→eq, length, length-append, arith, if◌then◌else◌,
}
use kb_1_daemon.VaultCore.Path.{slash, relative_descendant_path}
use kb_1_daemon.VaultCore.Path.Validate.{relative_descendant_iff}
use kb_1_daemon.VaultCore.Metadata.{
  FolderMetadata, FolderMetadataMap, metadata_of, set_metadata, is_within,
  remove_folder_metadata_subtree, join_rest, moved_key, put_moved, move_entries,
  move_folder_metadata_subtree,
}

-- No key stands twice.
abbrev pub IsUnique : FolderMetadataMap → Type 0
IsUnique [] = Unit
IsUnique ((k, v) ∷ m) = (metadata_of k m ≡ none) × IsUnique m

-- No key ends with a slash: a path that the validator accepts does not.
abbrev pub IsBare : Text → Type 0
IsBare key = (p : Text) → key ≢ p ++ slash ∷ []

abbrev pub AllBare : FolderMetadataMap → Type 0
AllBare = All (λ e. IsBare e.0)

-- After a folder is removed, the metadata of what was in it is gone, and the rest is as it was.
pub metadata_of-remove :
    (key deleted : Text) (m : FolderMetadataMap)
    → metadata_of key (remove_folder_metadata_subtree m deleted)
      ≡ (if text_eq key deleted || is_within deleted key then none else metadata_of key m)
unfolding metadata_of remove_folder_metadata_subtree
metadata_of-remove key deleted [] = ground arith
metadata_of-remove key deleted ((k, v) ∷ m) = elim (Bool-cases (text_eq k key)) [
  | inl e ↦
      let same : k ≡ key = text_eq→eq k key e in
      rw same (ground (arith, text_eq_self key, metadata_of-remove key deleted m))
  | inr e ↦ ground (arith, metadata_of-remove key deleted m)
]

pub metadata_of-set_metadata :
    (key k : Text) (v : FolderMetadata) (m : FolderMetadataMap)
    → metadata_of key (set_metadata k v m) ≡ (if text_eq k key then some v else metadata_of key m)
unfolding metadata_of set_metadata
metadata_of-set_metadata key k v [] = refl
metadata_of-set_metadata key k v ((j, w) ∷ m) = ground (
  arith,
  text_eq_iff j k,
  text_eq_iff j key,
  text_eq_iff k key,
  metadata_of-set_metadata key k v m,
)

pub below_self : (p : Text) → relative_descendant_path p p ≡ some []
below_self p = (relative_descendant_iff p p []).1 (inl (refl, refl))

longer : (p rest : Text) → p ++ slash ∷ rest ≢ p
longer p rest e =
    let l : length (p ++ slash ∷ rest) ≡ length p = ap length e in
    omega (arith, length-append p (slash ∷ rest))

pub below_join : (p rest : Text) → relative_descendant_path p (join_rest p rest) ≡ some rest
below_join p [] = below_self p
below_join p (c ∷ rest) =
    (relative_descendant_iff p (p ++ slash ∷ c ∷ rest) (c ∷ rest)).1
      (inr (longer p (c ∷ rest), sym (append_assoc p (slash ∷ []) (c ∷ rest))))

rest_under :
    (p key rest : Text) → IsBare key → key ≡ (p ++ slash ∷ []) ++ rest → join_rest p rest ≡ key
rest_under p key [] bare e = absurd (bare p (e ∙ append-nil (p ++ slash ∷ [])))
rest_under p key (c ∷ rest) bare e = sym (e ∙ append_assoc p (slash ∷ []) (c ∷ rest))

-- A bare path below another one is that one and the rest.
pub join-below :
    (p key rest : Text)
    → IsBare key
    → relative_descendant_path p key ≡ some rest
    → join_rest p rest ≡ key
join-below p key rest bare e = elim ((relative_descendant_iff p key rest).0 e) [
  | inl (same, nothing) ↦ rw (same, nothing) refl
  | inr (differ, under) ↦ rest_under p key rest bare under
]

outside :
    (p key : Text)
    → relative_descendant_path p key ≡ none
    → text_eq key p || is_within p key ≡ false
unfolding is_within
outside p key e = elim (Bool-cases (text_eq key p)) [
  | inr f ↦ rw f (rw (e, is_within) refl)
  | inl f ↦
      let same : key ≡ p = text_eq→eq key p f in
      let impossible : some [] ≡ none = sym (below_self p) ∙ rw same at e in cc
]

pub not_within :
    (p key : Text)
    → text_eq key p || is_within p key ≡ false
    → relative_descendant_path p key ≡ none
unfolding is_within
not_within p key e = elim (Option-cases (relative_descendant_path p key)) [
  | inl f ↦ f
  | inr (r, f) ↦ let w : is_within p key ≡ true = rw (f, is_within) refl in ground arith
]

abbrev pub chosen_key : Text → Text → Option Text → Option Text
chosen_key to key (some rest) = some (join_rest to rest)
chosen_key to key none = if text_eq key to || is_within to key then none else some key

pub moved_key_lem :
    (from to key : Text)
    → moved_key from to key ≡ chosen_key to key (relative_descendant_path from key)
unfolding moved_key
moved_key_lem from to key = elim (Option-cases (relative_descendant_path from key)) [
  | inl e ↦ rw (e, moved_key) refl
  | inr (r, e) ↦ rw (e, moved_key) refl
]

some_inj : (s t : Text) → some s ≡ some t → s ≡ t
some_inj s t e = cc

moved_back_below :
    (from to key p rest : Text)
    → IsBare key
    → relative_descendant_path from key ≡ some rest
    → join_rest to rest ≡ p
    → moved_key to from p ≡ some key
moved_back_below from to key p rest bare below e =
    rw (moved_key_lem to from p, sym e)
      (rw (below_join to rest) (ap some (join-below from key rest bare below)))

moved_back_same :
    (from to key p : Text) (hit : Bool)
    → text_eq key to || is_within to key ≡ hit
    → relative_descendant_path from key ≡ none
    → (if hit then none else some key) ≡ some p
    → moved_key to from p ≡ some key
moved_back_same from to key p true h none_below e = cc
moved_back_same from to key p false h none_below e =
    let same : key ≡ p = some_inj key p e in
    rw (sym same, moved_key_lem to from key, not_within to key h, outside from key none_below) refl

-- Moving back undoes moving.
moved_back :
    (from to key p : Text)
    → IsBare key
    → moved_key from to key ≡ some p
    → moved_key to from p ≡ some key
moved_back from to key p bare e = elim (Option-cases (relative_descendant_path from key)) [
  | inr (rest, f) ↦
      let g : chosen_key to key (some rest) ≡ some p = rw (moved_key_lem from to key, f) at e in
      moved_back_below from to key p rest bare f (some_inj _ p g)
  | inl f ↦
      let g : chosen_key to key none ≡ some p = rw (moved_key_lem from to key, f) at e in
      moved_back_same from to key p _ refl f g
]

abbrev pub via : Option Text → FolderMetadataMap → Option FolderMetadata
via none m = none
via (some k) m = metadata_of k m

abbrev first_of : Option FolderMetadata → Option FolderMetadata → Option FolderMetadata
first_of none y = y
first_of (some x) y = some x

via_nil : (q : Option Text) → via q [] ≡ none
unfolding metadata_of
via_nil none = refl
via_nil (some k) = refl

first_of-none : (x : Option FolderMetadata) → first_of x none ≡ x
first_of-none none = refl
first_of-none (some x) = refl

via-cons :
    (q : Option Text) (k : Text) (v : FolderMetadata) (m : FolderMetadataMap)
    → q ≢ some k
    → via q ((k, v) ∷ m) ≡ via q m
unfolding metadata_of
via-cons none k v m n = refl
via-cons (some j) k v m n = elim (Bool-cases (text_eq k j)) [
  | inl e ↦ absurd (n (ap some (sym (text_eq→eq k j e))))
  | inr e ↦ rw e refl
]

via_self :
    (q : Option Text) (k : Text) (v : FolderMetadata) (m : FolderMetadataMap)
    → q ≡ some k
    → via q ((k, v) ∷ m) ≡ some v
unfolding metadata_of
via_self q k v m e = rw e (rw (text_eq_self k) refl)

-- One entry more, which goes where `o` says.
move_entry :
    (p k : Text) (v : FolderMetadata) (m next : FolderMetadataMap) (q o : Option Text)
    → metadata_of k m ≡ none
    → (q ≡ some k → o ≡ some p)
    → (o ≡ some p → q ≡ some k)
    → first_of (via q m) (metadata_of p (put_moved o v next))
      ≡ first_of (via q ((k, v) ∷ m)) (metadata_of p next)
move_entry p k v m next q none fresh to back =
    rw (via-cons q k v m (λ e. let f : none ≡ some p = to e in cc)) refl
move_entry p k v m next q (some j) fresh to back = elim (Bool-cases (text_eq j p)) [
  | inl e ↦
      let f : q ≡ some k = back (ap some (text_eq→eq j p e)) in
      rw (metadata_of-set_metadata p j v next, e, via_self q k v m f, f, fresh) refl
  | inr e ↦
      rw
        (
          metadata_of-set_metadata p j v next,
          e,
          via-cons q k v m
              (λ f. let g : text_eq j p ≡ true = (text_eq_iff j p).1 (some_inj j p (to f)) in cc),
        )
        refl
]

metadata_of-move_entries :
    (from to p : Text) (m next : FolderMetadataMap)
    → IsBare p
    → AllBare m
    → IsUnique m
    → metadata_of p (move_entries from to next m)
      ≡ first_of (via (moved_key to from p) m) (metadata_of p next)
unfolding move_entries
metadata_of-move_entries from to p [] next bare h u = rw (via_nil (moved_key to from p)) refl
metadata_of-move_entries from to p ((k, v) ∷ m) next bare (hk, h) (fresh, u) =
    metadata_of-move_entries from to p m (put_moved (moved_key from to k) v next) bare h u
    ∙ move_entry p k v m next (moved_key to from p) (moved_key from to k) fresh
        (moved_back to from p k bare) (moved_back from to k p hk)

pub metadata_of-moved_key :
    (from to p : Text) (m : FolderMetadataMap)
    → IsBare p
    → AllBare m
    → IsUnique m
    → metadata_of p (move_folder_metadata_subtree m from to) ≡ via (moved_key to from p) m
unfolding move_folder_metadata_subtree metadata_of
metadata_of-moved_key from to p m bare h u =
    metadata_of-move_entries from to p m [] bare h u ∙ first_of-none (via (moved_key to from p) m)
