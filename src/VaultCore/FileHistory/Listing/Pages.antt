-- ===== src/VaultCore/FileHistory/Listing/Pages.antt =====
-- The page after an entry has the entries that follow it.
use Prim.Native.Nat.{compare, Ordering}
use kb_1_daemon.Prelude.{
  ℕ, ◌<◌, ◌≡◌, ◌≢◌, refl, sym, ap, ap₂, ◌∙◌, ◌⊎◌, inl, inr, true, false, Bool-cases, List, [], ◌∷◌,
  ◌++◌, Option, some, Text, All, length, length-take, take, ltb, lt→ltb, ltb→lt, le→ltb-false,
  arith, ok,
}
use kb_1_daemon.VaultCore.Path.{Platform, file, validate_vault_path}
use kb_1_daemon.VaultCore.Search.{Number}
use kb_1_daemon.VaultCore.FileHistory.{FileHistoryEntry, Host}
use kb_1_daemon.VaultCore.FileHistory.Committed.{CommittedHistoryRecord}
use kb_1_daemon.VaultCore.FileHistory.Pending.{PendingHistoryMap}
use kb_1_daemon.VaultCore.FileHistory.Listing.{
  normalize_page_limit, text_lt, then_by, time_delta, compare_history_entries_desc, is_before,
  keep_before, cursor_at, apply_history_cursor, page_at, newest_first, list_file_history,
}

abbrev pub Pairwise :
    (FileHistoryEntry → FileHistoryEntry → Type 0) → List FileHistoryEntry → Type 0
Pairwise R [] = Unit
Pairwise R (x ∷ xs) = All (R x) xs × Pairwise R xs

Pairwise-parts :
    (R : FileHistoryEntry → FileHistoryEntry → Type 0) (xs : List FileHistoryEntry)
    (e : FileHistoryEntry) (zs : List FileHistoryEntry)
    → Pairwise R (xs ++ e ∷ zs)
    → All (λ x. R x e) xs × All (R e) zs
Pairwise-parts R [] e zs (h, hs) = (tt, h)
Pairwise-parts R (x ∷ xs) e zs (h, hs) =
    let rest = Pairwise-parts R xs e zs hs in ((at_end xs h, rest.0), rest.1)
  where
    at_end : (ys : List FileHistoryEntry) → All (R x) (ys ++ e ∷ zs) → R x e
    at_end [] (r, rs) = r
    at_end (y ∷ ys) (r, rs) = at_end ys rs

text_lt_self : (s : Text) → text_lt s s ≡ false
unfolding text_lt
text_lt_self [] = refl
text_lt_self (c ∷ s) = ground (arith, text_lt_self s)

text_lt_asym : (s t : Text) → text_lt s t ≡ true → text_lt t s ≡ false
unfolding text_lt
text_lt_asym s [] h = absurd (ground (arith, h))
text_lt_asym [] (d ∷ t) h = refl
text_lt_asym (c ∷ s) (d ∷ t) h = ground (arith, text_lt_asym s t)

module _ (h : Host) (locale_compare : Text → Text → Ordering) where
  abbrev pub Precedes : FileHistoryEntry → FileHistoryEntry → Type 0
  Precedes a b = compare_history_entries_desc h locale_compare a b ≡ Ordering.lt

  abbrev pub HasTime : FileHistoryEntry → Type 0
  HasTime e = (t : ℕ) × (h.time_of e.created_at ≡ some t)

  -- Where `a` stands before `b`, at the same time: if `localeCompare` orders the ids, `<` does so too.
  abbrev pub AgreeOn : FileHistoryEntry → FileHistoryEntry → Type 0
  AgreeOn a b =
      h.time_of a.created_at ≡ h.time_of b.created_at
      → locale_compare b.id a.id ≡ Ordering.lt
      → text_lt b.id a.id ≡ true

  order_cases :
      (t u : ℕ) (a b : Text)
      → (t ≡ u → locale_compare b a ≡ Ordering.lt → text_lt b a ≡ true)
      → then_by (compare u t) (locale_compare b a) ≡ Ordering.lt
      → (u < t) ⊎ ((t ≡ u) × (text_lt b a ≡ true))
  order_cases t u a b agrees e = elim (Bool-cases (ltb u t)) [
    | inl p ↦ inl (ltb→lt u t p)
    | inr p ↦ inr (ground arith, ground (arith, agrees))
  ]

  -- An entry that precedes another, whose times are known.
  parts :
      (a b : FileHistoryEntry) (t u : ℕ)
      → h.time_of a.created_at ≡ some t
      → h.time_of b.created_at ≡ some u
      → AgreeOn a b
      → Precedes a b
      → (u < t) ⊎ ((t ≡ u) × (text_lt b.id a.id ≡ true))
  unfolding compare_history_entries_desc
  parts a b t u p q agrees e =
      order_cases t u a.id b.id (λ same. agrees (p ∙ ap some same ∙ sym q))
        (ap₂ (λ x y. then_by (time_delta x y) (locale_compare b.id a.id)) (sym q) (sym p) ∙ e)

  kept :
      (e z : FileHistoryEntry) (t u : ℕ)
      → h.time_of e.created_at ≡ some t
      → h.time_of z.created_at ≡ some u
      → AgreeOn e z
      → Precedes e z
      → is_before h t (some e.id) (some u) z.id ≡ true
  kept e z t u p q g r = elim (parts e z t u p q g r) [
    | inl younger ↦ rw (lt→ltb u t younger)
    | inr (same, id) ↦ rw (le→ltb-false u t (omega arith), le→ltb-false t u (omega arith), id)
  ]

  dropped :
      (x e : FileHistoryEntry) (t u : ℕ)
      → h.time_of x.created_at ≡ some t
      → h.time_of e.created_at ≡ some u
      → AgreeOn x e
      → Precedes x e
      → is_before h u (some e.id) (some t) x.id ≡ false
  dropped x e t u p q g r = elim (parts x e t u p q g r) [
    | inl younger ↦ rw (le→ltb-false t u (omega arith), lt→ltb u t younger)
    | inr (same, id) ↦
        rw (
          le→ltb-false t u (omega arith),
          le→ltb-false u t (omega arith),
          text_lt_asym e.id x.id id,
        )
  ]

  keep-All :
      (e : FileHistoryEntry) (t : ℕ) (zs : List FileHistoryEntry)
      → h.time_of e.created_at ≡ some t
      → All HasTime zs
      → All (AgreeOn e) zs
      → All (Precedes e) zs
      → keep_before h t (some e.id) zs ≡ zs
  keep-All e t [] p v g r = refl
  keep-All e t (z ∷ zs) p ((u, q), v) (g, gs) (r, rs) =
      rw (q, kept e z t u p q g r) (ap (λ l. z ∷ l) (keep-All e t zs p v gs rs))

  keep_after :
      (xs : List FileHistoryEntry) (e : FileHistoryEntry) (zs : List FileHistoryEntry) (t : ℕ)
      → h.time_of e.created_at ≡ some t
      → All HasTime (xs ++ e ∷ zs)
      → All (λ x. AgreeOn x e) xs
      → All (AgreeOn e) zs
      → All (λ x. Precedes x e) xs
      → All (Precedes e) zs
      → keep_before h t (some e.id) (xs ++ e ∷ zs) ≡ zs
  keep_after [] e zs t p (v, vs) f g a b =
      rw (p, le→ltb-false t t (omega arith), text_lt_self e.id) (keep-All e t zs p vs g b)
  keep_after (x ∷ xs) e zs t p ((u, q), vs) (f, fs) g (a, more) b =
      rw (q, dropped x e u t q p f a) (keep_after xs e zs t p vs fs g more b)

cursor_of :
    (h : Host) (entries : List FileHistoryEntry) (before : Text) (before_id : Option Text)
    → before ≢ []
    → apply_history_cursor h entries (some before) before_id
      ≡ cursor_at h entries before_id (h.time_of before)
unfolding apply_history_cursor
cursor_of h entries [] before_id n = absurd (n refl)
cursor_of h entries (c ∷ before) before_id n = refl

middle :
    (P : FileHistoryEntry → Type 0) (xs : List FileHistoryEntry) (e : FileHistoryEntry)
    (zs : List FileHistoryEntry)
    → All P (xs ++ e ∷ zs)
    → P e
middle P [] e zs (p, ps) = p
middle P (x ∷ xs) e zs (p, ps) = middle P xs e zs ps

more_lem :
    (n : ℕ) (older : List FileHistoryEntry)
    → ltb (length (take n older)) (length older) ≡ ltb n (length older)
more_lem n older = ground (arith, length-take n older)

-- If the sort puts every entry before those that the comparison puts after it, all times are numbers, and
-- `localeCompare` orders the id of an entry of the history against the ids of the other entries of its
-- time as `<` does: a page from the cursor of that entry, its time and its id, has the
-- entries that follow this one in the whole history, as many as the limit, and says whether there are more.
pub list_file_history-page :
    (h : Host) (platform : Platform) (locale_compare : Text → Text → Ordering)
    (sort : (FileHistoryEntry → FileHistoryEntry → Ordering)
      → List FileHistoryEntry
      → List FileHistoryEntry)
    (pending : PendingHistoryMap) (committed_history : Text → List CommittedHistoryRecord)
    (rel : Text) (limit : Option Number) (newer : List FileHistoryEntry) (e : FileHistoryEntry)
    (older : List FileHistoryEntry)
    → validate_vault_path platform rel file ≡ ok rel
    → newest_first h platform locale_compare sort pending committed_history rel ≡ newer ++ e ∷ older
    → Pairwise (Precedes h locale_compare) (newer ++ e ∷ older)
    → All (HasTime h locale_compare) (newer ++ e ∷ older)
    → All (λ x. AgreeOn h locale_compare x e) newer
    → All (AgreeOn h locale_compare e) older
    → e.created_at ≢ []
    → list_file_history h platform locale_compare sort pending committed_history
        (record { path = rel; before = some e.created_at; before_id = some e.id; limit = limit })
      ≡ ok (record {
        entries = take (normalize_page_limit limit) older;
        has_more = ltb (normalize_page_limit limit) (length older);
      })
unfolding list_file_history
list_file_history-page h platform locale_compare sort pending committed rel limit newer e older v s
      d t before after n =
    let parts = Pairwise-parts (Precedes h locale_compare) newer e older d in
    let (time, q) = middle (HasTime h locale_compare) newer e older t in
    rw (v, s)
      (ap (λ l. ok (page_at h (normalize_page_limit limit) l))
          (cursor_of h (newer ++ e ∷ older) e.created_at (some e.id) n
            ∙ ap (cursor_at h (newer ++ e ∷ older) (some e.id)) q
            ∙ keep_after h locale_compare newer e older time q t before after parts.0 parts.1)
        ∙ ap (λ m. ok (record { entries = take (normalize_page_limit limit) older; has_more = m }))
            (more_lem (normalize_page_limit limit) older))
