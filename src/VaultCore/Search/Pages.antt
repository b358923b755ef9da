-- ===== src/VaultCore/Search/Pages.antt =====
-- A page of results is a stretch of all hits.
use kb_1_daemon.Prelude.{
  Result, err, ◌>>=◌, ℕ, zero, suc, ◌+◌, ◌≤◌, ◌<◌, ◌≡◌, refl, sym, ap, ap₂, ◌∙◌, ◌⊎◌, inl, inr,
  false, Bool-cases, List, [], ◌∷◌, ◌++◌, append-nil, append_assoc, Option, none, some, Text, trim,
  split, ◌==◌, length, length-append, length-take, take, drop, ltb, ltb→lt, ltb-false, leb, leb→le,
  leb-false, if◌then◌else◌, arith, ok,
}
use kb_1_daemon.VaultCore.Nodes.{FsError}
use kb_1_daemon.VaultCore.Path.{Platform, folder, validate_optional_vault_path}
use kb_1_daemon.VaultCore.Search.{
  Number, whole, between, below_zero, not_finite, SearchInput, SearchHit, Dirents, Found, Page,
  count_hit, is_hit, hit_at, scan_lines, scan_files, empty_page, clamp_positive_integer, limit_of,
  offset_of, context_of, collect_searchable_files, search_under, search_result, SearchResult, Walk,
  from_stat, search_vault_files, or_root,
}

-- All hits in the files, without regard to pages.
module _ (lower : Text → Text) (query : Text) where
  unfoldable pub hits_of_lines : Text → List Text → ℕ → ℕ → List Text → List SearchHit
  hits_of_lines path lines context index [] = []
  hits_of_lines path lines context index (line_text ∷ rest) =
      let later = hits_of_lines path lines context (index + 1) rest in
      if is_hit lower query line_text
      then hit_at lower query path lines context index line_text ∷ later
      else later

  unfoldable pub hits_of_files : ℕ → List Found → List SearchHit
  unfolding hits_of_lines
  hits_of_files context [] = []
  hits_of_files context (f ∷ files) =
      hits_of_lines f.path (split 10 f.content) context 0 (split 10 f.content)
      ++ hits_of_files context files

count_hits : ℕ → ℕ → List SearchHit → Page → Page
count_hits limit offset [] p = p
count_hits limit offset (h ∷ hs) p = count_hits limit offset hs (count_hit limit offset h p)

count_hits-append :
    (limit offset : ℕ) (hs gs : List SearchHit) (p : Page)
    → count_hits limit offset (hs ++ gs) p
      ≡ count_hits limit offset gs (count_hits limit offset hs p)
unfolding count_hits
count_hits-append limit offset [] gs p = refl
count_hits-append limit offset (h ∷ hs) gs p =
    count_hits-append limit offset hs gs (count_hit limit offset h p)

abbrev page_of : ℕ → ℕ → List SearchHit → Page
page_of limit offset hits = record { total = length hits; results = take limit (drop offset hits) }

drop_short : (n : ℕ) (xs : List SearchHit) → length xs ≤ n → drop n xs ≡ []
drop_short zero [] h = refl
drop_short zero (x ∷ xs) h = absurd (omega arith)
drop_short (suc n) [] h = refl
drop_short (suc n) (x ∷ xs) h = drop_short n xs (omega arith)

drop_within :
    (n : ℕ) (xs : List SearchHit) (y : SearchHit)
    → n ≤ length xs
    → drop n (xs ++ y ∷ []) ≡ drop n xs ++ y ∷ []
drop_within zero xs y h = refl
drop_within (suc n) [] y h = absurd (omega arith)
drop_within (suc n) (x ∷ xs) y h = drop_within n xs y (omega arith)

take_full :
    (n : ℕ) (xs : List SearchHit) (y : SearchHit)
    → n ≤ length xs
    → take n (xs ++ y ∷ []) ≡ take n xs
take_full zero xs y h = refl
take_full (suc n) [] y h = absurd (omega arith)
take_full (suc n) (x ∷ xs) y h = ap (λ t. x ∷ t) (take_full n xs y (omega arith))

take_nothing : (n : ℕ) → take {A = SearchHit} n [] ≡ []
take_nothing zero = refl
take_nothing (suc n) = refl

take_room :
    (n : ℕ) (xs : List SearchHit) (y : SearchHit)
    → length xs < n
    → take n (xs ++ y ∷ []) ≡ take n xs ++ y ∷ []
take_room zero xs y h = absurd (omega arith)
take_room (suc n) [] y h = ap (λ t. y ∷ t) (take_nothing n)
take_room (suc n) (x ∷ xs) y h = ap (λ t. x ∷ t) (take_room n xs y (omega arith))

one_more :
    (limit offset : ℕ) (hits : List SearchHit) (h : SearchHit) (results : List SearchHit)
    → results ≡ take limit (drop offset (hits ++ h ∷ []))
    → record { total = length hits + 1; results = results } ≡ page_of limit offset (hits ++ h ∷ [])
one_more limit offset hits h results e =
    ap₂ (λ t r. record { total = t; results = r }) (omega (arith, length-append hits (h ∷ []))) e

-- One more hit.
page_of-append :
    (limit offset : ℕ) (hits : List SearchHit) (h : SearchHit)
    → count_hit limit offset h (page_of limit offset hits) ≡ page_of limit offset (hits ++ h ∷ [])
page_of-append limit offset hits h =
    let d = drop offset hits in
    elim (Bool-cases (ltb (length hits) offset)) [
      | inl early ↦ rw early (
          one_more limit offset hits h _ (
            ap (take limit) (
              drop_short offset hits (omega (arith, ltb→lt _ _ early))
              ∙ sym (
                  drop_short offset (hits ++ h ∷ [])
                    (omega (arith, ltb→lt _ _ early, length-append hits (h ∷ [])))))))
      | inr late ↦
          let within = drop_within offset hits h (ltb-false _ _ late) in
          rw late (elim (Bool-cases (leb limit (length (take limit d)))) [
            | inl full ↦ rw full (
                one_more limit offset hits h _ (
                  sym (
                    ap (take limit) within
                    ∙ take_full limit d h (omega (arith, leb→le _ _ full, length-take limit d)))))
            | inr room ↦ rw room (
                one_more limit offset hits h _ (
                  sym (
                    ap (take limit) within
                    ∙ take_room limit d h
                        (omega (arith, leb-false _ _ room, length-take limit d)))))
          ])
    ]

count_hits_lem :
    (limit offset : ℕ) (seen hs : List SearchHit)
    → count_hits limit offset hs (page_of limit offset seen) ≡ page_of limit offset (seen ++ hs)
unfolding count_hits
count_hits_lem limit offset seen [] = ap (page_of limit offset) (sym (append-nil seen))
count_hits_lem limit offset seen (h ∷ hs) =
    ap (count_hits limit offset hs) (page_of-append limit offset seen h)
    ∙ count_hits_lem limit offset (seen ++ h ∷ []) hs
    ∙ ap (page_of limit offset) (append_assoc seen (h ∷ []) hs)

module _ (lower : Text → Text) (query : Text) (context limit offset : ℕ) where
  scan_lines_lem :
      (path : Text) (lines : List Text) (index : ℕ) (rest : List Text) (p : Page)
      → scan_lines lower query path lines context limit offset index rest p
        ≡ count_hits limit offset (hits_of_lines lower query path lines context index rest) p
  unfolding scan_lines hits_of_lines count_hits
  scan_lines_lem path lines index [] p = refl
  scan_lines_lem path lines index (l ∷ rest) p = elim (Bool-cases (is_hit lower query l)) [
    | inl e ↦ rw e (scan_lines_lem path lines (index + 1) rest _)
    | inr e ↦ rw e (scan_lines_lem path lines (index + 1) rest p)
  ]

  scan_files_lem :
      (files : List Found) (p : Page)
      → scan_files lower query context limit offset files p
        ≡ count_hits limit offset (hits_of_files lower query context files) p
  unfolding scan_files hits_of_files count_hits
  scan_files_lem [] p = refl
  scan_files_lem (f ∷ files) p =
      let lines = split 10 f.content in
      ap (scan_files lower query context limit offset files) (scan_lines_lem f.path lines 0 lines p)
      ∙ scan_files_lem files _
      ∙ sym (
          count_hits-append limit offset (hits_of_lines lower query f.path lines context 0 lines) _
            p)

no_hits : (limit offset : ℕ) → empty_page ≡ page_of limit offset []
no_hits limit offset =
    ap (λ r. record { total = 0; results = r })
      (sym (ap (take limit) (drop_short offset [] (omega arith)) ∙ take_nothing limit))

same_found :
    (r : Result FsError Walk) (f g : Walk → SearchResult)
    → ((w : Walk) → f w ≡ g w)
    → from_stat (r >>= λ w. ok (f w)) ≡ from_stat (r >>= λ w. ok (g w))
same_found (err e) f g h = refl
same_found (ok w) f g h = ap ok (h w)

-- A search for something, under a folder path that is valid or under the root, counts all hits in the
-- files that were collected, in the files' order, and returns those from the offset on, as
-- many as the limit at most. It throws what the stat of the folder throws.
pub search_vault_files-page :
    (platform : Platform) (lower : Text → Text) (sort : List Found → List Found)
    (dirents_at : Text → Result FsError (Option Dirents)) (input : SearchInput)
    (under : Option Text)
    → (length (trim input.q) == 0) ≡ false
    → validate_optional_vault_path platform input.under folder ≡ ok under
    → let limit = limit_of platform lower sort dirents_at input in
      let offset = offset_of platform lower sort dirents_at input in
      let hits = λ (found : Walk).
        hits_of_files lower
          (lower (trim input.q))
          (context_of platform lower sort dirents_at input)
          found.0 in
      search_vault_files platform lower sort dirents_at input
      ≡ from_stat (
          collect_searchable_files platform lower sort dirents_at (or_root under) >>= λ found.
          ok (record {
            q = input.q;
            under = or_root under;
            limit = limit;
            offset = offset;
            total = length (hits found);
            truncated = found.1;
            results = take limit (drop offset (hits found));
          }))
unfolding search_vault_files search_under search_result
search_vault_files-page platform lower sort dirents_at input under n v =
    let limit = limit_of platform lower sort dirents_at input in
    let offset = offset_of platform lower sort dirents_at input in
    let context = context_of platform lower sort dirents_at input in
    let query = lower (trim input.q) in
    let page : (found : Walk)
        → scan_files lower query context limit offset found.0 empty_page
          ≡ page_of limit offset (hits_of_files lower query context found.0) =
      λ found.
        scan_files_lem lower query context limit offset found.0 empty_page
        ∙ ap (count_hits limit offset (hits_of_files lower query context found.0))
            (no_hits limit offset)
        ∙ count_hits_lem limit offset [] (hits_of_files lower query context found.0) in
    rw (n, v)
      (same_found (collect_searchable_files platform lower sort dirents_at (or_root under)) _ _
        (λ found.
          ap
            (λ p. record {
              q = input.q;
              under = or_root under;
              limit = limit;
              offset = offset;
              total = p.total;
              truncated = found.1;
              results = p.results;
            })
            (page found)))

-- The limit is not above the greatest one, and is 0 only for a number between 0 and 1.
pub clamp_positive_integer_lem :
    (value : Option Number) (fallback max : ℕ)
    → 0 < fallback
    → fallback ≤ max
    → (clamp_positive_integer value fallback max ≤ max)
      × ((0 < clamp_positive_integer value fallback max) ⊎ (value ≡ some (between 0)))
unfolding clamp_positive_integer
clamp_positive_integer_lem none fallback max p h = (omega arith, inl (omega arith))
clamp_positive_integer_lem (some (whole zero)) fallback max p h = (omega arith, inl (omega arith))
clamp_positive_integer_lem (some (whole (suc n))) fallback max p h =
    (omega arith, inl (omega arith))
clamp_positive_integer_lem (some (between zero)) fallback max p h = (omega arith, inr refl)
clamp_positive_integer_lem (some (between (suc n))) fallback max p h =
    (omega arith, inl (omega arith))
clamp_positive_integer_lem (some below_zero) fallback max p h = (omega arith, inl (omega arith))
clamp_positive_integer_lem (some not_finite) fallback max p h = (omega arith, inl (omega arith))
