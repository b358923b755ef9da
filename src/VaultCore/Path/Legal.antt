-- ===== src/VaultCore/Path/Legal.antt =====
-- The names that a vault allows, and what the checks of path.ts say of one segment and of one name.
use kb_1_daemon.Prelude.{
  ℕ, ◌≤◌, ◌≡◌, refl, sym, ap, ◌≢◌, ◌↔◌, inl, inr, true, false, List, [], ◌∷◌, ◌++◌, Option, none,
  some, arith, Text, text, text_eq, text_eq_iff, text_eq→eq, includes, split, join, join-split,
  split-Lacks, split-ne-nil, includes-Lacks, length, any, All, Lacks, ok, bind-ok, ◌==◌, ==-ne,
  Bool-cases,
}
use kb_1_daemon.VaultCore.Path.{
  Platform, VaultPathKind, file, folder, artifact, slash, dot, backslash_unit, max_path_length,
  max_segment_length, internal_vault_path_segments, is_internal_segment, is_absolute, check_segment,
  check_segments, last_segment, after_dot, has_ext, is_file_name, check_kind, check_path,
}

-- A name that a vault may use for one segment.
pub record IsLegalSegment (s : Text) : Type 0 where
  pub one_segment : Lacks slash s
  pub nonempty : s ≢ []
  pub not_here : s ≢ text "."
  pub not_up : s ≢ text ".."
  pub short : length s ≤ max_segment_length
  pub unreserved : All (λ r. s ≢ r) internal_vault_path_segments

-- `stem.ext`, where the stem has no dot and neither part is empty.
pub record IsFileName (s : Text) : Type 0 where
  pub stem : Text
  pub ext : Text
  pub splits : s ≡ stem ++ dot ∷ ext
  pub stem_nonempty : stem ≢ []
  pub stem_no_dot : Lacks dot stem
  pub ext_nonempty : ext ≢ []

abbrev pub FitsKind : VaultPathKind → List Text → Type 0
FitsKind file segments = IsFileName (last_segment segments)
FitsKind folder segments = Unit
FitsKind artifact segments = Unit

-- A path that is a chain of legal names: what the validator promises.
pub record IsVaultPath (platform : Platform) (kind : VaultPathKind) (input : Text) : Type 0 where
  pub segments : List Text
  pub segments_nonempty : segments ≢ []
  pub joined : input ≡ join slash segments
  pub legal : All IsLegalSegment segments
  pub short : length input ≤ max_path_length
  pub no_backslash : Lacks backslash_unit input
  pub relative : is_absolute platform input ≡ false
  pub kind_fits : FitsKind kind segments

any-text_eq : (s : Text) (rs : List Text) → any (text_eq s) rs ≡ false → All (λ r. s ≢ r) rs
any-text_eq s [] h = tt
any-text_eq s (r ∷ rs) h =
    ((λ e. ground (arith, (text_eq_iff s r).1 e)), any-text_eq s rs (ground arith))

any-text_eq_of : (s : Text) (rs : List Text) → All (λ r. s ≢ r) rs → any (text_eq s) rs ≡ false
any-text_eq_of s [] h = refl
any-text_eq_of s (r ∷ rs) (n, h) = elim (Bool-cases (text_eq s r)) [
  | inl e ↦ absurd (n (text_eq→eq s r e))
  | inr e ↦ rw (e, any-text_eq_of s rs h)
]

pub is_internal_segment_iff :
    (s : Text) → (is_internal_segment s ≡ false) ↔ All (λ r. s ≢ r) internal_vault_path_segments
unfolding is_internal_segment
is_internal_segment_iff s =
    (any-text_eq s internal_vault_path_segments, any-text_eq_of s internal_vault_path_segments)

check_segment_cases :
    (s : Text)
    → check_segment s ≡ ok tt
    → (s ≢ [])
      × (text_eq s (text ".") ≡ false)
      × (text_eq s (text "..") ≡ false)
      × (length s ≤ max_segment_length)
      × (is_internal_segment s ≡ false)
unfolding check_segment
check_segment_cases [] h = cc
check_segment_cases (c ∷ s) h = ((λ e. cc), ground arith, ground arith, ground arith, ground arith)

pub text_eq-false : (s t : Text) → text_eq s t ≡ false → s ≢ t
text_eq-false s t h e = ground (arith, (text_eq_iff s t).1 e)

check_segment-IsLegal : (s : Text) → Lacks slash s → check_segment s ≡ ok tt → IsLegalSegment s
check_segment-IsLegal s l h =
    let (nonempty, here, up, short, free) = check_segment_cases s h in
    record {
      one_segment = l;
      nonempty = nonempty;
      not_here = text_eq-false s (text ".") here;
      not_up = text_eq-false s (text "..") up;
      short = short;
      unreserved = (is_internal_segment_iff s).0 free;
    }

check_segment_complete : (s : Text) → IsLegalSegment s → check_segment s ≡ ok tt
unfolding check_segment
check_segment_complete [] h = absurd (h.nonempty refl)
check_segment_complete (c ∷ s) h = ground (
  arith,
  h.short,
  text_eq_iff (c ∷ s) (text "."),
  text_eq_iff (c ∷ s) (text ".."),
  (is_internal_segment_iff (c ∷ s)).1 h.unreserved,
)

check_segments-All :
    (segments : List Text)
    → All (Lacks slash) segments
    → check_segments segments ≡ ok tt
    → All IsLegalSegment segments
unfolding check_segments
check_segments-All [] l h = tt
check_segments-All (s ∷ segments) (l, ls) h =
    let (_, first, rest) = bind-ok (check_segment s) (λ _. check_segments segments) h in
    (check_segment-IsLegal s l first, check_segments-All segments ls rest)

pub check_segments_complete :
    (segments : List Text) → All IsLegalSegment segments → check_segments segments ≡ ok tt
unfolding check_segments
check_segments_complete [] h = refl
check_segments_complete (s ∷ segments) (h, hs) =
    rw (check_segment_complete s h, check_segments_complete segments hs)

after_dot-cons :
    (c : ℕ) (s e : Text)
    → c ≢ dot
    → (stem : Text) × (s ≡ stem ++ dot ∷ e) × Lacks dot stem
    → (stem : Text) × (c ∷ s ≡ stem ++ dot ∷ e) × Lacks dot stem
after_dot-cons c s e n (stem, splits, l) = (c ∷ stem, ap (λ t. c ∷ t) splits, (n, l))

after_dot_sound :
    (s : Text) (e : Text)
    → after_dot s ≡ some e
    → (stem : Text) × (s ≡ stem ++ dot ∷ e) × Lacks dot stem
unfolding after_dot
after_dot_sound [] e h = cc
after_dot_sound (c ∷ s) e h = elim (Bool-cases (c == dot)) [
  | inl d ↦ ([], ground arith, tt)
  | inr d ↦ after_dot-cons c s e (==-ne c dot d) (after_dot_sound s e (ground arith))
]

after_dot_complete : (stem e : Text) → Lacks dot stem → after_dot (stem ++ dot ∷ e) ≡ some e
unfolding after_dot
after_dot_complete [] e h = refl
after_dot_complete (c ∷ stem) e (n, h) = ground (arith, after_dot_complete stem e h)

has_ext_sound : (o : Option Text) → has_ext o ≡ true → (e : Text) × (o ≡ some e) × (e ≢ [])
unfolding has_ext
has_ext_sound none h = cc
has_ext_sound (some []) h = cc
has_ext_sound (some (c ∷ s)) h = (c ∷ s, refl, λ (e : c ∷ s ≡ []). cc)

cons-ne-nil : (c : ℕ) (s : Text) → c ∷ s ≢ []
cons-ne-nil c s e = cc

is_file_name_sound : (s : Text) → is_file_name s ≡ true → IsFileName s
unfolding is_file_name
is_file_name_sound [] h = cc
is_file_name_sound (c ∷ s) h =
    let (e, found, nonempty) = has_ext_sound (after_dot s) (ground arith) in
    let (stem, splits, l) = after_dot_sound s e found in
    record {
      stem = c ∷ stem;
      ext = e;
      splits = ap (λ t. c ∷ t) splits;
      stem_nonempty = cons-ne-nil c stem;
      stem_no_dot = (ground arith, l);
      ext_nonempty = nonempty;
    }

is_file_name-append :
    (stem ext : Text)
    → stem ≢ []
    → Lacks dot stem
    → ext ≢ []
    → is_file_name (stem ++ dot ∷ ext) ≡ true
unfolding is_file_name
is_file_name-append [] ext n l m = absurd (n refl)
is_file_name-append (c ∷ stem) [] n l m = absurd (m refl)
is_file_name-append (c ∷ stem) (d ∷ ext) n (p, l) m =
    ground (arith, after_dot_complete stem (d ∷ ext) l)

is_file_name_complete : (s : Text) → IsFileName s → is_file_name s ≡ true
is_file_name_complete s h =
    rw (h.splits) (is_file_name-append h.stem h.ext h.stem_nonempty h.stem_no_dot h.ext_nonempty)

check_kind-FitsKind :
    (kind : VaultPathKind) (segments : List Text)
    → check_kind kind segments ≡ ok tt
    → FitsKind kind segments
unfolding check_kind
check_kind-FitsKind file segments h = is_file_name_sound (last_segment segments) (ground arith)
check_kind-FitsKind folder segments h = tt
check_kind-FitsKind artifact segments h = tt

pub check_kind_complete :
    (kind : VaultPathKind) (segments : List Text)
    → FitsKind kind segments
    → check_kind kind segments ≡ ok tt
unfolding check_kind
check_kind_complete file segments h = rw (is_file_name_complete (last_segment segments) h)
check_kind_complete folder segments h = refl
check_kind_complete artifact segments h = refl

check_path_cases :
    (platform : Platform) (input : Text) (kind : VaultPathKind) {p : Text}
    → check_path platform input kind ≡ ok p
    → (p ≡ input)
      × (length input ≤ max_path_length)
      × (includes backslash_unit input ≡ false)
      × (is_absolute platform input ≡ false)
      × (check_segments (split slash input) ≡ ok tt)
      × (check_kind kind (split slash input) ≡ ok tt)
unfolding check_path
check_path_cases platform input kind h =
    (ground arith, ground arith, ground arith, ground arith, ground arith, ground arith)

pub check_path-IsVaultPath :
    (platform : Platform) (input : Text) (kind : VaultPathKind) {p : Text}
    → check_path platform input kind ≡ ok p
    → (p ≡ input) × IsVaultPath platform kind input
check_path-IsVaultPath platform input kind h =
    let (same, short, clean, relative, segments, fits) = check_path_cases platform input kind h in
    (
      same,
      record {
        segments = split slash input;
        segments_nonempty = split-ne-nil slash input;
        joined = sym (join-split slash input);
        legal = check_segments-All (split slash input) (split-Lacks slash input) segments;
        short = short;
        no_backslash = includes-Lacks backslash_unit input clean;
        relative = relative;
        kind_fits = check_kind-FitsKind kind (split slash input) fits;
      },
    )
