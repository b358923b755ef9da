-- ===== src/VaultCore/Path/Validate.antt =====
-- `validateVaultPath` accepts exactly the paths that are chains of legal names.
use kb_1_daemon.Prelude.{
  ◌≡◌, refl, ap, ◌≢◌, ◌↔◌, ◌⊎◌, inl, inr, true, false, List, [], ◌∷◌, ◌++◌, none, some, arith, Text,
  text_eq, starts_with, ltb, le→ltb-false, ==-false, split, split-join, includes_of_Lacks,
  starts_with-join, ends_with-join, join-nonempty, length, drop, any, All, Lacks, ok, err, Result,
  ==_self, text_eq→eq, text_eq_self, ◌∙◌, Bool-cases, ends_with,
}
use kb_1_daemon.VaultCore.Path.{
  max_path_length, Platform, Reason, blame, Reason, blame, VaultPathKind, slash, backslash_unit,
  is_internal_segment, check_path, validate_vault_path, is_internal_vault_path,
  relative_descendant_path, check_segments, check_kind,
}
use kb_1_daemon.VaultCore.Path.Legal.{
  IsLegalSegment, IsVaultPath, check_path-IsVaultPath, check_segments_complete, check_kind_complete,
  is_internal_segment_iff, text_eq-false,
}

legal-IsPart : (ps : List Text) → All IsLegalSegment ps → All (λ p. Lacks slash p × (p ≢ [])) ps
legal-IsPart [] h = tt
legal-IsPart (p ∷ ps) (h, hs) = ((h.one_segment, h.nonempty), legal-IsPart ps hs)

legal-Lacks : (ps : List Text) → All IsLegalSegment ps → All (Lacks slash) ps
legal-Lacks [] h = tt
legal-Lacks (p ∷ ps) (h, hs) = (h.one_segment, legal-Lacks ps hs)

-- The segments of a legal path are those that it was joined from.
pub split-IsVaultPath :
    {platform : Platform} {kind : VaultPathKind} {input : Text}
    (v : IsVaultPath platform kind input)
    → split slash input ≡ v.segments
split-IsVaultPath v =
    rw (v.joined) (split-join slash v.segments v.segments_nonempty (legal-Lacks v.segments v.legal))

pub nonempty-length : (s : Text) → s ≢ [] → length s ≢ 0
nonempty-length [] n e = n refl
nonempty-length (c ∷ s) n e = omega arith

segments_pass :
    {platform : Platform} {kind : VaultPathKind} {input : Text}
    → IsVaultPath platform kind input
    → (check_segments (split slash input) ≡ ok tt) × (check_kind kind (split slash input) ≡ ok tt)
segments_pass {kind = kind} v =
    rw (split-IsVaultPath v)
      (check_segments_complete v.segments v.legal, check_kind_complete kind v.segments v.kind_fits)

pub ends_pass :
    {platform : Platform} {kind : VaultPathKind} {input : Text}
    → IsVaultPath platform kind input
    → (length input ≢ 0)
      × (starts_with (slash ∷ []) input ≡ false)
      × (ends_with (slash ∷ []) input ≡ false)
ends_pass v =
    let parts = legal-IsPart v.segments v.legal in
    rw (v.joined) (
      nonempty-length _ (join-nonempty slash v.segments v.segments_nonempty parts),
      starts_with-join slash v.segments parts,
      ends_with-join slash v.segments parts,
    )

check_path_complete :
    (platform : Platform) (input : Text) (kind : VaultPathKind)
    → IsVaultPath platform kind input
    → check_path platform input kind ≡ ok input
unfolding check_path
check_path_complete platform input kind v =
    let (nonempty, start, end) = ends_pass v in
    let (segments, fits) = segments_pass v in
    let short : ltb max_path_length (length input) ≡ false = le→ltb-false _ _ v.short in
    rw (==-false _ _ nonempty, short, includes_of_Lacks backslash_unit input v.no_backslash, start)
      (rw (v.relative, end, segments, fits) refl)

blame-ok : (input p : Text) (r : Result Reason Text) → blame input r ≡ ok p → r ≡ ok p
blame-ok input p (ok q) h = cc
blame-ok input p (err r) h = cc

-- `validateVaultPath` returns a path exactly when the input is a vault path of its kind, and then
-- it returns the input: the input is a non-empty chain of legal segments joined by slashes, at
-- most 1024 units long, with no backslash and not absolute on the platform, and a file's last
-- segment has a stem and an extension.
pub validate_iff :
    (platform : Platform) (input : Text) (kind : VaultPathKind) (p : Text)
    → (validate_vault_path platform input kind ≡ ok p)
      ↔ ((p ≡ input) × IsVaultPath platform kind input)
validate_iff platform input kind p = (
  (λ h.
      check_path-IsVaultPath platform input kind
        (blame-ok input p (check_path platform input kind) (unfold validate_vault_path in h))),
  λ (same, v).
      unfold validate_vault_path in rw (same, check_path_complete platform input kind v) refl,
)

any-internal :
    (segments : List Text) → All IsLegalSegment segments → any is_internal_segment segments ≡ false
any-internal [] h = refl
any-internal (s ∷ segments) (h, hs) =
    rw ((is_internal_segment_iff s).1 h.unreserved, any-internal segments hs)

-- No path that passes the validator is inside the vault's own metadata.
pub is_internal-validate :
    (platform : Platform) (input : Text) (kind : VaultPathKind) {p : Text}
    → validate_vault_path platform input kind ≡ ok p
    → is_internal_vault_path input ≡ false
unfolding is_internal_vault_path
is_internal-validate platform input kind {p = p} h =
    let v = ((validate_iff platform input kind p).0 h).1 in
    rw (==-false _ _ (ends_pass v).0, split-IsVaultPath v) (any-internal v.segments v.legal)

starts_with_sound : (p s : Text) → starts_with p s ≡ true → s ≡ p ++ drop (length p) s
starts_with_sound [] s h = refl
starts_with_sound (c ∷ p) [] h = cc
starts_with_sound (c ∷ p) (d ∷ s) h = ground (arith, starts_with_sound p s)

pub starts_with-append : (p s : Text) → starts_with p (p ++ s) ≡ true
starts_with-append [] s = refl
starts_with-append (c ∷ p) s = rw (==_self c) (starts_with-append p s)

drop-append : (p s : Text) → drop (length p) (p ++ s) ≡ s
drop-append [] s = refl
drop-append (c ∷ p) s = drop-append p s

-- What is left of `child` below `parent`: nothing for the parent itself, and the rest behind the
-- parent's slash for any other path under it.
abbrev pub IsBelow : Text → Text → Text → Type 0
IsBelow parent child rest =
    ((child ≡ parent) × (rest ≡ [])) ⊎ ((child ≢ parent) × (child ≡ (parent ++ slash ∷ []) ++ rest))

some_cancel : (s t : Text) → some s ≡ some t → s ≡ t
some_cancel s t h = cc

relative_descendant-IsBelow :
    (parent child rest : Text)
    → relative_descendant_path parent child ≡ some rest
    → IsBelow parent child rest
unfolding relative_descendant_path
relative_descendant-IsBelow parent child rest h = elim (Bool-cases (text_eq child parent)) [
  | inl e ↦ inl (text_eq→eq child parent e, cc (e))
  | inr e ↦
      let differ : child ≢ parent = text_eq-false child parent e in
      elim (Bool-cases (starts_with (parent ++ slash ∷ []) child)) [
        | inl f ↦
            let same : some (drop (length (parent ++ slash ∷ [])) child) ≡ some rest =
              rw (e, f) at h in
            inr (
              differ,
              starts_with_sound (parent ++ slash ∷ []) child f
                  ∙ ap (λ t. (parent ++ slash ∷ []) ++ t) (some_cancel _ _ same),
            )
        | inr f ↦ let none_some : none ≡ some rest = rw (e, f) at h in cc (none_some)
      ]
]

relative_descendant_of_IsBelow :
    (parent child rest : Text)
    → IsBelow parent child rest
    → relative_descendant_path parent child ≡ some rest
unfolding relative_descendant_path
relative_descendant_of_IsBelow parent child rest (inl (same, nothing)) =
    rw (same, text_eq_self parent, nothing)
relative_descendant_of_IsBelow parent child rest (inr (differ, under)) =
    elim (Bool-cases (text_eq child parent)) [
      | inl e ↦ absurd (differ (text_eq→eq child parent e))
      | inr e ↦ rw e (
          rw
            (
              under,
              starts_with-append (parent ++ slash ∷ []) rest,
              drop-append (parent ++ slash ∷ []) rest,
            )
            refl)
    ]

-- `relativeDescendantPath` gives a rest exactly for the parent itself, where the rest is empty, and
-- for a different path that continues the parent and a slash, where it is what follows.
pub relative_descendant_iff :
    (parent child rest : Text)
    → (relative_descendant_path parent child ≡ some rest) ↔ IsBelow parent child rest
relative_descendant_iff parent child rest = (
  relative_descendant-IsBelow parent child rest,
  relative_descendant_of_IsBelow parent child rest,
)
