-- ===== src/VaultCore/Path/Resolve.antt =====
-- Where `resolveVaultPath` puts a path.
use mathlib.Core.List.{reverse, reverse-append, reverse-cons, reverse-reverse}
use kb_1_daemon.Prelude.{
  ◌≡◌, refl, sym, ap, ◌∙◌, ◌≢◌, true, false, not, ◌&&◌, List, [], ◌∷◌, ◌++◌, arith, Text, text,
  text_eq, text_eq_iff, starts_with, join, join-append, All, ok, append_assoc,
}
use kb_1_daemon.VaultCore.Path.{
  Platform, VaultPathKind, slash, push_segment, push_segments, resolve_onto, absolute_path,
  resolve_vault_path, validate_vault_path,
}
use kb_1_daemon.VaultCore.Path.Legal.{IsLegalSegment, IsVaultPath}
use kb_1_daemon.VaultCore.Path.Validate.{
  validate_iff, split-IsVaultPath, starts_with-append, ends_pass, nonempty-length,
}

push_segment_legal :
    (stack : List Text) (s : Text) → IsLegalSegment s → push_segment stack s ≡ s ∷ stack
unfolding push_segment
push_segment_legal stack s h = ground (
  arith,
  nonempty-length s h.nonempty,
  text_eq_iff s (text "."),
  text_eq_iff s (text ".."),
  h.not_here,
  h.not_up,
)

push_segments_legal :
    (stack segments : List Text)
    → All IsLegalSegment segments
    → push_segments stack segments ≡ reverse segments ++ stack
unfolding push_segments
push_segments_legal stack [] h = refl
push_segments_legal stack (s ∷ segments) (h, hs) =
    rw (push_segment_legal stack s h, push_segments_legal (s ∷ stack) segments hs)
      (simp (reverse-cons, append_assoc))

resolve_onto_vault_path :
    {platform : Platform} {kind : VaultPathKind} {p : Text} (stack : List Text)
    (v : IsVaultPath platform kind p)
    → resolve_onto stack p ≡ reverse v.segments ++ stack
unfolding resolve_onto
resolve_onto_vault_path stack v =
    rw ((ends_pass v).1, split-IsVaultPath v) (push_segments_legal stack v.segments v.legal)

reverse-ne-nil : (xs : List Text) → xs ≢ [] → reverse xs ≢ []
reverse-ne-nil xs n e = n (sym (reverse-reverse xs) ∙ ap reverse e)

absolute_path-append :
    (stack segments : List Text)
    → stack ≢ []
    → segments ≢ []
    → absolute_path (reverse segments ++ stack) ≡ absolute_path stack ++ slash ∷ join slash segments
absolute_path-append stack segments n m =
    rw (reverse-append, reverse-reverse)
      (ap (λ t. slash ∷ t) (join-append slash (reverse stack) segments (reverse-ne-nil stack n) m))

stays_inside :
    (base rest at : Text)
    → at ≡ base ++ slash ∷ rest
    → (not (text_eq at base) && not (starts_with (base ++ slash ∷ []) at)) ≡ false
stays_inside base rest at e =
    let inside : starts_with (base ++ slash ∷ []) at ≡ true =
      rw (e, sym (append_assoc base (slash ∷ []) rest))
        (starts_with-append (base ++ slash ∷ []) rest) in
    ground (arith, inside)

-- A path that passes the validator lies below the vault's root, at the root's own path followed by
-- a slash and the path as it was given, where the root is not the root of the file system.
pub resolve-validate :
    (cwd : List Text) (root : Text) (platform : Platform) (kind : VaultPathKind) (p q : Text)
    → resolve_onto cwd root ≢ []
    → validate_vault_path platform p kind ≡ ok q
    → resolve_vault_path cwd root p ≡ ok (absolute_path (resolve_onto cwd root) ++ slash ∷ p)
unfolding resolve_vault_path
resolve-validate cwd root platform kind p q n h =
    let v = ((validate_iff platform p kind q).0 h).1 in
    let base = absolute_path (resolve_onto cwd root) in
    let at : absolute_path (resolve_onto (resolve_onto cwd root) p) ≡ base ++ slash ∷ p =
      ap absolute_path (resolve_onto_vault_path (resolve_onto cwd root) v)
      ∙ absolute_path-append (resolve_onto cwd root) v.segments n v.segments_nonempty
      ∙ ap (λ t. base ++ slash ∷ t) (sym v.joined) in
    rw (stays_inside base p _ at, at) refl
