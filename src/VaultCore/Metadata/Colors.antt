-- ===== src/VaultCore/Metadata/Colors.antt =====
-- Normalised colors.
use mathlib.Core.Path.{subst}
use kb_1_daemon.Prelude.{
  ℕ, ◌≡◌, refl, sym, ap, Bool, true, false, ◌&&◌, ◌||◌, &&-true, inl, inr, [], ◌∷◌, map, all, none,
  some, Text, text_eq, length, ◌⊎◌, ◌==◌, ==_iff, if◌then◌else◌, arith,
}
use kb_1_daemon.VaultCore.Metadata.{
  inherit_color, is_hex, lower_unit, is_hex_color, expand, normalize_folder_metadata_color,
}

lower_hex :
    (c : ℕ)
    → is_hex c ≡ true
    → (is_hex (lower_unit c) ≡ true) × (lower_unit (lower_unit c) ≡ lower_unit c)
unfolding is_hex lower_unit
lower_hex c h = (ground arith, ground arith)

abbrev normal : Text → Text
normal s = expand (map lower_unit (b'#' ∷ s))

six :
    (a b c d e f : ℕ)
    → all is_hex (a ∷ b ∷ c ∷ d ∷ e ∷ f ∷ []) ≡ true
    → map lower_unit (a ∷ b ∷ c ∷ d ∷ e ∷ f ∷ []) ≡ a ∷ b ∷ c ∷ d ∷ e ∷ f ∷ []
    → normalize_folder_metadata_color (b'#' ∷ a ∷ b ∷ c ∷ d ∷ e ∷ f ∷ [])
      ≡ some (b'#' ∷ a ∷ b ∷ c ∷ d ∷ e ∷ f ∷ [])
unfolding normalize_folder_metadata_color is_hex_color
six a b c d e f h l = rw h (ap (λ t. some (b'#' ∷ t)) l)

all_six :
    (a b c d e f : ℕ)
    → is_hex a ≡ true
    → is_hex b ≡ true
    → is_hex c ≡ true
    → is_hex d ≡ true
    → is_hex e ≡ true
    → is_hex f ≡ true
    → normalize_folder_metadata_color (
        b'#'
        ∷ lower_unit a
        ∷ lower_unit b
        ∷ lower_unit c
        ∷ lower_unit d
        ∷ lower_unit e
        ∷ lower_unit f
        ∷ [])
      ≡ some (
          b'#'
          ∷ lower_unit a
          ∷ lower_unit b
          ∷ lower_unit c
          ∷ lower_unit d
          ∷ lower_unit e
          ∷ lower_unit f
          ∷ [])
all_six a b c d e f ha hb hc hd he hf =
    let (pa, la) = lower_hex a ha in
    let (pb, lb) = lower_hex b hb in
    let (pc, lc) = lower_hex c hc in
    let (pd, ld) = lower_hex d hd in
    let (pe, le) = lower_hex e he in
    let (pf, lf) = lower_hex f hf in
    six _ _ _ _ _ _ (rw (pa, pb, pc, pd, pe, pf) refl) (rw (la, lb, lc, ld, le, lf) refl)

sharp : lower_unit b'#' ≡ b'#'
unfolding lower_unit
sharp = refl

normal_lem :
    (s : Text)
    → all is_hex s ≡ true
    → (length s == 3 || length s == 6) ≡ true
    → normalize_folder_metadata_color (normal s) ≡ some (normal s)
normal_lem [] h l = cc
normal_lem (a ∷ []) h l = cc
normal_lem (a ∷ b ∷ []) h l = cc
normal_lem (a ∷ b ∷ c ∷ []) h l =
    let (ha, r) = &&-true (is_hex a) _ h in
    let (hb, r') = &&-true (is_hex b) _ r in
    let (hc, _) = &&-true (is_hex c) true r' in all_six a a b b c c ha ha hb hb hc hc
normal_lem (a ∷ b ∷ c ∷ d ∷ []) h l = cc
normal_lem (a ∷ b ∷ c ∷ d ∷ e ∷ []) h l = cc
normal_lem (a ∷ b ∷ c ∷ d ∷ e ∷ f ∷ []) h l =
    let (ha, r) = &&-true (is_hex a) _ h in
    let (hb, r') = &&-true (is_hex b) _ r in
    let (hc, r2) = &&-true (is_hex c) _ r' in
    let (hd, r3) = &&-true (is_hex d) _ r2 in
    let (he, r4) = &&-true (is_hex e) _ r3 in
    let (hf, _) = &&-true (is_hex f) true r4 in rw sharp (all_six a b c d e f ha hb hc hd he hf)
normal_lem (a ∷ b ∷ c ∷ d ∷ e ∷ f ∷ g ∷ s) h l = ground arith

hex_color_lem :
    (color : Text)
    → is_hex_color color ≡ true
    → normalize_folder_metadata_color (expand (map lower_unit color))
      ≡ some (expand (map lower_unit color))
unfolding is_hex_color
hex_color_lem [] h = cc
hex_color_lem (c ∷ s) h =
    let (front, count) = &&-true (c == b'#' && all is_hex s) (length s == 3 || length s == 6) h in
    let (first, digits) = &&-true (c == b'#') (all is_hex s) front in
    let same : c ≡ b'#' = (==_iff c b'#').0 first in
    subst
      (λ u.
        normalize_folder_metadata_color (expand (map lower_unit (u ∷ s)))
        ≡ some (expand (map lower_unit (u ∷ s))))
      (sym same) (normal_lem s digits count)

accepted :
    (inherits hex : Bool) (color normalized : Text)
    → (if inherits then some inherit_color else if hex then some color else none) ≡ some normalized
    → (normalized ≡ inherit_color) ⊎ (hex ≡ true) × (color ≡ normalized)
accepted true hex color normalized e = inl cc
accepted false true color normalized e = inr (refl, cc)
accepted false false color normalized e = cc

-- Normalising a color that is normalised changes nothing.
pub normalize_folder_metadata_color_idem :
    (color normalized : Text)
    → normalize_folder_metadata_color color ≡ some normalized
    → normalize_folder_metadata_color normalized ≡ some normalized
unfolding normalize_folder_metadata_color
normalize_folder_metadata_color_idem color normalized e =
    elim (accepted (text_eq color inherit_color) (is_hex_color color)
      (expand (map lower_unit color)) normalized e) [
        | inl same ↦ rw same refl
        | inr (hex, same) ↦
            subst (λ t. normalize_folder_metadata_color t ≡ some t) same (hex_color_lem color hex)
      ]
