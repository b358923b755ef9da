-- ===== src/Prelude/Trim.antt =====
-- `s.trim()`.
use Prim.Native.Nat.{ℕ}
use mathlib.Core.Bool.{Bool, ◌&&◌, ◌||◌}
use mathlib.Core.List.{[], ◌∷◌}
use kb_1_daemon.Prelude.Tests.{leb, ◌==◌, if◌then◌else◌}
use kb_1_daemon.Prelude.Strings.{Text}

-- The white space and the line ends of ECMAScript.
unfoldable pub is_white_space : ℕ → Bool
is_white_space c =
    (leb 9 c && leb c 13)
    || c == 32
    || c == 160
    || c == 5760
    || (leb 8192 c && leb c 8202)
    || c == 8232
    || c == 8233
    || c == 8239
    || c == 8287
    || c == 12288
    || c == 65279

unfoldable pub trim_start : Text → Text
unfolding is_white_space
trim_start [] = []
trim_start (c ∷ s) = if is_white_space c then trim_start s else c ∷ s

unfoldable pub reverse_onto : Text → Text → Text
reverse_onto [] s = s
reverse_onto (c ∷ t) s = reverse_onto t (c ∷ s)

unfoldable pub trim : Text → Text
unfolding trim_start reverse_onto
trim s = reverse_onto (trim_start (reverse_onto (trim_start s) [])) []
