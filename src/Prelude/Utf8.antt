-- ===== src/Prelude/Utf8.antt =====
-- The length of a string in UTF-8, as `TextEncoder` counts it: a unit of a surrogate pair is not
-- counted by itself, and a lone surrogate is written as U+FFFD.
use Prim.Native.Nat.{ℕ, ◌+◌}
use mathlib.Core.Bool.{Bool, false, ◌&&◌}
use mathlib.Core.List.{[], ◌∷◌}
use kb_1_daemon.Prelude.Tests.{ltb, leb, if◌then◌else◌}
use kb_1_daemon.Prelude.Strings.{Text}

abbrev pub is_high_surrogate : ℕ → Bool
is_high_surrogate c = leb 55296 c && ltb c 56320

abbrev pub is_low_surrogate : ℕ → Bool
is_low_surrogate c = leb 56320 c && ltb c 57344

abbrev pub unit_bytes : ℕ → ℕ
unit_bytes c = if ltb c 128 then 1 else if ltb c 2048 then 2 else 3

-- `paired` says that the unit before is a high surrogate, three bytes of the pair's four.
unfoldable pub utf8_after : Bool → Text → ℕ
utf8_after paired [] = 0
utf8_after paired (c ∷ s) =
    (if paired && is_low_surrogate c then 1 else unit_bytes c) + utf8_after (is_high_surrogate c) s

unfoldable pub utf8_length : Text → ℕ
unfolding utf8_after
utf8_length s = utf8_after false s
