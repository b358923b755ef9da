-- ===== src/Tunnel/Base64.antt =====
-- `bytesToBase64` and `base64ToBytes` of packages/tunnel-protocol/src/index.ts, with the `btoa` and
-- the forgiving `atob` of the platform, on strings whose units are below 256. `none` is the exception that `atob` throws.
pub mod RoundTrip
mod Tests
use mathlib.Core.Option
use kb_1_daemon.Prelude.{
  ℕ, zero, suc, ◌++◌, length, take, drop, ◌+◌, ◌-◌, ◌*◌, ◌/◌, ◌%◌, Bool, ◌&&◌, ◌||◌, List, [], ◌∷◌,
  Option, none, some, Text, ltb, leb, ◌==◌, if◌then◌else◌,
}

abbrev pub Bytes : Type 0
Bytes = List ℕ

abbrev pub pad : ℕ
pad = b'='

-- The unit of a number below 64, and back.
pub sextet_unit : ℕ → ℕ
sextet_unit n =
    if ltb n 26
    then n + 65
    else if ltb n 52
    then n + 71
    else if ltb n 62
    then n - 4
    else if n == 62
    then b'+'
    else b'/'

pub unit_sextet : ℕ → Option ℕ
unit_sextet c =
    if leb b'A' c && leb c b'Z'
    then some (c - 65)
    else if leb b'a' c && leb c b'z'
    then some (c - 71)
    else if leb b'0' c && leb c b'9'
    then some (c + 4)
    else if c == b'+'
    then some 62
    else if c == b'/'
    then some 63
    else none

unfoldable pub btoa : Text → Text
unfolding sextet_unit
btoa [] = []
btoa (a ∷ []) = sextet_unit (a / 4) ∷ sextet_unit (a % 4 * 16) ∷ pad ∷ pad ∷ []
btoa (a ∷ b ∷ []) =
    sextet_unit (a / 4) ∷ sextet_unit (a % 4 * 16 + b / 16) ∷ sextet_unit (b % 16 * 4) ∷ pad ∷ []
btoa (a ∷ b ∷ c ∷ rest) =
    sextet_unit (a / 4)
    ∷ sextet_unit (a % 4 * 16 + b / 16)
    ∷ sextet_unit (b % 16 * 4 + c / 64)
    ∷ sextet_unit (c % 64)
    ∷ btoa rest

pub is_space : ℕ → Bool
is_space c = c == 9 || c == 10 || c == 12 || c == 13 || c == 32

pub strip_spaces : Text → Text
unfolding is_space
strip_spaces [] = []
strip_spaces (c ∷ s) = let rest = strip_spaces s in if is_space c then rest else c ∷ rest

-- One or two padding units at the end, where the length is a multiple of four.
pub strip_padding : Text → Text
strip_padding (w ∷ x ∷ y ∷ z ∷ []) =
    if y == pad && z == pad
    then w ∷ x ∷ []
    else if z == pad
    then w ∷ x ∷ y ∷ []
    else w ∷ x ∷ y ∷ z ∷ []
strip_padding (w ∷ x ∷ y ∷ z ∷ v ∷ rest) = w ∷ x ∷ y ∷ z ∷ strip_padding (v ∷ rest)
strip_padding s = s

infixl 5 ◌>>=◌
abbrev ◌>>=◌ : {A B : Type 0} → Option A → (A → Option B) → Option B
none >>= f = none
some a >>= f = f a

pub decode : Text → Option Text
unfolding unit_sextet
decode [] = some []
decode (w ∷ []) = none
decode (w ∷ x ∷ []) = do p ← unit_sextet w; q ← unit_sextet x; some ((p * 4 + q / 16) ∷ [])
decode (w ∷ x ∷ y ∷ []) = do
  p ← unit_sextet w
  q ← unit_sextet x
  r ← unit_sextet y
  some ((p * 4 + q / 16) ∷ (q % 16 * 16 + r / 4) ∷ [])
decode (w ∷ x ∷ y ∷ z ∷ rest) = do
  p ← unit_sextet w
  q ← unit_sextet x
  r ← unit_sextet y
  s ← unit_sextet z
  more ← decode rest
  some ((p * 4 + q / 16) ∷ (q % 16 * 16 + r / 4) ∷ (r % 4 * 64 + s) ∷ more)

unfoldable pub atob : Text → Option Text
unfolding strip_spaces strip_padding decode
atob s = decode (strip_padding (strip_spaces s))

abbrev pub chunk_size : ℕ
chunk_size = 32768

-- The loop of `bytesToBase64`: `String.fromCharCode` of a byte is the unit with its number.
unfoldable pub binary_from : ℕ → ℕ → Bytes → Text → Text
binary_from zero offset bytes binary = binary
binary_from (suc rounds) offset bytes binary =
    let rest =
      binary_from rounds (offset + chunk_size) bytes
        (binary ++ take chunk_size (drop offset bytes)) in
    if ltb offset (length bytes) then rest else binary

-- As many rounds as bytes are enough: `RoundTrip.binary_of_lem`.
unfoldable pub binary_of : Bytes → Text
unfolding binary_from
binary_of bytes = binary_from (length bytes) 0 bytes []

unfoldable pub bytes_to_base64 : Bytes → Text
unfolding binary_of btoa
bytes_to_base64 bytes = btoa (binary_of bytes)

-- `new Uint8Array(length)`
abbrev pub zero_bytes : ℕ → Bytes
zero_bytes zero = []
zero_bytes (suc n) = 0 ∷ zero_bytes n

-- `bytes[i] = value`, which keeps the low eight bits and ignores an index out of range.
abbrev pub set_byte : ℕ → ℕ → Bytes → Bytes
set_byte i value [] = []
set_byte zero value (b ∷ bs) = value % 256 ∷ bs
set_byte (suc i) value (b ∷ bs) = b ∷ set_byte i value bs

-- The loop of `base64ToBytes` over the units from the index `i` on.
unfoldable pub copy_units : Text → ℕ → Bytes → Bytes
copy_units [] i bytes = bytes
copy_units (c ∷ binary) i bytes = copy_units binary (i + 1) (set_byte i c bytes)

abbrev pub copied : Text → Bytes
copied binary = copy_units binary 0 (zero_bytes (length binary))

unfoldable pub base64_to_bytes : Text → Option Bytes
unfolding copy_units atob
base64_to_bytes s = Option.map copied (atob s)
