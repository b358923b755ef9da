-- ===== src/Tunnel/Base64/RoundTrip.antt =====
-- Encoding bytes and decoding the text gives the bytes.
use mathlib.Core.Option
use kb_1_daemon.Prelude.{
  ℕ, zero, suc, ◌+◌, ◌≤◌, sym, ◌∙◌, inl, inr, map, ◌++◌, append_assoc, append-nil, length,
  length-append, length-drop, take, drop, drop-drop, take-append-drop, ltb, ltb-false, Bool-cases,
  ◌*◌, ◌/◌, ◌%◌, ◌<◌, ◌≡◌, refl, ap, ap₂, false, [], ◌∷◌, some, arith, Text, All, ◌==◌,
}
use kb_1_daemon.Tunnel.Base64.{
  Bytes, pad, sextet_unit, unit_sextet, btoa, is_space, strip_spaces, strip_padding, decode, atob,
  chunk_size, binary_from, binary_of, bytes_to_base64, zero_bytes, set_byte, copy_units, copied,
  base64_to_bytes,
}

abbrev pub IsByte : ℕ → Type 0
IsByte b = b < 256

unit_sextet-sextet_unit : (n : ℕ) → n < 64 → unit_sextet (sextet_unit n) ≡ some n
unfolding unit_sextet sextet_unit
unit_sextet-sextet_unit n h = ground arith

sextet_unit-plain :
    (n : ℕ) → n < 64 → (is_space (sextet_unit n) ≡ false) × ((sextet_unit n == pad) ≡ false)
unfolding sextet_unit is_space
sextet_unit-plain n h = ground arith

-- The four numbers that three bytes give.
s1 : (a : ℕ) → IsByte a → a / 4 < 64
s1 a h = omega arith

s2 : (a b : ℕ) → IsByte b → a % 4 * 16 + b / 16 < 64
s2 a b h = omega arith

s3 : (b c : ℕ) → IsByte c → b % 16 * 4 + c / 64 < 64
s3 b c h = omega arith

s4 : (c : ℕ) → c % 64 < 64
s4 c = omega arith

s2_last : (a : ℕ) → a % 4 * 16 < 64
s2_last a = omega arith

s3_last : (b : ℕ) → b % 16 * 4 < 64
s3_last b = omega arith

abbrev NoSpace : ℕ → Type 0
NoSpace c = is_space c ≡ false

strip_spaces_of_NoSpace : (s : Text) → All NoSpace s → strip_spaces s ≡ s
unfolding strip_spaces
strip_spaces_of_NoSpace [] h = refl
strip_spaces_of_NoSpace (c ∷ s) (n, h) = rw (n, strip_spaces_of_NoSpace s h)

unit_plain : (n : ℕ) → n < 64 → NoSpace (sextet_unit n)
unit_plain n h = (sextet_unit-plain n h).0

pad_plain : NoSpace pad
unfolding is_space
pad_plain = refl

btoa-NoSpace : (bs : Bytes) → All IsByte bs → All NoSpace (btoa bs)
unfolding btoa
btoa-NoSpace [] h = tt
btoa-NoSpace (a ∷ []) (ha, h) =
    (unit_plain _ (s1 a ha), (unit_plain _ (s2_last a), (pad_plain, (pad_plain, tt))))
btoa-NoSpace (a ∷ b ∷ []) (ha, (hb, h)) = (
  unit_plain _ (s1 a ha),
  (unit_plain _ (s2 a b hb), (unit_plain _ (s3_last b), (pad_plain, tt))),
)
btoa-NoSpace (a ∷ b ∷ c ∷ rest) (ha, (hb, (hc, h))) = (
  unit_plain _ (s1 a ha),
  (
    unit_plain _ (s2 a b hb),
    (unit_plain _ (s3 b c hc), (unit_plain _ (s4 c), btoa-NoSpace rest h)),
  ),
)

decode_one :
    (a : ℕ)
    → IsByte a
    → decode (sextet_unit (a / 4) ∷ sextet_unit (a % 4 * 16) ∷ []) ≡ some (a ∷ [])
unfolding decode
decode_one a h =
    rw (unit_sextet-sextet_unit _ (s1 a h), unit_sextet-sextet_unit _ (s2_last a))
      (ap (λ n. some (n ∷ [])) (omega arith))

decode_two :
    (a b : ℕ)
    → IsByte a
    → IsByte b
    → decode
        (sextet_unit (a / 4) ∷ sextet_unit (a % 4 * 16 + b / 16) ∷ sextet_unit (b % 16 * 4) ∷ [])
      ≡ some (a ∷ b ∷ [])
unfolding decode
decode_two a b ha hb =
    rw
      (
        unit_sextet-sextet_unit _ (s1 a ha),
        unit_sextet-sextet_unit _ (s2 a b hb),
        unit_sextet-sextet_unit _ (s3_last b),
      )
      (ap₂ (λ m n. some (m ∷ n ∷ [])) (omega arith) (omega arith))

decode_three :
    (a b c : ℕ) (more : Text) (rest : Bytes)
    → IsByte a
    → IsByte b
    → IsByte c
    → decode more ≡ some rest
    → decode (
        sextet_unit (a / 4)
        ∷ sextet_unit (a % 4 * 16 + b / 16)
        ∷ sextet_unit (b % 16 * 4 + c / 64)
        ∷ sextet_unit (c % 64)
        ∷ more)
      ≡ some (a ∷ b ∷ c ∷ rest)
unfolding decode
decode_three a b c more rest ha hb hc h =
    let e1 : a / 4 * 4 + (a % 4 * 16 + b / 16) / 16 ≡ a = omega arith in
    let e2 : (a % 4 * 16 + b / 16) % 16 * 16 + (b % 16 * 4 + c / 64) / 4 ≡ b = omega arith in
    let e3 : (b % 16 * 4 + c / 64) % 4 * 64 + c % 64 ≡ c = omega arith in
    rw
      (
        unit_sextet-sextet_unit _ (s1 a ha),
        unit_sextet-sextet_unit _ (s2 a b hb),
        unit_sextet-sextet_unit _ (s3 b c hc),
        unit_sextet-sextet_unit _ (s4 c),
        h,
      )
      (cc (e1, e2, e3))

-- More bytes give more units, so the padding of the text is the padding of its end.
strip_padding-cons :
    (w x y z : ℕ) (d : ℕ) (rest : Bytes)
    → strip_padding (w ∷ x ∷ y ∷ z ∷ btoa (d ∷ rest))
      ≡ w ∷ x ∷ y ∷ z ∷ strip_padding (btoa (d ∷ rest))
unfolding btoa strip_padding
strip_padding-cons w x y z d [] = refl
strip_padding-cons w x y z d (e ∷ []) = refl
strip_padding-cons w x y z d (e ∷ f ∷ rest) = refl

decode_nil : decode [] ≡ some []
unfolding decode
decode_nil = refl

decode-strip : (bs : Bytes) → All IsByte bs → decode (strip_padding (btoa bs)) ≡ some bs
unfolding btoa strip_padding
decode-strip [] h = decode_nil
decode-strip (a ∷ []) (ha, h) = decode_one a ha
decode-strip (a ∷ b ∷ []) (ha, (hb, h)) =
    rw ((sextet_unit-plain _ (s3_last b)).1) (decode_two a b ha hb)
decode-strip (a ∷ b ∷ c ∷ []) (ha, (hb, (hc, h))) =
    rw ((sextet_unit-plain _ (s3 b c hc)).1, (sextet_unit-plain _ (s4 c)).1)
      (decode_three a b c [] [] ha hb hc decode_nil)
decode-strip (a ∷ b ∷ c ∷ d ∷ rest) (ha, (hb, (hc, h))) =
    rw (strip_padding-cons _ _ _ _ d rest)
      (decode_three a b c _ (d ∷ rest) ha hb hc (decode-strip (d ∷ rest) h))

atob-btoa : (bs : Bytes) → All IsByte bs → atob (btoa bs) ≡ some bs
unfolding atob
atob-btoa bs h = rw (strip_spaces_of_NoSpace _ (btoa-NoSpace bs h)) (decode-strip bs h)

empty_of : (bs : Bytes) → length bs ≡ 0 → bs ≡ []
empty_of [] e = refl
empty_of (b ∷ bs) e = absurd (omega arith)

-- What is left beyond the end.
drop_end : (offset : ℕ) (bs : Bytes) → length bs ≤ offset → drop offset bs ≡ []
drop_end offset bs h = empty_of (drop offset bs) (omega (arith, length-drop offset bs))

binary_from_lem :
    (rounds offset : ℕ) (bs : Bytes) (binary : Text)
    → length bs ≤ offset + rounds
    → binary_from rounds offset bs binary ≡ binary ++ drop offset bs
unfolding binary_from
binary_from_lem zero offset bs binary h =
    sym (ap (λ t. binary ++ t) (drop_end offset bs (omega arith)) ∙ append-nil binary)
binary_from_lem (suc rounds) offset bs binary h = elim (Bool-cases (ltb offset (length bs))) [
  | inr out ↦ rw out (
      sym (
        ap (λ t. binary ++ t) (drop_end offset bs (omega (arith, ltb-false offset (length bs) out)))
        ∙ append-nil binary))
  | inl inside ↦ rw inside (
      binary_from_lem rounds (offset + chunk_size) bs _ (omega arith)
      ∙ append_assoc binary (take chunk_size (drop offset bs)) (drop (offset + chunk_size) bs)
      ∙ ap (λ t. binary ++ (take chunk_size (drop offset bs) ++ t))
          (sym (drop-drop offset chunk_size bs))
      ∙ ap (λ t. binary ++ t) (take-append-drop chunk_size (drop offset bs)))
]

-- The chunks that the loop puts together are the bytes.
pub binary_of_lem : (bs : Bytes) → binary_of bs ≡ bs
unfolding binary_of
binary_of_lem bs = binary_from_lem (length bs) 0 bs [] (omega arith)

set_byte-append :
    (filled : Bytes) (c b : ℕ) (bs : Bytes)
    → set_byte (length filled) c (filled ++ b ∷ bs) ≡ filled ++ c % 256 ∷ bs
set_byte-append [] c b bs = refl
set_byte-append (d ∷ filled) c b bs = ap (λ l. d ∷ l) (set_byte-append filled c b bs)

-- The loop fills the array from its start.
copy_units_lem :
    (binary : Text) (filled : Bytes) (i : ℕ)
    → i ≡ length filled
    → copy_units binary i (filled ++ zero_bytes (length binary))
      ≡ filled ++ map (λ c. c % 256) binary
unfolding copy_units
copy_units_lem [] filled i e = refl
copy_units_lem (c ∷ binary) filled i e =
    ap (λ l. copy_units binary (i + 1) l)
      (ap (λ k. set_byte k c (filled ++ 0 ∷ zero_bytes (length binary))) e
        ∙ set_byte-append filled c 0 (zero_bytes (length binary))
        ∙ sym (append_assoc filled (c % 256 ∷ []) (zero_bytes (length binary))))
    ∙ copy_units_lem binary (filled ++ c % 256 ∷ []) (i + 1)
        (omega (arith, length-append filled (c % 256 ∷ [])))
    ∙ append_assoc filled (c % 256 ∷ []) (map (λ d. d % 256) binary)

low_bits : (bs : Bytes) → All IsByte bs → map (λ c. c % 256) bs ≡ bs
low_bits [] h = refl
low_bits (b ∷ bs) (hb, h) =
    let same : b % 256 ≡ b = omega arith in ap₂ (λ x xs. x ∷ xs) same (low_bits bs h)

-- What `bytesToBase64` makes of bytes, in chunks, `base64ToBytes` turns back into the bytes: each list of numbers
-- below 256.
pub base64_to_bytes-bytes_to_base64 :
    (bs : Bytes) → All IsByte bs → base64_to_bytes (bytes_to_base64 bs) ≡ some bs
unfolding base64_to_bytes bytes_to_base64
base64_to_bytes-bytes_to_base64 bs h =
    ap (λ t. Option.map copied (atob (btoa t))) (binary_of_lem bs)
    ∙ ap (Option.map copied) (atob-btoa bs h)
    ∙ ap some (copy_units_lem bs [] 0 refl ∙ low_bits bs h)
