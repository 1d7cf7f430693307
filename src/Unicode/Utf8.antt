-- ===== src/Unicode/Utf8.antt =====
-- unicode.c: `encode_utf8` and `decode_utf8`.
-- A `char *` is the list of the bytes (numbers below 256) before the terminating NUL; a read at or
-- past the end of the list is 0. The pointer that `decode_utf8` stores in `*new_pos` is the number
-- of bytes that it consumed. `error_at`, which does not return, is `none`.
pub mod RoundTrip
pub mod Bounds
use chibicc.Common.{
  ℕ, zero, suc, ◌+◌, ◌*◌, ◌/◌, ◌%◌, ◌^◌, bit_and, bit_or, Option, none, some, List, [], ◌∷◌, ltb,
  leb, ◌==◌, if◌then◌else◌, get_or,
}

-- A store into a `char`.
abbrev pub to_char : ℕ → ℕ
to_char n = n % 2 ^ 8

-- The bytes written to `buf`; the returned length is the length of the list.
unfoldable pub encode_utf8 : ℕ → List ℕ
encode_utf8 c =
    if leb c 0x7F
    then to_char c ∷ []
    else if leb c 0x7FF
    then to_char (bit_or 0b11000000 (c / 2 ^ 6))
      ∷ to_char (bit_or 0b10000000 (bit_and c 0b00111111))
      ∷ []
    else if leb c 0xFFFF
    then to_char (bit_or 0b11100000 (c / 2 ^ 12))
      ∷ to_char (bit_or 0b10000000 (bit_and (c / 2 ^ 6) 0b00111111))
      ∷ to_char (bit_or 0b10000000 (bit_and c 0b00111111))
      ∷ []
    else to_char (bit_or 0b11110000 (c / 2 ^ 18))
      ∷ to_char (bit_or 0b10000000 (bit_and (c / 2 ^ 12) 0b00111111))
      ∷ to_char (bit_or 0b10000000 (bit_and (c / 2 ^ 6) 0b00111111))
      ∷ to_char (bit_or 0b10000000 (bit_and c 0b00111111))
      ∷ []

-- The byte `*p`.
abbrev pub byte_at : List ℕ → ℕ → ℕ
byte_at p i = get_or p i 0

-- The loop over the continuation bytes, with `left` rounds to go.
unfoldable pub decode_rest : ℕ → ℕ → List ℕ → ℕ → Option ℕ
decode_rest zero i p c = some c
decode_rest (suc left) i p c =
    let rest =
      decode_rest left (i + 1) p (bit_or (c * 2 ^ 6 % 2 ^ 32) (bit_and (byte_at p i) 0b111111)) in
    if byte_at p i / 2 ^ 6 == 0b10 then rest else none

-- The code point from the lead byte's payload and `len - 1` continuation bytes.
abbrev pub decode_long : ℕ → List ℕ → ℕ → Option (ℕ × ℕ)
decode_long left p c = elim (decode_rest left 1 p c) [ none ↦ none | some r ↦ some (r, left + 1) ]

-- The code point and the number of bytes consumed.
unfoldable pub decode_utf8 : List ℕ → Option (ℕ × ℕ)
unfolding decode_rest
decode_utf8 p =
    let b = byte_at p 0 in
    if ltb b 128
    then some (b, 1)
    else if leb 0b11110000 b
    then decode_long 3 p (bit_and b 0b111)
    else if leb 0b11100000 b
    then decode_long 2 p (bit_and b 0b1111)
    else if leb 0b11000000 b
    then decode_long 1 p (bit_and b 0b11111)
    else none
