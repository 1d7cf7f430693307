-- ===== src/Unicode/Utf8/RoundTrip.antt =====
-- unicode.c: `decode_utf8` reads back what `encode_utf8` wrote.
use mathlib.Core.Logic.{dite}
use chibicc.Common.{
  ap, dec_lt, ℕ, ◌+◌, ◌*◌, ◌/◌, ◌%◌, ◌^◌, ◌≤◌, ◌<◌, ◌≡◌, ◌∙◌, some, List, [], ◌∷◌, ◌++◌, arith,
  length, bit_and, bit_or,
}
use chibicc.Common.BitLaws.{bit_and-mask, bit_or-shifted}
use chibicc.Unicode.Utf8.{encode_utf8, decode_utf8}

-- A continuation byte carries six bits.
pub continuation : (x : ℕ) → bit_or 0b10000000 (bit_and x 0b111111) ≡ 128 + x % 64
continuation x = omega (arith, bit_and-mask 6 x, bit_or-shifted 6 2 (bit_and x 63))

pub lead_two : (x : ℕ) → x < 32 → bit_or 0b11000000 x ≡ 192 + x
lead_two x h = bit_or-shifted 6 3 x (omega arith)

pub lead_three : (x : ℕ) → x < 16 → bit_or 0b11100000 x ≡ 224 + x
lead_three x h = bit_or-shifted 5 7 x (omega arith)

pub lead_four : (x : ℕ) → x < 16 → bit_or 0b11110000 x ≡ 240 + x
lead_four x h = bit_or-shifted 4 15 x (omega arith)

-- The bytes as arithmetic on the code point.
encode_two : (c : ℕ) → 0x7F < c → c ≤ 0x7FF → encode_utf8 c ≡ (192 + c / 64) ∷ (128 + c % 64) ∷ []
unfolding encode_utf8
encode_two c h k = ground (arith, continuation c, lead_two (c / 2 ^ 6))

encode_three :
    (c : ℕ)
    → 0x7FF < c
    → c ≤ 0xFFFF
    → encode_utf8 c ≡ (224 + c / 4096) ∷ (128 + c / 64 % 64) ∷ (128 + c % 64) ∷ []
unfolding encode_utf8
encode_three c h k =
    ground (arith, continuation c, continuation (c / 2 ^ 6), lead_three (c / 2 ^ 12))

encode_four :
    (c : ℕ)
    → 0xFFFF < c
    → c < 2 ^ 21
    → encode_utf8 c
      ≡ (240 + c / 262144) ∷ (128 + c / 4096 % 64) ∷ (128 + c / 64 % 64) ∷ (128 + c % 64) ∷ []
unfolding encode_utf8
encode_four c h k = ground (
  arith,
  continuation c,
  continuation (c / 2 ^ 6),
  continuation (c / 2 ^ 12),
  lead_four (c / 2 ^ 18),
)

-- One round of the decoding loop appends six bits.
pub append_six :
    (c b : ℕ) → c < 2 ^ 26 → bit_or (c * 2 ^ 6 % 2 ^ 32) (bit_and b 0b111111) ≡ c * 64 + b % 64
append_six c b h = ground (arith, bit_and-mask 6 b, bit_or-shifted 6 c (b % 64))

module _ (rest : List ℕ) where
  decode_two :
      (q r : ℕ)
      → q < 32
      → r < 64
      → decode_utf8 ((192 + q) ∷ (128 + r) ∷ rest) ≡ some (q * 64 + r, 2)
  unfolding decode_utf8
  decode_two q r hq hr = ground (arith, bit_and-mask 5 (192 + q), append_six q (128 + r))

  decode_three :
      (q r s : ℕ)
      → q < 16
      → r < 64
      → s < 64
      → decode_utf8 ((224 + q) ∷ (128 + r) ∷ (128 + s) ∷ rest) ≡ some ((q * 64 + r) * 64 + s, 3)
  unfolding decode_utf8
  decode_three q r s hq hr hs =
      ground
        (arith, bit_and-mask 4 (224 + q), append_six q (128 + r), append_six (q * 64 + r) (128 + s))

  decode_four :
      (q r s t : ℕ)
      → q < 8
      → r < 64
      → s < 64
      → t < 64
      → decode_utf8 ((240 + q) ∷ (128 + r) ∷ (128 + s) ∷ (128 + t) ∷ rest)
        ≡ some (((q * 64 + r) * 64 + s) * 64 + t, 4)
  unfolding decode_utf8
  decode_four q r s t hq hr hs ht = ground (
    arith,
    bit_and-mask 3 (240 + q),
    append_six q (128 + r),
    append_six (q * 64 + r) (128 + s),
    append_six ((q * 64 + r) * 64 + s) (128 + t),
  )

  decode_one :
      (c : ℕ) → c ≤ 0x7F → decode_utf8 (encode_utf8 c ++ rest) ≡ some (c, length (encode_utf8 c))
  unfolding decode_utf8 encode_utf8
  decode_one c h = ground arith

  -- Whatever follows, decoding the encoding of a code point of at most 21 bits gives the code point
  -- and the number of bytes that the encoding has.
  pub decode_utf8-encode_utf8 :
      (c : ℕ) → c < 2 ^ 21 → decode_utf8 (encode_utf8 c ++ rest) ≡ some (c, length (encode_utf8 c))
  decode_utf8-encode_utf8 c h =
      dite (dec_lt 0xFFFF c)
        (λ p. rw (encode_four c p h) (
          decode_four (c / 262144) (c / 4096 % 64) (c / 64 % 64) (c % 64) (omega arith)
            (omega arith) (omega arith) (omega arith)
          ∙ ap (λ (x : ℕ). some (x, 4)) (omega arith)))
        (λ p.
          dite (dec_lt 0x7FF c)
            (λ q. rw (encode_three c q (omega arith)) (
              decode_three (c / 4096) (c / 64 % 64) (c % 64) (omega arith) (omega arith)
                (omega arith)
              ∙ ap (λ (x : ℕ). some (x, 3)) (omega arith)))
            (λ q.
              dite (dec_lt 0x7F c)
                (λ r. rw (encode_two c r (omega arith)) (
                  decode_two (c / 64) (c % 64) (omega arith) (omega arith)
                  ∙ ap (λ (x : ℕ). some (x, 2)) (omega arith)))
                (λ r. decode_one c (omega arith))))
