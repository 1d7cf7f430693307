-- ===== src/Unicode/Utf8/Bounds.antt =====
-- unicode.c: what `decode_utf8` reads and returns on every input.
use native.Mathlib.Nat.{pow-succ', one-le-pow}
use chibicc.Common.{
  ℕ, zero, suc, ◌+◌, ◌*◌, ◌/◌, ◌%◌, ◌^◌, ◌≤◌, ◌<◌, ◌≡◌, ap, some, List, [], ◌∷◌, arith, length,
  bit_and, bit_or, ◌==◌, Bool-cases, inl, inr,
}
use chibicc.Common.BitLaws.{bit_and-mask}
use chibicc.Unicode.Utf8.{byte_at, decode_rest, decode_long, decode_utf8}
use chibicc.Unicode.Utf8.RoundTrip.{append_six}

-- Only a byte of the string, never the terminator, is at least 1.
lt_of_byte : (p : List ℕ) (i : ℕ) → 0 < byte_at p i → i < length p
lt_of_byte [] i h = absurd (omega arith)
lt_of_byte (b ∷ p) zero h = omega arith
lt_of_byte (b ∷ p) (suc i) h = omega (arith, lt_of_byte p i h)

decode_rest-length :
    (left i : ℕ) (p : List ℕ) (c r : ℕ)
    → i ≤ length p
    → decode_rest left i p c ≡ some r
    → left + i ≤ length p
unfolding decode_rest
decode_rest-length zero i p c r h e = omega arith
decode_rest-length (suc left) i p c r h e = ground (
  arith,
  lt_of_byte p i,
  decode_rest-length left (i + 1) p (bit_or (c * 2 ^ 6 % 2 ^ 32) (bit_and (byte_at p i) 0b111111))
      r,
)

decode_rest-lt :
    (left i : ℕ) (p : List ℕ) (c r m : ℕ)
    → c < m
    → m * 64 ^ left ≤ 2 ^ 26
    → decode_rest left i p c ≡ some r
    → r < m * 64 ^ left
unfolding decode_rest
decode_rest-lt zero i p c r m h k e = ground arith
decode_rest-lt (suc left) i p c r m h k e =
    let w : m * 64 ^ suc left ≡ m * 64 * 64 ^ left =
      omega (arith, ap (λ (t : ℕ). m * t) (pow-succ' 64 left)) in
    let b : m ≤ m * 64 ^ suc left = grind (arith, one-le-pow (suc left) 64 (omega arith)) in
    elim (Bool-cases (byte_at p i / 2 ^ 6 == 0b10)) [
      | inr bad ↦ absurd (ground arith)
      | inl good ↦ rw w (
          decode_rest-lt left (i + 1) p (c * 64 + byte_at p i % 64) r (m * 64) (omega arith)
            (omega arith) (ground (arith, append_six c (byte_at p i))))
    ]

decode_long-bounds :
    (left : ℕ) (p : List ℕ) (c r n m : ℕ)
    → 0 < length p
    → c < m
    → m * 64 ^ left ≤ 2 ^ 26
    → decode_long left p c ≡ some (r, n)
    → (n ≡ left + 1) × (n ≤ length p) × (r < m * 64 ^ left)
decode_long-bounds left p c r n m pos h k e =
    ground (arith, decode_rest-length left 1 p c r, decode_rest-lt left 1 p c r m)

-- Inside the string, where decoding does not fail, it consumes one to four bytes, none of them
-- past the end of the string, and returns a number of at most 21 bits.
pub decode_utf8_bounds :
    (p : List ℕ) (c n : ℕ)
    → 0 < length p
    → decode_utf8 p ≡ some (c, n)
    → (0 < n) × (n ≤ 4) × (n ≤ length p) × (c < 2 ^ 21)
unfolding decode_utf8
decode_utf8_bounds p c n pos e =
    let b = byte_at p 0 in
    ground (
      arith,
      bit_and-mask 3 b,
      bit_and-mask 4 b,
      bit_and-mask 5 b,
      decode_long-bounds 3 p (bit_and b 0b111) c n 8,
      decode_long-bounds 2 p (bit_and b 0b1111) c n 16,
      decode_long-bounds 1 p (bit_and b 0b11111) c n 32,
    )

-- Also at the end of a string a byte is consumed.
pub decode_utf8-pos : (p : List ℕ) (c n : ℕ) → decode_utf8 p ≡ some (c, n) → 0 < n
unfolding decode_utf8
decode_utf8-pos p c n e = ground arith
