-- ===== src/Common/Words.antt =====
-- 64-bit words: an `int64_t` or `uint64_t` is its bit pattern, a number below 2 ^ 64. Signed
-- operations read the pattern in two's complement.
use Prim.Native.Nat.{ℕ, ◌+◌, ◌-◌, ◌*◌, ◌/◌, ◌%◌, ◌^◌}
use mathlib.Core.Bool.{Bool, xor}
use chibicc.Common.Tests.{ltb, leb, if◌then◌else◌}

abbrev pub word : ℕ → ℕ
word n = n % 2 ^ 64

abbrev pub add64 : ℕ → ℕ → ℕ
add64 a b = (a + b) % 2 ^ 64

abbrev pub sub64 : ℕ → ℕ → ℕ
sub64 a b = (a + 2 ^ 64 - b) % 2 ^ 64

abbrev pub mul64 : ℕ → ℕ → ℕ
mul64 a b = a * b % 2 ^ 64

abbrev pub neg64 : ℕ → ℕ
neg64 a = (2 ^ 64 - a) % 2 ^ 64

abbrev pub not64 : ℕ → ℕ
not64 a = 2 ^ 64 - 1 - a

-- The pattern of -1.
abbrev pub minus_one : ℕ
minus_one = 2 ^ 64 - 1

abbrev pub is_negative : ℕ → Bool
is_negative a = leb (2 ^ 63) a

abbrev pub magnitude : ℕ → ℕ
magnitude a = if is_negative a then 2 ^ 64 - a else a

abbrev pub signed_lt : ℕ → ℕ → Bool
signed_lt a b = ltb ((a + 2 ^ 63) % 2 ^ 64) ((b + 2 ^ 63) % 2 ^ 64)

abbrev pub signed_le : ℕ → ℕ → Bool
signed_le a b = leb ((a + 2 ^ 63) % 2 ^ 64) ((b + 2 ^ 63) % 2 ^ 64)

-- Division rounds towards zero, and the remainder has the sign of the dividend.
unfoldable pub signed_div : ℕ → ℕ → ℕ
signed_div a b =
    let q = magnitude a / magnitude b in
    if xor (is_negative a) (is_negative b) then neg64 q else word q

unfoldable pub signed_mod : ℕ → ℕ → ℕ
signed_mod a b = let r = magnitude a % magnitude b in if is_negative a then neg64 r else r

abbrev pub shl64 : ℕ → ℕ → ℕ
shl64 a k = a * 2 ^ k % 2 ^ 64

-- The arithmetic shift to the right.
unfoldable pub sar64 : ℕ → ℕ → ℕ
sar64 a k = if is_negative a then not64 (not64 a / 2 ^ k) else a / 2 ^ k

abbrev pub bool64 : Bool → ℕ
bool64 b = if b then 1 else 0

-- The low `w` bits of a word, extended with zeros or with the sign.
abbrev pub zero_extend : ℕ → ℕ → ℕ
zero_extend w a = a % 2 ^ w

abbrev pub sign_extend : ℕ → ℕ → ℕ
sign_extend w a = let low = a % 2 ^ w in if ltb low (2 ^ (w - 1)) then low else 2 ^ 64 - 2 ^ w + low
