-- ===== src/Tokenize/Chars.antt =====
-- The tests of <ctype.h> in the C locale, and `from_hex` of tokenize.c.
use chibicc.Common.{
  ℕ, ◌+◌, ◌-◌, ◌<◌, ◌≡◌, arith, ◌&&◌, ◌||◌, Bool, true, false, List, [], ◌∷◌, ◌==◌, ltb, leb,
  if◌then◌else◌,
}

-- The character at the pointer.
abbrev pub first : List ℕ → ℕ
first [] = 0
first (c ∷ cs) = c

abbrev pub is_digit : ℕ → Bool
is_digit c = leb b'0' c && leb c b'9'

abbrev pub is_octal : ℕ → Bool
is_octal c = leb b'0' c && leb c b'7'

abbrev pub is_hex : ℕ → Bool
is_hex c = is_digit c || ((leb b'a' c && leb c b'f') || (leb b'A' c && leb c b'F'))

abbrev pub is_alnum : ℕ → Bool
is_alnum c = is_digit c || ((leb b'a' c && leb c b'z') || (leb b'A' c && leb c b'Z'))

abbrev pub is_space : ℕ → Bool
is_space c = c == b' ' || (leb 9 c && leb c 13)

-- Printing characters that are neither a space nor alphanumeric.
abbrev pub is_punct : ℕ → Bool
is_punct c =
    (leb 33 c && leb c 47)
    || ((leb 58 c && leb c 64) || ((leb 91 c && leb c 96) || (leb 123 c && leb c 126)))

abbrev pub from_hex : ℕ → ℕ
from_hex c =
    if is_digit c
    then c - b'0'
    else if leb b'a' c && leb c b'f'
    then c - b'a' + 10
    else c - b'A' + 10

-- `startswith`, which compares with a text that has no NUL.
abbrev pub startswith : List ℕ → List ℕ → Bool
startswith p [] = true
startswith [] (d ∷ q) = false
startswith (c ∷ p) (d ∷ q) = c == d && startswith p q

-- The digit that a number below 16 is written as.
abbrev pub hex_digit : ℕ → ℕ
hex_digit d = if ltb d 10 then b'0' + d else b'a' + (d - 10)

pub from_hex-hex_digit :
    (d : ℕ) → d < 16 → (is_hex (hex_digit d) ≡ true) × (from_hex (hex_digit d) ≡ d)
from_hex-hex_digit d h = ground arith

pub from_hex-lt : (c : ℕ) → is_hex c ≡ true → from_hex c < 16
from_hex-lt c h = ground arith
