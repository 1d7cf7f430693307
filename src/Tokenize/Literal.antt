-- ===== src/Tokenize/Literal.antt =====
-- tokenize.c: string and character literals.
-- A string literal is read by its three functions into a list of units, which is the buffer without
-- the terminating zero; the functions differ in how they read a unit.
pub mod Buffer
pub mod Contents
pub mod Within
use chibicc.Common.{
  ℕ, suc, zero, ◌+◌, ◌-◌, ◌*◌, ◌/◌, ◌%◌, ◌^◌, Bool, true, false, Option, none, some, List, [], ◌∷◌,
  ◌++◌, ◌==◌, ltb, if◌then◌else◌, drop, bit_and,
}
use chibicc.Common.Words.{sign_extend}
use chibicc.Unicode.Utf8.{decode_utf8}
use chibicc.Tokenize.Result.{Result, ok, failed, overrun, out_of_fuel, ◌>>=◌}
use chibicc.Tokenize.Chars.{first}
use chibicc.Tokenize.Lines.{backslash}
use chibicc.Tokenize.Escape.{read_escaped_char, string_literal_end}

abbrev pub decoded : Option (ℕ × ℕ) → Result (ℕ × ℕ)
decoded none = failed
decoded (some r) = ok r

-- The units that a character gives, and the number of bytes that it takes.
abbrev pub UnitReader : Type 0
UnitReader = List ℕ → Result (List ℕ × ℕ)

abbrev pub escape_unit : ℕ → List ℕ → Result (List ℕ × ℕ)
escape_unit modulus p =
    read_escaped_char (drop 1 p) >>= (λ (r : ℕ × ℕ). ok (r.0 % modulus ∷ [], r.1 + 1))

unfoldable pub char_unit : List ℕ → Result (List ℕ × ℕ)
unfolding read_escaped_char
char_unit p = if first p == backslash then escape_unit (2 ^ 8) p else ok (first p ∷ [], 1)

-- A code point in UTF-16.
abbrev pub utf16_units : ℕ → List ℕ
utf16_units c =
    if ltb c 0x10000
    then c ∷ []
    else (0xd800 + bit_and ((c - 0x10000) / 2 ^ 10) 0x3ff)
      ∷ (0xdc00 + bit_and (c - 0x10000) 0x3ff)
      ∷ []

unfoldable pub utf16_unit : List ℕ → Result (List ℕ × ℕ)
unfolding read_escaped_char decode_utf8
utf16_unit p =
    if first p == backslash
    then escape_unit (2 ^ 16) p
    else decoded (decode_utf8 p) >>= (λ (r : ℕ × ℕ). ok (utf16_units r.0, r.1))

unfoldable pub utf32_unit : List ℕ → Result (List ℕ × ℕ)
unfolding read_escaped_char decode_utf8
utf32_unit p =
    if first p == backslash
    then escape_unit (2 ^ 32) p
    else decoded (decode_utf8 p) >>= (λ (r : ℕ × ℕ). ok (r.0 ∷ [], r.1))

-- The loop up to `end`, which is `left` bytes ahead. Every round takes a byte, so that `left` rounds
-- are enough.
unfoldable pub read_units : UnitReader → ℕ → List ℕ → ℕ → Result (List ℕ)
read_units reader zero p left = if left == 0 then ok [] else out_of_fuel
read_units reader (suc fuel) p left =
    let rest = reader p >>= (λ (r : List ℕ × ℕ).
      read_units reader fuel (drop r.1 p) (left - r.1) >>= (λ us. ok (r.0 ++ us))) in
    if left == 0 then ok [] else rest

-- `p` stands behind the opening quote. The number is that of the bytes up to and with the closing one.
unfoldable pub read_literal : UnitReader → List ℕ → Result (List ℕ × ℕ)
unfolding string_literal_end read_units
read_literal reader p = do
  left ← string_literal_end p
  us ← read_units reader left p left
  ok (us, left + 1)

abbrev pub read_string_literal : List ℕ → Result (List ℕ × ℕ)
read_string_literal p = read_literal char_unit p

abbrev pub read_utf16_string_literal : List ℕ → Result (List ℕ × ℕ)
read_utf16_string_literal p = read_literal utf16_unit p

abbrev pub read_utf32_string_literal : List ℕ → Result (List ℕ × ℕ)
read_utf32_string_literal p = read_literal utf32_unit p

-- `strchr(p, '\'')`, as a distance.
unfoldable pub find_quote : List ℕ → Result ℕ
find_quote [] = failed
find_quote (c ∷ p) =
    let rest = find_quote p >>= (λ n. ok (n + 1)) in if c == b'\'' then ok 0 else rest

abbrev pub char_value : List ℕ → Result (ℕ × ℕ)
char_value p =
    if first p == backslash
    then read_escaped_char (drop 1 p) >>= (λ (r : ℕ × ℕ). ok (r.0, r.1 + 1))
    else decoded (decode_utf8 p)

-- The value, an `int` extended to `int64_t`, and the number of bytes up to and with the closing quote.
unfoldable pub closed_value : List ℕ → Result (ℕ × ℕ)
unfolding read_escaped_char decode_utf8 find_quote
closed_value p = do
  r ← char_value p
  n ← find_quote (drop r.1 p)
  ok (sign_extend 32 r.0, r.1 + n + 1)

-- A backslash at the end of the text escapes the terminator, and `strchr` starts behind it.
unfoldable pub read_char_literal : List ℕ → Result (ℕ × ℕ)
unfolding closed_value
read_char_literal [] = failed
read_char_literal (d ∷ []) = if d == backslash then overrun else closed_value (d ∷ [])
read_char_literal (d ∷ e ∷ p) = closed_value (d ∷ e ∷ p)
