-- ===== src/Tokenize/Escape.antt =====
-- tokenize.c: `read_escaped_char` and `string_literal_end`.
use chibicc.Common.{
  ℕ, ◌+◌, ◌-◌, ◌*◌, ◌%◌, ◌^◌, ◌≤◌, ◌<◌, ◌≡◌, arith, true, List, [], ◌∷◌, ◌==◌, ltb, if◌then◌else◌,
  drop, length, length-drop,
}
use chibicc.Tokenize.Result.{Result, ok, failed, overrun, ◌>>=◌}
use chibicc.Tokenize.Chars.{first, is_octal, is_hex, from_hex}
use chibicc.Tokenize.Lines.{newline, backslash}

-- A `char` as an `int`, by its bit pattern: `char` is signed.
abbrev pub char_to_int : ℕ → ℕ
char_to_int c = if ltb c 128 then c else 2 ^ 32 - 256 + c

-- The loop over hexadecimal digits, with the value so far and the number of bytes read.
unfoldable pub hex_loop : List ℕ → ℕ → ℕ → ℕ × ℕ
hex_loop [] c n = (c, n)
hex_loop (d ∷ p) c n =
    let rest = hex_loop p ((c * 2 ^ 4 + from_hex d) % 2 ^ 32) (n + 1) in
    if is_hex d then rest else (c, n)

abbrev pub simple_escape : ℕ → ℕ
simple_escape c =
    if c == b'a'
    then 7
    else if c == b'b'
    then 8
    else if c == b't'
    then 9
    else if c == b'n'
    then 10
    else if c == b'v'
    then 11
    else if c == b'f'
    then 12
    else if c == b'r'
    then 13
    else if c == b'e'
    then 27
    else char_to_int c

-- One to three octal digits.
abbrev pub octal_escape : List ℕ → ℕ × ℕ
octal_escape p =
    let c1 = first p - b'0' in
    let c2 = c1 * 2 ^ 3 + (first (drop 1 p) - b'0') in
    let c3 = c2 * 2 ^ 3 + (first (drop 2 p) - b'0') in
    if is_octal (first (drop 1 p))
    then if is_octal (first (drop 2 p)) then (c3, 3) else (c2, 2)
    else (c1, 1)

-- Behind the backslash: the value, a 32-bit pattern, and the number of bytes read.
unfoldable pub read_escaped_char : List ℕ → Result (ℕ × ℕ)
unfolding hex_loop
read_escaped_char p =
    if is_octal (first p)
    then ok (octal_escape p)
    else if first p == b'x'
    then if is_hex (first (drop 1 p)) then ok (hex_loop (drop 1 p) 0 1) else failed
    else ok (simple_escape (first p), 1)

-- The number of bytes before the closing quote. A backslash hides the byte behind it, also a NUL.
unfoldable pub string_literal_end : List ℕ → Result ℕ
string_literal_end [] = failed
string_literal_end (c ∷ []) =
    if c == b'"'
    then ok 0
    else if c == newline
    then failed
    else if c == backslash
    then overrun
    else failed
string_literal_end (c ∷ d ∷ p) =
    let two = string_literal_end p >>= (λ n. ok (n + 2)) in
    let one = string_literal_end (d ∷ p) >>= (λ n. ok (n + 1)) in
    if c == b'"' then ok 0 else if c == newline then failed else if c == backslash then two else one

hex_loop-le :
    (p : List ℕ) (c n : ℕ)
    → c < 2 ^ 32
    → (n ≤ (hex_loop p c n).1) × ((hex_loop p c n).1 ≤ n + length p) × ((hex_loop p c n).0 < 2 ^ 32)
unfolding hex_loop
hex_loop-le [] c n h = omega arith
hex_loop-le (d ∷ p) c n h =
    ground (arith, hex_loop-le p ((c * 2 ^ 4 + from_hex d) % 2 ^ 32) (n + 1))

octal_escape-le :
    (p : List ℕ)
    → is_octal (first p) ≡ true
    → (0 < (octal_escape p).1) × ((octal_escape p).1 ≤ length p) × ((octal_escape p).0 < 512)
octal_escape-le [] h = ground arith
octal_escape-le (a ∷ []) h = ground arith
octal_escape-le (a ∷ b ∷ []) h = ground arith
octal_escape-le (a ∷ b ∷ c ∷ p) h = ground arith

-- Where a byte stands behind the backslash, an escape sequence that is valid takes at least one byte and
-- none past the end of the text, and its value is a 32-bit pattern.
pub read_escaped_char_bounds :
    (p : List ℕ) (v n : ℕ)
    → 0 < length p
    → first p < 256
    → read_escaped_char p ≡ ok (v, n)
    → (0 < n) × (n ≤ length p) × (v < 2 ^ 32)
unfolding read_escaped_char
read_escaped_char_bounds p v n h b e =
    ground (arith, octal_escape-le p, hex_loop-le (drop 1 p) 0 1, length-drop 1 p)
