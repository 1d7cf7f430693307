-- ===== src/Tokenize/Universal.antt =====
-- tokenize.c: `read_universal_char` and `convert_universal_chars`.
-- The conversion overwrites the text that it reads, behind what it has read.
pub mod Convert
pub mod Spelling
use chibicc.Common.{
  ℕ, suc, zero, ◌+◌, ◌*◌, ◌%◌, ◌^◌, Bool, List, [], ◌∷◌, ◌++◌, ◌==◌, if◌then◌else◌, drop, length,
  true, false, ◌||◌, bit_or,
}
use chibicc.Unicode.Utf8.{encode_utf8}
use chibicc.Tokenize.Result.{Result, ok, failed, overrun, out_of_fuel, ◌>>=◌}
use chibicc.Tokenize.Chars.{first, is_hex, from_hex, startswith}
use chibicc.Tokenize.Lines.{backslash}

-- The loop, with `len` rounds to go. A character that is no digit makes the result 0, as does the end
-- of the text.
unfoldable pub read_hex : ℕ → List ℕ → ℕ → ℕ
read_hex zero p c = c
read_hex (suc len) [] c = 0
read_hex (suc len) (d ∷ p) c =
    let rest = read_hex len p (bit_or (c * 2 ^ 4 % 2 ^ 32) (from_hex d)) in
    if is_hex d then rest else 0

unfoldable pub read_universal_char : List ℕ → ℕ → ℕ
unfolding read_hex
read_universal_char p len = read_hex len p 0

-- What stands at `p`: an escape of the given number of bytes for a character that is not 0, or none.
unfoldable pub universal_at : List ℕ → ℕ × ℕ
unfolding read_universal_char
universal_at p =
    if startswith p (b'\\' ∷ b'u' ∷ [])
    then (6, read_universal_char (drop 2 p) 4)
    else if startswith p (b'\\' ∷ b'U' ∷ [])
    then (10, read_universal_char (drop 2 p) 8)
    else (0, 0)

abbrev pub is_escape : List ℕ → Bool
is_escape p = startswith p (b'\\' ∷ b'u' ∷ []) || startswith p (b'\\' ∷ b'U' ∷ [])

abbrev pub is_empty : List ℕ → Bool
is_empty [] = true
is_empty (c ∷ p) = false

abbrev pub prepend : List ℕ → Result (List ℕ) → Result (List ℕ)
prepend xs r = r >>= (λ ys. ok (xs ++ ys))

-- A round consumes a byte at least. Behind a backslash that starts no escape two bytes are copied: at
-- the end of the text the second is the NUL, and the loop goes on past it.
unfoldable pub convert_loop : ℕ → List ℕ → Result (List ℕ)
unfolding universal_at
convert_loop zero [] = ok []
convert_loop zero (c ∷ p) = out_of_fuel
convert_loop (suc fuel) [] = ok []
convert_loop (suc fuel) (c ∷ p) =
    let u = universal_at (c ∷ p) in
    let escape = prepend (encode_utf8 u.1) (convert_loop fuel (drop u.0 (c ∷ p))) in
    let one = prepend (c ∷ []) (convert_loop fuel p) in
    let two = prepend (c ∷ first p ∷ []) (convert_loop fuel (drop 1 p)) in
    if is_escape (c ∷ p)
    then if u.1 == 0 then one else escape
    else if c == backslash
    then if is_empty p then overrun else two
    else one

unfoldable pub convert_universal_chars : List ℕ → Result (List ℕ)
unfolding convert_loop
convert_universal_chars text = convert_loop (length text) text
