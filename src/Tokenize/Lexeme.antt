-- ===== src/Tokenize/Lexeme.antt =====
-- tokenize.c: what stands at a place of the text: the tests of the loop of `tokenize`, in their order.
pub mod Words
pub mod Within
use chibicc.Common.{
  ℕ, suc, zero, ◌+◌, ◌-◌, ◌%◌, ◌^◌, Bool, true, false, not, ◌||◌, ◌&&◌, Option, none, some, List,
  [], ◌∷◌, ◌==◌, leb, ltb, if◌then◌else◌, drop, length,
}
use chibicc.Common.Words.{sign_extend}
use chibicc.Types.{CType, char_type, int_type, uint_type, ushort_type}
use chibicc.Unicode.Utf8.{decode_utf8}
use chibicc.Unicode.Ranges.{is_ident1, is_ident2}
use chibicc.Tokenize.Result.{Result, ok, failed, overrun, out_of_fuel, ◌>>=◌}
use chibicc.Tokenize.Chars.{first, is_digit, is_alnum, is_space, is_punct, startswith}
use chibicc.Tokenize.Lines.{newline}
use chibicc.Tokenize.Literal.{
  decoded, read_string_literal, read_utf16_string_literal, read_utf32_string_literal,
  read_char_literal,
}

-- The distance to the newline. `while (*p != '\n')` does not stop at the end of the text.
unfoldable pub skip_line : List ℕ → Result ℕ
skip_line [] = overrun
skip_line (c ∷ p) =
    let rest = skip_line p >>= (λ n. ok (n + 1)) in if c == newline then ok 0 else rest

-- `strstr(p, "*/")`, as the distance to what follows it.
unfoldable pub skip_comment : List ℕ → Result ℕ
skip_comment [] = failed
skip_comment (c ∷ p) =
    let rest = skip_comment p >>= (λ n. ok (n + 1)) in
    if startswith (c ∷ p) (b'*' ∷ b'/' ∷ []) then ok 2 else rest

abbrev pub is_exponent : ℕ → Bool
is_exponent c = (c == b'e' || c == b'E') || (c == b'p' || c == b'P')

abbrev pub is_sign : ℕ → Bool
is_sign c = c == b'+' || c == b'-'

abbrev pub in_number : ℕ → Bool
in_number c = is_alnum c || c == b'.'

-- The length of the rest of a number.
unfoldable pub pp_number_loop : List ℕ → ℕ
pp_number_loop [] = 0
pp_number_loop (c ∷ []) = if in_number c then 1 else 0
pp_number_loop (c ∷ d ∷ p) =
    let two = suc (suc (pp_number_loop p)) in
    let one = suc (pp_number_loop (d ∷ p)) in
    if is_exponent c && is_sign d then two else if in_number c then one else 0

-- The loop of `read_ident`, with `n` bytes read.
unfoldable pub ident_loop : ℕ → List ℕ → ℕ → Result ℕ
ident_loop zero p n = out_of_fuel
ident_loop (suc fuel) p n = decoded (decode_utf8 p) >>= (λ (r : ℕ × ℕ).
    let rest = ident_loop fuel (drop r.1 p) (n + r.1) in if is_ident2 r.0 then rest else ok n)

-- The first character is read again by the loop.
unfoldable pub read_ident : List ℕ → Result ℕ
unfolding ident_loop
read_ident p =
    decoded (decode_utf8 p)
    >>= (λ (r : ℕ × ℕ). if is_ident1 r.0 then ident_loop (length p + 1) p 0 else ok 0)

-- The punctuators of more than one character, in the order of the table.
abbrev pub punctuators : List (List ℕ)
punctuators =
    (b'<' ∷ b'<' ∷ b'=' ∷ [])
    ∷ (b'>' ∷ b'>' ∷ b'=' ∷ [])
    ∷ (b'.' ∷ b'.' ∷ b'.' ∷ [])
    ∷ (b'=' ∷ b'=' ∷ [])
    ∷ (b'!' ∷ b'=' ∷ [])
    ∷ (b'<' ∷ b'=' ∷ [])
    ∷ (b'>' ∷ b'=' ∷ [])
    ∷ (b'-' ∷ b'>' ∷ [])
    ∷ (b'+' ∷ b'=' ∷ [])
    ∷ (b'-' ∷ b'=' ∷ [])
    ∷ (b'*' ∷ b'=' ∷ [])
    ∷ (b'/' ∷ b'=' ∷ [])
    ∷ (b'+' ∷ b'+' ∷ [])
    ∷ (b'-' ∷ b'-' ∷ [])
    ∷ (b'%' ∷ b'=' ∷ [])
    ∷ (b'&' ∷ b'=' ∷ [])
    ∷ (b'|' ∷ b'=' ∷ [])
    ∷ (b'^' ∷ b'=' ∷ [])
    ∷ (b'&' ∷ b'&' ∷ [])
    ∷ (b'|' ∷ b'|' ∷ [])
    ∷ (b'<' ∷ b'<' ∷ [])
    ∷ (b'>' ∷ b'>' ∷ [])
    ∷ (b'#' ∷ b'#' ∷ [])
    ∷ []

unfoldable pub find_punct : List (List ℕ) → List ℕ → Option ℕ
find_punct [] p = none
find_punct (kw ∷ kws) p =
    let rest = find_punct kws p in if startswith p kw then some (length kw) else rest

abbrev or_single : Option ℕ → ℕ → ℕ
or_single (some n) c = n
or_single none c = if is_punct c then 1 else 0

unfoldable pub read_punct : List ℕ → ℕ
unfolding find_punct
read_punct p = or_single (find_punct punctuators p) (first p)

pub data TokenKind : Type 0 where
  tk_ident tk_punct tk_keyword tk_str tk_num tk_pp_num tk_eof : TokenKind

-- `val` and `ty` of a number; `str` and the type of its elements.
pub data Payload : Type 0 where
  nothing : Payload
  number : ℕ → CType → Payload
  text : List ℕ → CType → Payload

-- White space or a comment, an end of line, or a token, with the number of bytes.
pub data Lexeme : Type 0 where
  blank : ℕ → Lexeme
  line_end : Lexeme
  lexeme : TokenKind → ℕ → Payload → Lexeme

-- A literal behind `skip` bytes of prefix and opening quote.
abbrev pub string_lexeme : CType → ℕ → Result (List ℕ × ℕ) → Result Lexeme
string_lexeme ty skip r =
    r >>= (λ (s : List ℕ × ℕ). ok (lexeme TokenKind.tk_str (skip + s.1) (Payload.text s.0 ty)))

abbrev pub char_lexeme : CType → (ℕ → ℕ) → ℕ → Result (ℕ × ℕ) → Result Lexeme
char_lexeme ty narrow skip r =
    r
    >>= (λ (s : ℕ × ℕ). ok (lexeme TokenKind.tk_num (skip + s.1) (Payload.number (narrow s.0) ty)))

abbrev punct_lexeme : ℕ → Result Lexeme
punct_lexeme n = if n == 0 then failed else ok (lexeme TokenKind.tk_punct n Payload.nothing)

abbrev pub word_lexeme : List ℕ → Result Lexeme
unfolding read_punct
word_lexeme p = read_ident p >>= (λ (n : ℕ).
    if n == 0
    then punct_lexeme (read_punct p)
    else ok (lexeme TokenKind.tk_ident n Payload.nothing))

abbrev pub prefixed : List ℕ → ℕ → ℕ → Bool
prefixed p a b = startswith p (a ∷ b ∷ [])

-- The literals.
unfoldable pub literal_lexeme : List ℕ → Result Lexeme
unfolding read_punct
literal_lexeme p =
    if first p == b'"'
    then string_lexeme char_type 1 (read_string_literal (drop 1 p))
    else if startswith p (b'u' ∷ b'8' ∷ b'"' ∷ [])
    then string_lexeme char_type 3 (read_string_literal (drop 3 p))
    else if prefixed p b'u' b'"'
    then string_lexeme ushort_type 2 (read_utf16_string_literal (drop 2 p))
    else if prefixed p b'L' b'"'
    then string_lexeme int_type 2 (read_utf32_string_literal (drop 2 p))
    else if prefixed p b'U' b'"'
    then string_lexeme uint_type 2 (read_utf32_string_literal (drop 2 p))
    else if first p == b'\''
    then char_lexeme int_type (sign_extend 8) 1 (read_char_literal (drop 1 p))
    else if prefixed p b'u' b'\''
    then char_lexeme ushort_type (λ v. v % 2 ^ 16) 2 (read_char_literal (drop 2 p))
    else if prefixed p b'L' b'\''
    then char_lexeme int_type (λ v. v) 2 (read_char_literal (drop 2 p))
    else if prefixed p b'U' b'\''
    then char_lexeme uint_type (λ v. v) 2 (read_char_literal (drop 2 p))
    else word_lexeme p

unfoldable pub lexeme_at : List ℕ → Result Lexeme
unfolding literal_lexeme
lexeme_at p =
    if prefixed p b'/' b'/'
    then skip_line (drop 2 p) >>= (λ (n : ℕ). ok (blank (2 + n)))
    else if prefixed p b'/' b'*'
    then skip_comment (drop 2 p) >>= (λ (n : ℕ). ok (blank (2 + n)))
    else if first p == newline
    then ok line_end
    else if is_space (first p)
    then ok (blank 1)
    else if is_digit (first p) || (first p == b'.' && is_digit (first (drop 1 p)))
    then ok (lexeme TokenKind.tk_pp_num (1 + pp_number_loop (drop 1 p)) Payload.nothing)
    else literal_lexeme p
