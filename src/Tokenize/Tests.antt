-- ===== src/Tokenize/Tests.antt =====
-- tokenize.c at concrete texts.
use chibicc.Common.{
  ℕ, Bool, true, false, ◌+◌, ◌^◌, ◌-◌, ◌≤◌, ◌<◌, ◌≡◌, refl, arith, List, [], ◌∷◌, ◌++◌, some,
  length, min,
}
use chibicc.Tokenize.Result.{Result, ok, overrun}
use chibicc.Tokenize.Lines.{
  newline, backslash, carriage_return, canonicalize_newline, remove_backslash_newline,
}
use chibicc.Tokenize.Lines.Canonical.{with_end, canonicalize_newline-with_end}
use chibicc.Tokenize.Lines.Splice.{
  lacks_newline, all_lack_newline, continued, joined, remove_backslash_newline-lines,
}
use chibicc.Tokenize.Universal.{prepend, convert_universal_chars}
use chibicc.Tokenize.Universal.Convert.{Fits, convert_universal_chars-Fits}
use chibicc.Tokenize.Universal.Spelling.{
  value_from, all_digits, spelled, convert_universal_chars-spelled,
}
use chibicc.Tokenize.Escape.{read_escaped_char, read_escaped_char_bounds}
use chibicc.Tokenize.Literal.{
  read_string_literal, read_utf16_string_literal, read_utf32_string_literal,
}
use chibicc.Tokenize.Literal.Contents.{units_of, utf16_form, read_string_literal-encode_all}
use chibicc.Tokenize.Literal.Buffer.{IsStored, read_literal-IsStored_all}
use chibicc.Tokenize.Number.{pp_int_type, convert_pp_int}
use chibicc.Tokenize.Number.Digits.{number, digits, plain_suffix, convert_pp_int-decimal}
use chibicc.Tokenize.Scan.{Token, tokenize, tokenize_file}
use chibicc.Tokenize.Scan.Places.{Scans, tokenize-Scans}
use chibicc.Tokenize.Scan.LineNumbers.{AreNumbered, tokenize-AreNumbered}
use chibicc.Tokenize.Prepare.Text.{lacks_nul}
use chibicc.Tokenize.Scan.File.{IsTokenized, tokenize_file-IsTokenized}
use chibicc.Tokenize.Lexeme.{lexeme_at, read_ident, skip_line}
use chibicc.Unicode.Utf8.{encode_utf8, decode_utf8}
use chibicc.Unicode.Ranges.{is_ident1, is_ident2}
use chibicc.Unicode.Width.Sum.{encode_all}

-- `int x;`, a comment behind it.
abbrev declaration : List ℕ
declaration = b'i' ∷ b'n' ∷ b't' ∷ b' ' ∷ b'x' ∷ b';' ∷ newline ∷ b'/' ∷ b'/' ∷ b'x' ∷ newline ∷ []

abbrev places : Result (List Token) → List (ℕ × ℕ × ℕ)
places (ok ts) = of ts
  where
    of : List Token → List (ℕ × ℕ × ℕ)
    of [] = []
    of (t ∷ ts) = (t.loc, t.len, t.line_no) ∷ of ts
places _ = []

tokenize-declaration :
    places (tokenize declaration) ≡ (0, 3, 1) ∷ (4, 1, 1) ∷ (5, 1, 1) ∷ (11, 0, 3) ∷ []
unfolding tokenize lexeme_at read_ident decode_utf8 is_ident1 is_ident2 skip_line
tokenize-declaration = refl

-- A comment that nothing ends.
tokenize_open_comment : tokenize (b'/' ∷ b'/' ∷ b'x' ∷ []) ≡ overrun
unfolding tokenize lexeme_at skip_line
tokenize_open_comment = refl

tokenize_file-IsTokenized_example : IsTokenized (length declaration + 1) (tokenize_file declaration)
unfolding lacks_nul
tokenize_file-IsTokenized_example = tokenize_file-IsTokenized declaration refl

-- A NUL byte in a comment: the line is read past the end of the text.
tokenize_file_nul : tokenize_file (b'/' ∷ b'/' ∷ 0 ∷ []) ≡ overrun
unfolding tokenize_file lexeme_at skip_line
tokenize_file_nul = refl

tokenize-Scans_example : Scans 11 0 declaration (tokenize declaration)
tokenize-Scans_example = tokenize-Scans declaration

-- The tokens of a text, or none.
abbrev tokens : Result (List Token) → List Token
tokens (ok ts) = ts
tokens _ = []

tokenize-declaration_ok : tokenize declaration ≡ ok (tokens (tokenize declaration))
unfolding tokenize lexeme_at read_ident decode_utf8 is_ident1 is_ident2 skip_line
tokenize-declaration_ok = refl

tokenize-AreNumbered_example : AreNumbered declaration (tokens (tokenize declaration))
tokenize-AreNumbered_example =
    tokenize-AreNumbered declaration (tokens (tokenize declaration)) tokenize-declaration_ok

-- Two lines, the first with a letter of two bytes.
abbrev lines : List ℕ
lines = b'a' ∷ newline ∷ 0xc3 ∷ 0xa4 ∷ newline ∷ []

canonicalize_newline-with_end_example :
    (canonicalize_newline lines ≡ lines)
    × (canonicalize_newline (with_end (carriage_return ∷ newline ∷ []) lines) ≡ lines)
    × (canonicalize_newline (with_end (carriage_return ∷ []) lines) ≡ lines)
canonicalize_newline-with_end_example = canonicalize_newline-with_end lines (ground arith)

-- `a`, continued twice, and `b`.
abbrev continued_lines : List ℕ
continued_lines = b'a' ∷ backslash ∷ newline ∷ backslash ∷ newline ∷ b'b' ∷ newline ∷ lines

remove_backslash_newline-lines_example :
    remove_backslash_newline continued_lines
    ≡ b'a' ∷ b'b' ∷ newline ∷ newline ∷ newline ∷ remove_backslash_newline lines
unfolding continued joined lacks_newline all_lack_newline
remove_backslash_newline-lines_example =
    remove_backslash_newline-lines ((b'a' ∷ []) ∷ [] ∷ []) (b'b' ∷ []) lines refl refl
      (ground arith)

convert_universal_chars-Fits_example : Fits lines (convert_universal_chars lines)
convert_universal_chars-Fits_example = convert_universal_chars-Fits lines refl

-- `\U0001F600`, with a letter in upper case.
abbrev long_digits : List (Bool × ℕ)
long_digits =
    (false, 0)
    ∷ (false, 0)
    ∷ (false, 0)
    ∷ (false, 1)
    ∷ (true, 15)
    ∷ (false, 6)
    ∷ (false, 0)
    ∷ (false, 0)
    ∷ []

convert_universal_chars-spelled_example :
    convert_universal_chars (spelled true long_digits lines)
    ≡ prepend (encode_utf8 0x1f600) (convert_universal_chars lines)
unfolding value_from all_digits
convert_universal_chars-spelled_example =
    convert_universal_chars-spelled true long_digits lines refl refl (omega arith)

-- `\x41"`, behind the backslash.
abbrev hexadecimal_escape : List ℕ
hexadecimal_escape = b'x' ∷ b'4' ∷ b'1' ∷ b'"' ∷ []

read_escaped_char_hexadecimal : read_escaped_char hexadecimal_escape ≡ ok (0x41, 3)
unfolding read_escaped_char
read_escaped_char_hexadecimal = refl

read_escaped_char_bounds_example : (0 < 3) × (3 ≤ length hexadecimal_escape) × (0x41 < 2 ^ 32)
read_escaped_char_bounds_example =
    read_escaped_char_bounds hexadecimal_escape 0x41 3 (omega arith) (omega arith)
      read_escaped_char_hexadecimal

-- An ASCII character, one that UTF-16 has two units for.
abbrev characters : List ℕ
characters = b'a' ∷ 0x1f600 ∷ []

read_string_literal-encode_all_example :
    let text = encode_all characters ++ (b'"' ∷ b';' ∷ []) in
    (read_string_literal text ≡ ok (encode_all characters, length (encode_all characters) + 1))
    × (read_utf16_string_literal text
        ≡ ok (units_of utf16_form characters, length (encode_all characters) + 1))
    × (read_utf32_string_literal text ≡ ok (characters, length (encode_all characters) + 1))
read_string_literal-encode_all_example =
    read_string_literal-encode_all characters (b';' ∷ []) (ground arith)

read_literal-IsStored_all_example :
    let text = b'a' ∷ backslash ∷ b'n' ∷ b'"' ∷ [] in
    IsStored 0 (read_string_literal text)
    × IsStored 1 (read_utf16_string_literal text)
    × IsStored 0 (read_utf32_string_literal text)
read_literal-IsStored_all_example = read_literal-IsStored_all (b'a' ∷ backslash ∷ b'n' ∷ b'"' ∷ [])

-- 4294967296;
convert_pp_int-decimal_example :
    let ds : List ℕ = 2 ∷ 9 ∷ 4 ∷ 9 ∷ 6 ∷ 7 ∷ 2 ∷ 9 ∷ 6 ∷ [] in
    let val = min (number 10 0 (4 ∷ ds)) (2 ^ 64 - 1) in
    convert_pp_int (digits (4 ∷ ds) ++ (b';' ∷ [])) (length (4 ∷ ds))
    ≡ some (val, pp_int_type 10 plain_suffix val)
convert_pp_int-decimal_example =
    convert_pp_int-decimal 4 (2 ∷ 9 ∷ 4 ∷ 9 ∷ 6 ∷ 7 ∷ 2 ∷ 9 ∷ 6 ∷ []) (b';' ∷ []) (omega arith)
      (omega arith) refl
