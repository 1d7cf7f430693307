-- ===== src/Unicode/Tests.antt =====
-- unicode.c at concrete inputs.
use chibicc.Common.{ℕ, ◌<◌, ◌≤◌, ◌||◌, ◌≡◌, refl, some, List, [], ◌∷◌, ◌++◌, arith, length}
use chibicc.Unicode.Utf8.{encode_utf8, decode_utf8}
use chibicc.Unicode.Utf8.RoundTrip.{decode_utf8-encode_utf8}
use chibicc.Unicode.Utf8.Bounds.{decode_utf8_bounds}
use chibicc.Unicode.Ranges.{is_ident1, is_ident2, is_ident_ascii, is_letter, is_decimal}
use chibicc.Unicode.Width.{columns, char_width, display_width}
use chibicc.Unicode.Width.Sum.{encode_all, sum_widths, display_width-encode_all}

-- The euro sign, followed by an `x`.
abbrev euro : List ℕ
euro = 0xE2 ∷ 0x82 ∷ 0xAC ∷ b'x' ∷ []

encode_utf8-euro : encode_utf8 0x20AC ++ (b'x' ∷ []) ≡ euro
unfolding encode_utf8
encode_utf8-euro = refl

decode_utf8-encode_utf8_example :
    decode_utf8 (encode_utf8 0x20AC ++ (b'x' ∷ [])) ≡ some (0x20AC, length (encode_utf8 0x20AC))
decode_utf8-encode_utf8_example = decode_utf8-encode_utf8 (b'x' ∷ []) 0x20AC (omega arith)

decode_utf8-euro : decode_utf8 euro ≡ some (0x20AC, 3)
unfolding decode_utf8
decode_utf8-euro = refl

decode_utf8_bounds_example : (0 < 3) × (3 ≤ 4) × (3 ≤ length euro) × (0x20AC < 2097152)
decode_utf8_bounds_example = decode_utf8_bounds euro 0x20AC 3 (omega arith) decode_utf8-euro

is_ident_ascii_example :
    (is_ident1 b'7' ≡ is_letter b'7') × (is_ident2 b'7' ≡ (is_letter b'7' || is_decimal b'7'))
is_ident_ascii_example = is_ident_ascii b'7' (omega arith)

-- An ideograph takes two columns, a letter one, a combining accent none.
sum_widths_mixed : sum_widths (0x6F22 ∷ b'e' ∷ 0x301 ∷ []) ≡ 3
unfolding sum_widths char_width
sum_widths_mixed = refl

display_width-encode_all_example :
    display_width
      (encode_all (0x6F22 ∷ b'e' ∷ 0x301 ∷ []) ++ [])
      (length (encode_all (0x6F22 ∷ b'e' ∷ 0x301 ∷ [])))
    ≡ columns (sum_widths (0x6F22 ∷ b'e' ∷ 0x301 ∷ []))
display_width-encode_all_example =
    display_width-encode_all (0x6F22 ∷ b'e' ∷ 0x301 ∷ []) []
      (omega arith, (omega arith, (omega arith, tt)))
