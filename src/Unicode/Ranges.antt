-- ===== src/Unicode/Ranges.antt =====
-- unicode.c: `in_range`, `is_ident1`, `is_ident2`.
use chibicc.Common.{
  ℕ, ◌≡◌, refl, Bool, true, false, ◌&&◌, ◌||◌, List, [], ◌∷◌, arith, leb, ◌==◌, if◌then◌else◌, ◌<◌,
  all_below, all_below_sound,
}

-- `-1` compared with a `uint32_t`: the end of a table.
abbrev pub sentinel : ℕ
sentinel = 0xffff_ffff

-- The loop reads the table two entries at a time up to the sentinel.
unfoldable pub in_range : List ℕ → ℕ → Bool
in_range [] c = false
in_range (lo ∷ []) c = false
in_range (lo ∷ hi ∷ range) c =
    let rest = in_range range c in
    if lo == sentinel then false else if leb lo c && leb c hi then true else rest

abbrev pub ident1_range : List ℕ
ident1_range =
    b'_' ∷ b'_' ∷ b'a' ∷ b'z' ∷ b'A' ∷ b'Z' ∷ b'$' ∷ b'$' ∷ 0x00A8 ∷ 0x00A8 ∷ 0x00AA ∷ 0x00AA
    ∷ 0x00AD ∷ 0x00AD ∷ 0x00AF ∷ 0x00AF ∷ 0x00B2 ∷ 0x00B5 ∷ 0x00B7 ∷ 0x00BA ∷ 0x00BC ∷ 0x00BE
    ∷ 0x00C0 ∷ 0x00D6 ∷ 0x00D8 ∷ 0x00F6 ∷ 0x00F8 ∷ 0x00FF ∷ 0x0100 ∷ 0x02FF ∷ 0x0370 ∷ 0x167F
    ∷ 0x1681 ∷ 0x180D ∷ 0x180F ∷ 0x1DBF ∷ 0x1E00 ∷ 0x1FFF ∷ 0x200B ∷ 0x200D ∷ 0x202A ∷ 0x202E
    ∷ 0x203F ∷ 0x2040 ∷ 0x2054 ∷ 0x2054 ∷ 0x2060 ∷ 0x206F ∷ 0x2070 ∷ 0x20CF ∷ 0x2100 ∷ 0x218F
    ∷ 0x2460 ∷ 0x24FF ∷ 0x2776 ∷ 0x2793 ∷ 0x2C00 ∷ 0x2DFF ∷ 0x2E80 ∷ 0x2FFF ∷ 0x3004 ∷ 0x3007
    ∷ 0x3021 ∷ 0x302F ∷ 0x3031 ∷ 0x303F ∷ 0x3040 ∷ 0xD7FF ∷ 0xF900 ∷ 0xFD3D ∷ 0xFD40 ∷ 0xFDCF
    ∷ 0xFDF0 ∷ 0xFE1F ∷ 0xFE30 ∷ 0xFE44 ∷ 0xFE47 ∷ 0xFFFD ∷ 0x10000 ∷ 0x1FFFD ∷ 0x20000 ∷ 0x2FFFD
    ∷ 0x30000 ∷ 0x3FFFD ∷ 0x40000 ∷ 0x4FFFD ∷ 0x50000 ∷ 0x5FFFD ∷ 0x60000 ∷ 0x6FFFD ∷ 0x70000
    ∷ 0x7FFFD ∷ 0x80000 ∷ 0x8FFFD ∷ 0x90000 ∷ 0x9FFFD ∷ 0xA0000 ∷ 0xAFFFD ∷ 0xB0000 ∷ 0xBFFFD
    ∷ 0xC0000 ∷ 0xCFFFD ∷ 0xD0000 ∷ 0xDFFFD ∷ 0xE0000 ∷ 0xEFFFD ∷ sentinel ∷ []

abbrev pub ident2_range : List ℕ
ident2_range =
    b'0' ∷ b'9' ∷ b'$' ∷ b'$' ∷ 0x0300 ∷ 0x036F ∷ 0x1DC0 ∷ 0x1DFF ∷ 0x20D0 ∷ 0x20FF ∷ 0xFE20
    ∷ 0xFE2F ∷ sentinel ∷ []

unfoldable pub is_ident1 : ℕ → Bool
unfolding in_range
is_ident1 c = in_range ident1_range c

unfoldable pub is_ident2 : ℕ → Bool
unfolding is_ident1
is_ident2 c = is_ident1 c || in_range ident2_range c

abbrev pub is_letter : ℕ → Bool
is_letter c = (leb b'a' c && leb c b'z') || ((leb b'A' c && leb c b'Z') || (c == b'_' || c == b'$'))

abbrev pub is_decimal : ℕ → Bool
is_decimal c = leb b'0' c && leb c b'9'

same : Bool → Bool → Bool
same true b = b
same false true = false
same false false = true

same_sound : (a b : Bool) → same a b ≡ true → a ≡ b
unfolding same
same_sound a b h = ground arith

ascii_table :
    all_below 128
      (λ c. same (is_ident1 c) (is_letter c) && same (is_ident2 c) (is_letter c || is_decimal c))
    ≡ true
unfolding all_below is_ident2 same
ascii_table = refl

-- Among the ASCII characters an identifier starts with a letter, `_` or `$`, and goes on with one of
-- these or a digit.
pub is_ident_ascii :
    (c : ℕ) → c < 128 → (is_ident1 c ≡ is_letter c) × (is_ident2 c ≡ (is_letter c || is_decimal c))
is_ident_ascii c h =
    let t = all_below_sound 128 _ c ascii_table h in
    (
      same_sound (is_ident1 c) (is_letter c) (ground arith),
      same_sound (is_ident2 c) (is_letter c || is_decimal c) (ground arith),
    )
