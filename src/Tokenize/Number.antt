-- ===== src/Tokenize/Number.antt =====
-- tokenize.c: `convert_pp_int` and `convert_pp_number`.
-- `p` is the text from the token on. `strtoull` is that of the C library; `strtod` is a parameter.
pub mod FirstFit
pub mod Digits
use chibicc.Common.{
  ℕ, suc, zero, ◌+◌, ◌-◌, ◌*◌, ◌^◌, min, Bool, true, false, not, ◌||◌, ◌&&◌, Option, none, some,
  List, [], ◌∷◌, ◌==◌, leb, ltb, if◌then◌else◌, drop,
}
use chibicc.Types.{
  CType, int_type, uint_type, long_type, ulong_type, llong_type, ullong_type, float_type,
  double_type, ldouble_type,
}
use chibicc.Tokenize.Result.{Result, ok, failed}
use chibicc.Tokenize.Chars.{first, is_digit, is_hex, startswith}

-- The value of a digit or a letter, else a number that is no digit in any base.
abbrev pub digit_value : ℕ → ℕ
digit_value c =
    if is_digit c
    then c - b'0'
    else if leb b'a' c && leb c b'z'
    then c - b'a' + 10
    else if leb b'A' c && leb c b'Z'
    then c - b'A' + 10
    else 99

-- The value of the digits so far, and their number.
unfoldable pub strtoull_loop : ℕ → List ℕ → ℕ → ℕ → ℕ × ℕ
strtoull_loop base [] acc n = (acc, n)
strtoull_loop base (c ∷ p) acc n =
    let rest = strtoull_loop base p (acc * base + digit_value c) (n + 1) in
    if ltb (digit_value c) base then rest else (acc, n)

-- `0x` or `0X` before a hexadecimal digit.
abbrev pub has_hex_prefix : List ℕ → Bool
has_hex_prefix p =
    first p == b'0'
    && ((first (drop 1 p) == b'x' || first (drop 1 p) == b'X') && is_hex (first (drop 2 p)))

abbrev pub has_binary_prefix : List ℕ → Bool
has_binary_prefix p =
    first p == b'0'
    && ((first (drop 1 p) == b'b' || first (drop 1 p) == b'B')
        && (first (drop 2 p) == b'0' || first (drop 2 p) == b'1'))

-- The value, ULLONG_MAX where it overflows, and the number of bytes read. In base 16 a prefix is
-- accepted.
unfoldable pub strtoull : List ℕ → ℕ → ℕ × ℕ
unfolding strtoull_loop
strtoull p base =
    let skip : ℕ = if base == 16 && has_hex_prefix p then 2 else 0 in
    let r = strtoull_loop base (drop skip p) 0 skip in (min r.0 (2 ^ 64 - 1), r.1)

-- The base, and the number of bytes of its prefix.
abbrev pub base_of : List ℕ → ℕ × ℕ
base_of p =
    if has_hex_prefix p
    then (16, 2)
    else if has_binary_prefix p
    then (2, 2)
    else if first p == b'0'
    then (8, 0)
    else (10, 0)

pub record Suffix : Type 0 where
  pub l : Bool
  pub ll : Bool
  pub u : Bool
  pub size : ℕ

abbrev pub is_u : ℕ → Bool
is_u c = c == b'u' || c == b'U'

abbrev pub is_l : ℕ → Bool
is_l c = c == b'l' || c == b'L'

-- `LL` or `ll`.
abbrev pub is_double_l : List ℕ → Bool
is_double_l p = is_l (first p) && first p == first (drop 1 p)

unfoldable pub read_suffix : List ℕ → Suffix
read_suffix p =
    if (is_double_l p && is_u (first (drop 2 p))) || (is_u (first p) && is_double_l (drop 1 p))
    then record { l = false; ll = true; u = true; size = 3 }
    else if (is_l (first p) && is_u (first (drop 1 p)))
        || (is_u (first p) && is_l (first (drop 1 p)))
    then record { l = true; ll = false; u = true; size = 2 }
    else if is_double_l p
    then record { l = false; ll = true; u = false; size = 2 }
    else if is_l (first p)
    then record { l = true; ll = false; u = false; size = 1 }
    else if is_u (first p)
    then record { l = false; ll = false; u = true; size = 1 }
    else record { l = false; ll = false; u = false; size = 0 }

-- `val >> k` of an `int64_t`, as a test.
abbrev pub has_above : ℕ → ℕ → Bool
has_above k val = leb (2 ^ k) val

unfoldable pub pp_int_type : ℕ → Suffix → ℕ → CType
pp_int_type base s val =
    if base == 10
    then if s.ll && s.u
      then ullong_type
      else if s.ll
      then llong_type
      else if s.l && s.u
      then ulong_type
      else if s.l
      then long_type
      else if s.u
      then if has_above 32 val then ullong_type else uint_type
      else if has_above 31 val
      then llong_type
      else int_type
    else if s.ll && s.u
    then ullong_type
    else if s.ll
    then if has_above 63 val then ullong_type else llong_type
    else if s.l && s.u
    then ulong_type
    else if s.l
    then if has_above 32 val
      then if has_above 63 val then ullong_type else llong_type
      else long_type
    else if s.u
    then if has_above 32 val then ullong_type else uint_type
    else if has_above 63 val
    then ullong_type
    else if has_above 32 val
    then llong_type
    else if has_above 31 val
    then uint_type
    else int_type

-- The value and the type, where the token of `len` bytes is an integer.
unfoldable pub convert_pp_int : List ℕ → ℕ → Option (ℕ × CType)
convert_pp_int p len =
    let b = base_of p in
    let v = strtoull (drop b.1 p) b.0 in
    let s = read_suffix (drop (b.1 + v.1) p) in
    if b.1 + v.1 + s.size == len then some (v.0, pp_int_type b.0 s v.0) else none

pub data Number (F : Type 0) : Type 0 where
  integer : ℕ → CType → Number F
  floating : F → CType → Number F

module _ {F : Type 0} (strtod : List ℕ → F × ℕ) where
  -- The type by the suffix, and the length with it.
  abbrev pub float_suffix : ℕ → ℕ → CType × ℕ
  float_suffix c n =
      if c == b'f' || c == b'F'
      then (float_type, n + 1)
      else if c == b'l' || c == b'L'
      then (ldouble_type, n + 1)
      else (double_type, n)

  abbrev pub convert_pp_float : List ℕ → ℕ → Result (Number F)
  convert_pp_float p len =
      let r = strtod p in
      let s = float_suffix (first (drop r.1 p)) r.1 in
      if s.1 == len then ok (Number.floating r.0 s.0) else failed

  abbrev or_float : List ℕ → ℕ → Option (ℕ × CType) → Result (Number F)
  or_float p len (some (v, ty)) = ok (Number.integer v ty)
  or_float p len none = convert_pp_float p len

  unfoldable pub convert_pp_number : List ℕ → ℕ → Result (Number F)
  convert_pp_number p len = or_float p len (convert_pp_int p len)
