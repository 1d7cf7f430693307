-- ===== src/Types/Arithmetic.antt =====
-- type.c: `get_common_type` for operands that are neither pointers, arrays nor functions.
mod Tests
use chibicc.Common.{
  ℕ, ◌≡◌, ◌+◌, ◌*◌, ◌≤◌, refl, arith, Bool, true, false, not, ◌||◌, ◌&&◌, List, [], ◌∷◌, ◌==◌, leb,
  ltb, if◌then◌else◌,
}
use chibicc.Types.{
  TypeKind, CType, int_type, uint_type, long_type, ulong_type, llong_type, ullong_type, char_type,
  uchar_type, short_type, ushort_type, bool_type, enum_type, float_type, double_type, ldouble_type,
}

abbrev is_ldouble : TypeKind → Bool
is_ldouble TypeKind.ty_ldouble = true
is_ldouble _ = false

abbrev is_double : TypeKind → Bool
is_double TypeKind.ty_double = true
is_double _ = false

abbrev is_float : TypeKind → Bool
is_float TypeKind.ty_float = true
is_float _ = false

abbrev pub promoted : CType → CType
promoted ty = if ltb ty.size 4 then int_type else ty

abbrev pub common_integer_type : CType → CType → CType
common_integer_type ty1 ty2 =
    if not (ty1.size == ty2.size)
    then if ltb ty1.size ty2.size then ty2 else ty1
    else if ty2.is_unsigned
    then ty2
    else ty1

unfoldable pub get_common_type : CType → CType → CType
get_common_type ty1 ty2 =
    if is_ldouble ty1.kind || is_ldouble ty2.kind
    then ldouble_type
    else if is_double ty1.kind || is_double ty2.kind
    then double_type
    else if is_float ty1.kind || is_float ty2.kind
    then float_type
    else common_integer_type (promoted ty1) (promoted ty2)

-- The arithmetic types of the C standard, and enumerations.
pub data Arithmetic : Type 0 where
  a_bool a_char a_uchar a_short a_ushort a_int a_uint a_long a_ulong a_llong a_ullong a_enum a_float
        a_double a_ldouble :
      Arithmetic

-- Their type objects.
abbrev pub object : Arithmetic → CType
object Arithmetic.a_bool = bool_type
object Arithmetic.a_char = char_type
object Arithmetic.a_uchar = uchar_type
object Arithmetic.a_short = short_type
object Arithmetic.a_ushort = ushort_type
object Arithmetic.a_int = int_type
object Arithmetic.a_uint = uint_type
object Arithmetic.a_long = long_type
object Arithmetic.a_ulong = ulong_type
object Arithmetic.a_llong = llong_type
object Arithmetic.a_ullong = ullong_type
object Arithmetic.a_enum = enum_type
object Arithmetic.a_float = float_type
object Arithmetic.a_double = double_type
object Arithmetic.a_ldouble = ldouble_type

-- The standard's view of a type: a floating type by its precision, an integer type by its conversion
-- rank and signedness after the integer promotions.
pub data Class : Type 0 where
  floating : ℕ → Class
  integer : ℕ → Bool → Class

abbrev pub class : Arithmetic → Class
class Arithmetic.a_float = Class.floating 4
class Arithmetic.a_double = Class.floating 8
class Arithmetic.a_ldouble = Class.floating 16
class Arithmetic.a_uint = Class.integer 3 true
class Arithmetic.a_long = Class.integer 4 false
class Arithmetic.a_ulong = Class.integer 4 true
class Arithmetic.a_llong = Class.integer 5 false
class Arithmetic.a_ullong = Class.integer 5 true
class _ = Class.integer 3 false

-- The size of an integer type by its rank.
abbrev pub width : ℕ → ℕ
width rank = if rank == 3 then 4 else 8

abbrev max_of : ℕ → ℕ → ℕ
max_of a b = if leb a b then b else a

-- The usual arithmetic conversions: the greater rank where the signedness is the same; the unsigned type
-- where its rank is not less, or else the signed type where it is wider, or else the unsigned type of its
-- rank.
abbrev mixed_class : ℕ → ℕ → Class
mixed_class unsigned signed =
    if leb signed unsigned
    then Class.integer unsigned true
    else if ltb (width unsigned) (width signed)
    then Class.integer signed false
    else Class.integer signed true

unfoldable pub converted : Class → Class → Class
converted (floating p) (floating q) = Class.floating (max_of p q)
converted (floating p) (integer r u) = Class.floating p
converted (integer r u) (floating p) = Class.floating p
converted (integer r true) (integer s true) = Class.integer (max_of r s) true
converted (integer r false) (integer s false) = Class.integer (max_of r s) false
converted (integer r true) (integer s false) = mixed_class r s
converted (integer r false) (integer s true) = mixed_class s r

-- A type object with the size, the signedness and the format of a class.
abbrev pub Represents : CType → Class → Type 0
Represents ty (floating p) =
    (ty.size ≡ p) × ((is_float ty.kind || (is_double ty.kind || is_ldouble ty.kind)) ≡ true)
Represents ty (integer r u) =
    (ty.size ≡ width r)
    × (ty.is_unsigned ≡ u)
    × ((is_float ty.kind || (is_double ty.kind || is_ldouble ty.kind)) ≡ false)

-- The common type of two arithmetic operands has the size, the signedness and the format of the type
-- that the usual arithmetic conversions of the C standard give, with a long and a long long of 64 bits.
pub get_common_type-converted :
    (s t : Arithmetic)
    → Represents (get_common_type (object s) (object t)) (converted (class s) (class t))
unfolding get_common_type converted
get_common_type-converted s t = ground arith
