-- ===== src/Types/Arithmetic/Tests.antt =====
-- type.c: `get_common_type` at concrete types.
use chibicc.Common.{◌≡◌, refl}
use chibicc.Types.{long_type, llong_type, int_type, uchar_type}
use chibicc.Types.Arithmetic.{
  Arithmetic, object, class, get_common_type, converted, Represents, get_common_type-converted,
}

-- The unsigned character is promoted.
get_common_type_promoted : get_common_type uchar_type uchar_type ≡ int_type
unfolding get_common_type
get_common_type_promoted = refl

-- The rank of the second operand is greater, the first is taken.
get_common_type_rank : get_common_type long_type llong_type ≡ long_type
unfolding get_common_type
get_common_type_rank = refl

get_common_type-converted_example :
    Represents
      (get_common_type (object Arithmetic.a_int) (object Arithmetic.a_ulong))
      (converted (class Arithmetic.a_int) (class Arithmetic.a_ulong))
get_common_type-converted_example = get_common_type-converted Arithmetic.a_int Arithmetic.a_ulong
