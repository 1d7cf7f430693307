-- ===== src/Types.antt =====
-- chibicc.h and type.c: the kinds of C types, and the part of a type that the intermediate
-- representation reads: its kind, size and signedness.
pub mod Arithmetic
use chibicc.Common.{ℕ, Bool, true, false, ◌||◌}

pub data TypeKind : Type 0 where
  ty_void ty_bool ty_char ty_short ty_int ty_long ty_longlong : TypeKind
  ty_float ty_double ty_ldouble ty_enum ty_ptr ty_func ty_array ty_vla ty_struct ty_union : TypeKind

-- `struct Type`, less the fields that describe declarations and components.
pub record CType : Type 0 where
  pub kind : TypeKind
  pub size : ℕ
  pub is_unsigned : Bool

abbrev pub is_integer_kind : TypeKind → Bool
is_integer_kind TypeKind.ty_bool = true
is_integer_kind TypeKind.ty_char = true
is_integer_kind TypeKind.ty_short = true
is_integer_kind TypeKind.ty_int = true
is_integer_kind TypeKind.ty_long = true
is_integer_kind TypeKind.ty_longlong = true
is_integer_kind TypeKind.ty_enum = true
is_integer_kind _ = false

abbrev pub is_flonum_kind : TypeKind → Bool
is_flonum_kind TypeKind.ty_float = true
is_flonum_kind TypeKind.ty_double = true
is_flonum_kind TypeKind.ty_ldouble = true
is_flonum_kind _ = false

unfoldable pub is_integer : CType → Bool
is_integer ty = is_integer_kind ty.kind

unfoldable pub is_flonum : CType → Bool
is_flonum ty = is_flonum_kind ty.kind

unfoldable pub is_numeric : CType → Bool
unfolding is_integer is_flonum
is_numeric ty = is_integer ty || is_flonum ty

-- The type objects of type.c that the passes and their examples name.
abbrev pub int_type : CType
int_type = record { kind = TypeKind.ty_int; size = 4; is_unsigned = false }

abbrev pub uint_type : CType
uint_type = record { kind = TypeKind.ty_int; size = 4; is_unsigned = true }

abbrev pub long_type : CType
long_type = record { kind = TypeKind.ty_long; size = 8; is_unsigned = false }

abbrev pub ulong_type : CType
ulong_type = record { kind = TypeKind.ty_long; size = 8; is_unsigned = true }

abbrev pub llong_type : CType
llong_type = record { kind = TypeKind.ty_longlong; size = 8; is_unsigned = false }

abbrev pub ullong_type : CType
ullong_type = record { kind = TypeKind.ty_longlong; size = 8; is_unsigned = true }

abbrev pub char_type : CType
char_type = record { kind = TypeKind.ty_char; size = 1; is_unsigned = false }

abbrev pub ushort_type : CType
ushort_type = record { kind = TypeKind.ty_short; size = 2; is_unsigned = true }

abbrev pub float_type : CType
float_type = record { kind = TypeKind.ty_float; size = 4; is_unsigned = false }

abbrev pub ldouble_type : CType
ldouble_type = record { kind = TypeKind.ty_ldouble; size = 16; is_unsigned = false }

abbrev pub bool_type : CType
bool_type = record { kind = TypeKind.ty_bool; size = 1; is_unsigned = false }

abbrev pub double_type : CType
double_type = record { kind = TypeKind.ty_double; size = 8; is_unsigned = false }

abbrev pub uchar_type : CType
uchar_type = record { kind = TypeKind.ty_char; size = 1; is_unsigned = true }

abbrev pub short_type : CType
short_type = record { kind = TypeKind.ty_short; size = 2; is_unsigned = false }

-- A type that `enum_type` makes.
abbrev pub enum_type : CType
enum_type = record { kind = TypeKind.ty_enum; size = 4; is_unsigned = false }
