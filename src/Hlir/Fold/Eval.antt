-- ===== src/Hlir/Fold/Eval.antt =====
-- ir/hlir_opt_fold.c: the folded constant is the value of the operation on the machine, at the types
-- for which the pass is right.
use chibicc.Common.{
  ℕ, ◌+◌, ◌-◌, ◌*◌, ◌/◌, ◌%◌, ◌^◌, ◌<◌, ◌≤◌, ◌≡◌, ◌⊎◌, refl, arith, Bool, true, not, ◌&&◌, Option,
  none, some, bit_and, bit_or, bit_xor, ◌==◌,
}
use chibicc.Common.BitLaws.{bit_and-le, bit_or-lt, bit_xor-lt}
use chibicc.Types.{CType, is_flonum}
use chibicc.Hlir.{HlirKind}
use chibicc.Hlir.Machine.{
  eval_binary, eval_unary, normalize, unsigned_type, flonum_type, type_size, bool_typed,
}
use chibicc.Common.Words.{signed_div, signed_mod, sar64}
use native.Mathlib.Nat.{mod-le}
use chibicc.Hlir.Fold.{fold_cast, hlir_fold_binary, hlir_fold_unary}

-- An integer or pointer type of 8 bytes.
abbrev pub is_wide : Option CType → Bool
is_wide ty = (type_size ty == 8) && not (flonum_type ty)

abbrev pub is_wide_signed : Option CType → Bool
is_wide_signed ty = is_wide ty && not (unsigned_type ty)

-- An integer type, and a signed one.
abbrev pub is_exact : Option CType → Bool
is_exact ty = not (flonum_type ty)

abbrev pub is_signed : Option CType → Bool
is_signed ty = not (flonum_type ty) && not (unsigned_type ty)

-- The types at which the operation on words is the operation of C.
unfoldable pub typed_binary : HlirKind → Option CType → Option CType → Option CType → Bool
typed_binary HlirKind.div ty ty1 ty2 = is_wide_signed ty && (is_exact ty1 && is_exact ty2)
typed_binary HlirKind.modulo ty ty1 ty2 = is_wide_signed ty && (is_exact ty1 && is_exact ty2)
typed_binary HlirKind.shr ty ty1 ty2 = is_wide_signed ty && (is_exact ty1 && is_exact ty2)
typed_binary HlirKind.cmp_eq ty ty1 ty2 = is_exact ty && (is_exact ty1 && is_exact ty2)
typed_binary HlirKind.cmp_ne ty ty1 ty2 = is_exact ty && (is_exact ty1 && is_exact ty2)
typed_binary HlirKind.cmp_lt ty ty1 ty2 = is_exact ty && (is_signed ty1 && is_signed ty2)
typed_binary HlirKind.cmp_le ty ty1 ty2 = is_exact ty && (is_signed ty1 && is_signed ty2)
typed_binary HlirKind.cmp_gt ty ty1 ty2 = is_exact ty && (is_signed ty1 && is_signed ty2)
typed_binary HlirKind.cmp_ge ty ty1 ty2 = is_exact ty && (is_signed ty1 && is_signed ty2)
typed_binary _ ty ty1 ty2 = is_wide ty && (is_exact ty1 && is_exact ty2)

normalize_wide : (ty : Option CType) (a : ℕ) → is_wide ty ≡ true → normalize ty a ≡ a % 2 ^ 64
unfolding normalize
normalize_wide none a h = refl
normalize_wide (some ty) a h = ground arith

-- Where C defines the operation on 64-bit words, its value is the folded constant.
abbrev pub Agrees : Option ℕ → ℕ → Type 0
Agrees o r = ((o ≡ none) ⊎ (o ≡ some r)) × (r < 2 ^ 64)

signed_div-lt : (a b : ℕ) → a < 2 ^ 64 → b < 2 ^ 64 → signed_div a b < 2 ^ 64
unfolding signed_div
signed_div-lt a b h k = ground arith

signed_mod-lt : (a b : ℕ) → a < 2 ^ 64 → b < 2 ^ 64 → signed_mod a b < 2 ^ 64
unfolding signed_mod
signed_mod-lt a b h k = ground (
  arith,
  mod-le a b,
  mod-le (2 ^ 64 - a) b,
  mod-le a (2 ^ 64 - b),
  mod-le (2 ^ 64 - a) (2 ^ 64 - b),
)

div-le : (a b : ℕ) → a / b ≤ a
div-le a b = omega arith

sar64-lt : (a b : ℕ) → a < 2 ^ 64 → sar64 a b < 2 ^ 64
unfolding sar64
sar64-lt a b h = ground (arith, div-le a (2 ^ b))

pub fold_binary-Agrees :
    (k : HlirKind) (ty ty1 ty2 : Option CType) (a b r : ℕ)
    → a < 2 ^ 64
    → b < 2 ^ 64
    → typed_binary k ty ty1 ty2 ≡ true
    → hlir_fold_binary k a b ≡ some r
    → Agrees (eval_binary k ty ty1 a b) r
unfolding typed_binary hlir_fold_binary eval_binary
fold_binary-Agrees HlirKind.add ty ty1 ty2 a b r la lb t e =
    ground (arith, normalize_wide ty (a + b))
fold_binary-Agrees HlirKind.sub ty ty1 ty2 a b r la lb t e =
    ground (arith, normalize_wide ty (a + 2 ^ 64 - b))
fold_binary-Agrees HlirKind.mul ty ty1 ty2 a b r la lb t e =
    ground (arith, normalize_wide ty (a * b))
fold_binary-Agrees HlirKind.div ty ty1 ty2 a b r la lb t e =
    ground (arith, normalize_wide ty (signed_div a b), signed_div-lt a b)
fold_binary-Agrees HlirKind.modulo ty ty1 ty2 a b r la lb t e =
    ground (arith, normalize_wide ty (signed_mod a b), signed_mod-lt a b)
fold_binary-Agrees HlirKind.bitand ty ty1 ty2 a b r la lb t e =
    ground (arith, normalize_wide ty (bit_and a b), bit_and-le a b)
fold_binary-Agrees HlirKind.bitor ty ty1 ty2 a b r la lb t e =
    ground (arith, normalize_wide ty (bit_or a b), bit_or-lt 64 a b)
fold_binary-Agrees HlirKind.bitxor ty ty1 ty2 a b r la lb t e =
    ground (arith, normalize_wide ty (bit_xor a b), bit_xor-lt 64 a b)
fold_binary-Agrees HlirKind.shl ty ty1 ty2 a b r la lb t e =
    ground (arith, normalize_wide ty (a * 2 ^ b))
fold_binary-Agrees HlirKind.shr ty ty1 ty2 a b r la lb t e =
    ground (arith, normalize_wide ty (sar64 a b), sar64-lt a b)
fold_binary-Agrees HlirKind.cmp_eq ty ty1 ty2 a b r la lb t e = ground arith
fold_binary-Agrees HlirKind.cmp_ne ty ty1 ty2 a b r la lb t e = ground arith
fold_binary-Agrees HlirKind.cmp_lt ty ty1 ty2 a b r la lb t e = ground arith
fold_binary-Agrees HlirKind.cmp_le ty ty1 ty2 a b r la lb t e = ground arith
fold_binary-Agrees HlirKind.cmp_gt ty ty1 ty2 a b r la lb t e = ground arith
fold_binary-Agrees HlirKind.cmp_ge ty ty1 ty2 a b r la lb t e = ground arith
fold_binary-Agrees _ ty ty1 ty2 a b r la lb t e = cc

-- The types at which a unary operation folds rightly: casts to integers other than `_Bool`.
unfoldable pub typed_unary : HlirKind → Option CType → Option CType → Bool
typed_unary HlirKind.cast ty ty1 = (is_exact ty && is_exact ty1) && not (bool_typed ty)
typed_unary HlirKind.lognot ty ty1 = is_exact ty && is_exact ty1
typed_unary _ ty ty1 = is_wide ty && is_exact ty1

fold_cast-normalize :
    (ty : CType) (a : ℕ)
    → a < 2 ^ 64
    → (normalize (some ty) a ≡ fold_cast ty.is_unsigned ty.size a)
      × (fold_cast ty.is_unsigned ty.size a < 2 ^ 64)
unfolding normalize
fold_cast-normalize ty a h = ground arith

pub fold_unary-Agrees :
    (k : HlirKind) (ty ty1 : Option CType) (a r : ℕ)
    → a < 2 ^ 64
    → typed_unary k ty ty1 ≡ true
    → hlir_fold_unary k ty a ≡ some r
    → Agrees (eval_unary k ty a) r
unfolding typed_unary hlir_fold_unary eval_unary is_flonum
fold_unary-Agrees HlirKind.cast none ty1 a r la t e = ground (arith, normalize_wide none a)
fold_unary-Agrees HlirKind.cast (some ty) ty1 a r la t e = ground (arith, fold_cast-normalize ty a)
fold_unary-Agrees HlirKind.neg ty ty1 a r la t e = ground (arith, normalize_wide ty (2 ^ 64 - a))
fold_unary-Agrees HlirKind.bitnot ty ty1 a r la t e =
    ground (arith, normalize_wide ty (2 ^ 64 - 1 - a))
fold_unary-Agrees HlirKind.lognot ty ty1 a r la t e = ground arith
fold_unary-Agrees _ ty ty1 a r la t e = cc
