-- ===== src/Hlir/Algebraic/Binary.antt =====
-- ir/hlir_opt_algebraic.c: the rules that look at the definitions of the operands, and strength
-- reduction.
use chibicc.Common.{ℕ, ◌-◌, Bool, true, false, not, ◌||◌, ◌&&◌, Option, none, some, if◌then◌else◌}
use chibicc.Common.Words.{minus_one, add64, sub64, signed_lt}
use chibicc.Types.{CType, is_flonum}
use chibicc.Hlir.{HlirKind, HlirInsn, hlir_is_power_of_two, hlir_set_cast, hlir_set_unary}
use chibicc.Hlir.Env.{HlirEnv, hlir_env_get_const, hlir_env_get_def}
use chibicc.Hlir.Machine.{Types, operand_type, flonum_type, unsigned_type}
use chibicc.Hlir.Fold.{hlir_fold_binary}
use chibicc.Hlir.Algebraic.Rules.{
  Rewrite, in_place, with_constant, or_else, when, const_is, same_value,
}

abbrev pub negated_of : HlirKind → Option ℕ → (Option ℕ → HlirInsn) → Option Rewrite
negated_of HlirKind.neg (some y) f = some (in_place (f (some y)))
negated_of _ _ f = none

-- The operand `y`, where the definition is `-y`.
abbrev pub negated : Option HlirInsn → (Option ℕ → HlirInsn) → Option Rewrite
negated none f = none
negated (some def) f = negated_of def.kind def.src1 f

abbrev pub negations_of : HlirKind → HlirEnv → HlirInsn → Option Rewrite
negations_of HlirKind.mul env i =
    or_else (when (const_is env i.src2 minus_one) (in_place (hlir_set_unary i HlirKind.neg i.src1)))
      (when (const_is env i.src1 minus_one) (in_place (hlir_set_unary i HlirKind.neg i.src2)))
negations_of HlirKind.bitxor env i =
    or_else
      (when (const_is env i.src2 minus_one) (in_place (hlir_set_unary i HlirKind.bitnot i.src1)))
      (when (const_is env i.src1 minus_one) (in_place (hlir_set_unary i HlirKind.bitnot i.src2)))
negations_of HlirKind.sub env i =
    or_else (when (const_is env i.src1 0) (in_place (hlir_set_unary i HlirKind.neg i.src2)))
      (negated (hlir_env_get_def env i.src2) (λ y. record i { kind = HlirKind.add; src2 = y }))
negations_of HlirKind.add env i =
    or_else
      (negated (hlir_env_get_def env i.src2) (λ y. record i { kind = HlirKind.sub; src2 = y }))
      (negated (hlir_env_get_def env i.src1)
        (λ y. record i { kind = HlirKind.sub; src1 = i.src2; src2 = y }))
negations_of _ env i = none

-- x * -1, x ^ -1, 0 - x, x + (-y), (-x) + y, x - (-y).
unfoldable pub hlir_rule_negations : HlirEnv → HlirInsn → Option Rewrite
hlir_rule_negations env i = negations_of i.kind env i

abbrev pub power : Option ℕ → (ℕ → ℕ → Rewrite) → Option Rewrite
power none f = none
power (some val) f = elim (hlir_is_power_of_two val) [
  | none ↦ none
  | some shift ↦ some (f val shift)
]

abbrev pub strength_of : HlirKind → Types → HlirEnv → HlirInsn → Option Rewrite
strength_of HlirKind.mul types env i =
    if not (flonum_type i.ty)
    then or_else
        (power (hlir_env_get_const env i.src2) (λ val shift.
          with_constant (record i { kind = HlirKind.shl }) shift (operand_type types i.src2)))
        (power (hlir_env_get_const env i.src1) (λ val shift.
          with_constant (record i { kind = HlirKind.shl; src1 = i.src2 }) shift
            (operand_type types i.src1)))
    else none
strength_of HlirKind.div types env i =
    if unsigned_type i.ty
    then power (hlir_env_get_const env i.src2) (λ val shift.
      with_constant (record i { kind = HlirKind.shr }) shift (operand_type types i.src2))
    else none
strength_of HlirKind.modulo types env i =
    if unsigned_type i.ty
    then power (hlir_env_get_const env i.src2) (λ val shift.
      with_constant (record i { kind = HlirKind.bitand }) (val - 1) (operand_type types i.src2))
    else none
strength_of _ types env i = none

-- x * 2^k, and unsigned x / 2^k and x % 2^k.
unfoldable pub hlir_rule_strength_reduction : Types → HlirEnv → HlirInsn → Option Rewrite
unfolding is_flonum
hlir_rule_strength_reduction types env i = strength_of i.kind types env i

-- `is_associative`, for a definition of the same kind.
abbrev pub same_associative : HlirKind → HlirKind → Bool
same_associative HlirKind.add HlirKind.add = true
same_associative HlirKind.mul HlirKind.mul = true
same_associative HlirKind.bitand HlirKind.bitand = true
same_associative HlirKind.bitor HlirKind.bitor = true
same_associative HlirKind.bitxor HlirKind.bitxor = true
same_associative _ _ = false

abbrev pub with_folded : HlirInsn → Option CType → Option ℕ → Option Rewrite
with_folded i ty none = none
with_folded i ty (some r) = some (with_constant i r ty)

abbrev pub chained : HlirInsn → Option ℕ → Option CType → ℕ → Option Rewrite
chained i x ty shift = when (signed_lt shift 64) (with_constant (record i { src1 = x }) shift ty)

-- Shifts of shifts, and sums and differences of sums and differences. `c` is the constant of the
-- definition, `val` that of the instruction, `x` the other operand of the definition.
abbrev pub mixed : HlirKind → HlirKind → HlirInsn → Option CType → Option ℕ → ℕ → ℕ → Option Rewrite
mixed HlirKind.shl HlirKind.shl i ty x c val = chained i x ty (add64 c val)
mixed HlirKind.shr HlirKind.shr i ty x c val = chained i x ty (add64 c val)
mixed HlirKind.add HlirKind.add i ty x c val =
    some (with_constant (record i { src1 = x }) (add64 c val) ty)
mixed HlirKind.add HlirKind.sub i ty x c val =
    some (with_constant (record i { src1 = x }) (sub64 val c) ty)
mixed HlirKind.sub HlirKind.add i ty x c val =
    some (with_constant (record i { kind = HlirKind.add; src1 = x }) (sub64 c val) ty)
mixed HlirKind.sub HlirKind.sub i ty x c val =
    some (with_constant (record i { src1 = x }) (add64 c val) ty)
mixed _ _ i ty x c val = none

abbrev pub reassociate : HlirInsn → Option CType → HlirInsn → Option ℕ → Option ℕ → Option Rewrite
reassociate i ty def (some c) (some val) =
    or_else
      (if same_associative i.kind def.kind
        then with_folded (record i { src1 = def.src1 }) ty (hlir_fold_binary i.kind c val)
        else none)
      (mixed i.kind def.kind i ty def.src1 c val)
reassociate i ty def _ _ = none

abbrev pub reassociate_def : Types → HlirEnv → HlirInsn → Option HlirInsn → Option Rewrite
reassociate_def types env i none = none
reassociate_def types env i (some def) =
    reassociate i (operand_type types i.src2) def (hlir_env_get_const env def.src2)
      (hlir_env_get_const env i.src2)

-- (x OP c1) OP c2.
unfoldable pub hlir_rule_reassociation : Types → HlirEnv → HlirInsn → Option Rewrite
unfolding hlir_fold_binary
hlir_rule_reassociation types env i = reassociate_def types env i (hlir_env_get_def env i.src1)

-- The first operand of a definition of the first kind, if the second is `y`.
abbrev pub left_of : HlirKind → HlirKind → Option ℕ → HlirInsn → HlirInsn → Option Rewrite
left_of HlirKind.add HlirKind.add y i def =
    when (same_value def.src2 y) (in_place (hlir_set_cast i def.src1))
left_of HlirKind.sub HlirKind.sub y i def =
    when (same_value def.src2 y) (in_place (hlir_set_cast i def.src1))
left_of HlirKind.bitxor HlirKind.bitxor y i def =
    when (same_value def.src2 y) (in_place (hlir_set_cast i def.src1))
left_of _ _ y i def = none

-- The second operand, if the first is `y`.
abbrev pub right_of : HlirKind → HlirKind → Option ℕ → HlirInsn → HlirInsn → Option Rewrite
right_of HlirKind.add HlirKind.add y i def =
    when (same_value def.src1 y) (in_place (hlir_set_cast i def.src2))
right_of HlirKind.bitxor HlirKind.bitxor y i def =
    when (same_value def.src1 y) (in_place (hlir_set_cast i def.src2))
right_of _ _ y i def = none

abbrev pub from_def :
    (HlirKind → HlirKind → Option ℕ → HlirInsn → HlirInsn → Option Rewrite)
    → HlirKind
    → Option ℕ
    → HlirInsn
    → Option HlirInsn
    → Option Rewrite
from_def f k y i none = none
from_def f k y i (some def) = f k def.kind y i def

abbrev pub cancel_of : HlirKind → HlirInsn → Option HlirInsn → Option HlirInsn → Option Rewrite
cancel_of HlirKind.sub i def1 def2 =
    or_else (from_def left_of HlirKind.add i.src2 i def1)
      (from_def right_of HlirKind.add i.src2 i def1)
cancel_of HlirKind.add i def1 def2 =
    or_else (from_def left_of HlirKind.sub i.src2 i def1)
      (from_def left_of HlirKind.sub i.src1 i def2)
cancel_of HlirKind.bitxor i def1 def2 =
    or_else
      (or_else (from_def left_of HlirKind.bitxor i.src2 i def1)
        (from_def right_of HlirKind.bitxor i.src2 i def1))
      (or_else (from_def left_of HlirKind.bitxor i.src1 i def2)
        (from_def right_of HlirKind.bitxor i.src1 i def2))
cancel_of _ i def1 def2 = none

-- (x + y) - y, (x - y) + y, (x ^ y) ^ y and their mirror images.
unfoldable pub hlir_rule_cancellation : HlirEnv → HlirInsn → Option Rewrite
hlir_rule_cancellation env i =
    cancel_of i.kind i (hlir_env_get_def env i.src1) (hlir_env_get_def env i.src2)

abbrev pub is_dual : HlirKind → HlirKind → Bool
is_dual HlirKind.bitand HlirKind.bitor = true
is_dual HlirKind.bitor HlirKind.bitand = true
is_dual _ _ = false

-- `y`, where the definition combines it with another value by the dual operation.
abbrev pub absorbed : HlirInsn → Option ℕ → Option HlirInsn → Option Rewrite
absorbed i y none = none
absorbed i y (some def) =
    when (is_dual i.kind def.kind && (same_value def.src1 y || same_value def.src2 y))
      (in_place (hlir_set_cast i y))

-- (x | y) & x, x & (x | y) and their mirror images.
unfoldable pub hlir_rule_absorption : HlirEnv → HlirInsn → Option Rewrite
hlir_rule_absorption env i =
    or_else (absorbed i i.src2 (hlir_env_get_def env i.src1))
      (absorbed i i.src1 (hlir_env_get_def env i.src2))
