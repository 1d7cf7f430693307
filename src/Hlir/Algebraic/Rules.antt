-- ===== src/Hlir/Algebraic/Rules.antt =====
-- ir/hlir_opt_algebraic.c: the rules.
use chibicc.Common.{ℕ, Bool, true, false, not, ◌||◌, ◌&&◌, Option, none, some, ◌==◌, if◌then◌else◌}
use chibicc.Common.Words.{minus_one}
use chibicc.Types.{CType, is_flonum}
use chibicc.Hlir.{HlirKind, HlirInsn, hlir_is_relational, hlir_invert_cmp, hlir_set_cast}
use chibicc.Hlir.Env.{HlirEnv, hlir_env_get_const, hlir_env_get_def}
use chibicc.Hlir.Machine.{Types, operand_type, is_float}
use chibicc.Hlir.Fold.{is_some}

-- What a rule does: it rewrites the instruction; or it makes it a constant and records that; or it
-- rewrites it and makes its second operand a constant that `hlir_make_iconst` inserts.
pub data Rewrite : Type 0 where
  in_place : HlirInsn → Rewrite
  constant : ℕ → Rewrite
  with_constant : HlirInsn → ℕ → Option CType → Rewrite

pub data OpSide : Type 0 where
  op_side_none op_side_left op_side_right op_side_both : OpSide

abbrev pub on_left : OpSide → Bool
on_left OpSide.op_side_left = true
on_left OpSide.op_side_both = true
on_left _ = false

abbrev pub on_right : OpSide → Bool
on_right OpSide.op_side_right = true
on_right OpSide.op_side_both = true
on_right _ = false

-- `HLIRAlgebraicProps`, a column to a function. `identity` and `identity_side`:
unfoldable pub identity : HlirKind → Option (ℕ × OpSide)
identity HlirKind.add = some (0, OpSide.op_side_both)
identity HlirKind.sub = some (0, OpSide.op_side_right)
identity HlirKind.mul = some (1, OpSide.op_side_both)
identity HlirKind.div = some (1, OpSide.op_side_right)
identity HlirKind.bitand = some (minus_one, OpSide.op_side_both)
identity HlirKind.bitor = some (0, OpSide.op_side_both)
identity HlirKind.bitxor = some (0, OpSide.op_side_both)
identity HlirKind.shl = some (0, OpSide.op_side_right)
identity HlirKind.shr = some (0, OpSide.op_side_right)
identity _ = none

-- `annihilator`, `annihilator_res` and `annihilator_side`.
unfoldable pub annihilator : HlirKind → Option (ℕ × (ℕ × OpSide))
annihilator HlirKind.mul = some (0, (0, OpSide.op_side_both))
annihilator HlirKind.modulo = some (1, (0, OpSide.op_side_right))
annihilator HlirKind.bitand = some (0, (0, OpSide.op_side_both))
annihilator HlirKind.bitor = some (minus_one, (minus_one, OpSide.op_side_both))
annihilator _ = none

-- `self_const_res`.
unfoldable pub self_const : HlirKind → Option ℕ
self_const HlirKind.sub = some 0
self_const HlirKind.div = some 1
self_const HlirKind.bitxor = some 0
self_const HlirKind.cmp_eq = some 1
self_const HlirKind.cmp_ne = some 0
self_const HlirKind.cmp_le = some 1
self_const HlirKind.cmp_ge = some 1
self_const HlirKind.cmp_lt = some 0
self_const HlirKind.cmp_gt = some 0
self_const _ = none

unfoldable pub is_self_idempotent : HlirKind → Bool
is_self_idempotent HlirKind.bitand = true
is_self_idempotent HlirKind.bitor = true
is_self_idempotent _ = false

abbrev pub or_else {ℓ} : {A : Type ℓ} → Option A → Option A → Option A
or_else none o = o
or_else (some a) o = some a

abbrev pub when {ℓ} : {A : Type ℓ} → Bool → A → Option A
when true a = some a
when false a = none

abbrev pub equals : Option ℕ → ℕ → Bool
equals none c = false
equals (some x) c = x == c

-- Whether the value is known to be the constant.
abbrev pub const_is : HlirEnv → Option ℕ → ℕ → Bool
const_is env v c = equals (hlir_env_get_const env v) c

-- `a == b` on pointers to values.
abbrev pub same_value : Option ℕ → Option ℕ → Bool
same_value none none = true
same_value (some a) (some b) = a == b
same_value _ _ = false

-- Double negations, and the negation of a comparison.
abbrev pub unary_of : HlirKind → HlirKind → HlirInsn → HlirInsn → Option Rewrite
unfolding hlir_is_relational
unary_of HlirKind.neg HlirKind.neg i def = some (in_place (hlir_set_cast i def.src1))
unary_of HlirKind.bitnot HlirKind.bitnot i def = some (in_place (hlir_set_cast i def.src1))
unary_of HlirKind.lognot k i def =
    when (hlir_is_relational k)
      (in_place (record i { kind = hlir_invert_cmp k; src1 = def.src1; src2 = def.src2 }))
unary_of _ _ i def = none

abbrev pub unary_def : HlirInsn → Option HlirInsn → Option Rewrite
unary_def i none = none
unary_def i (some def) = unary_of i.kind def.kind i def

unfoldable pub hlir_rule_simplify_unary : HlirEnv → HlirInsn → Option Rewrite
hlir_rule_simplify_unary env i =
    if not (is_some i.dst) || (not (is_some i.src1) || is_some i.src2)
    then none
    else unary_def i (hlir_env_get_def env i.src1)

abbrev pub identity_of : HlirEnv → HlirInsn → Option (ℕ × OpSide) → Option Rewrite
identity_of env i none = none
identity_of env i (some (e, side)) =
    if on_right side && const_is env i.src2 e
    then some (in_place (hlir_set_cast i i.src1))
    else when (on_left side && const_is env i.src1 e) (in_place (hlir_set_cast i i.src2))

-- x + 0, x * 1, x & -1 and the like.
unfoldable pub hlir_rule_identity : HlirEnv → HlirInsn → Option Rewrite
unfolding identity
hlir_rule_identity env i = identity_of env i (identity i.kind)

abbrev pub annihilator_of : HlirEnv → HlirInsn → Option (ℕ × (ℕ × OpSide)) → Option Rewrite
annihilator_of env i none = none
annihilator_of env i (some (z, (r, side))) =
    when ((on_right side && const_is env i.src2 z) || (on_left side && const_is env i.src1 z))
      (constant r)

-- x * 0, x & 0, x | -1, x % 1.
unfoldable pub hlir_rule_annihilator : HlirEnv → HlirInsn → Option Rewrite
unfolding annihilator
hlir_rule_annihilator env i = annihilator_of env i (annihilator i.kind)

abbrev pub doubled : HlirKind → Types → HlirInsn → Option Rewrite
doubled HlirKind.add types i =
    some (with_constant (record i { kind = HlirKind.shl }) 1 (operand_type types i.src1))
doubled _ types i = none

abbrev pub self_of : Types → HlirInsn → Option ℕ → Option Rewrite
unfolding is_self_idempotent
self_of types i (some r) = some (constant r)
self_of types i none =
    if is_self_idempotent i.kind
    then some (in_place (hlir_set_cast i i.src1))
    else doubled i.kind types i

-- x - x, x == x, x & x, x + x, for integers.
unfoldable pub hlir_rule_self_operands : Types → HlirInsn → Option Rewrite
unfolding self_const is_self_idempotent is_flonum
hlir_rule_self_operands types i =
    if not (same_value i.src1 i.src2) || is_float types i
    then none
    else self_of types i (self_const i.kind)
