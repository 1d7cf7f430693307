-- ===== src/Hlir/Fold/Admissible.antt =====
-- ir/hlir_opt_fold.c: the functions for which the pass is right, and the facts about operators that it
-- rests on.
use chibicc.Common.{
  ℕ, ◌^◌, ◌<◌, ◌≡◌, refl, arith, Bool, true, not, ◌&&◌, ◌||◌, Option, none, some, List, [], ◌∷◌,
  ◌++◌, ltb, if◌then◌else◌,
}
use chibicc.Common.BitLaws.{bit_and_comm, bit_or_comm, bit_xor_comm}
use native.Mathlib.Nat.{add_comm, mul_comm}
use chibicc.Types.{CType}
use chibicc.Hlir.{
  HlirKind, HlirInsn, present, uses, hlir_is_bb_barrier, hlir_is_commutative, hlir_is_relational,
  hlir_swap_cmp,
}
use chibicc.Hlir.Env.{HlirEnv}
use chibicc.Hlir.Machine.{Role, role, Types, operand_type, is_float, State, eval_binary}
use chibicc.Hlir.Frame.{mem}
use chibicc.Hlir.Fold.{hlir_fold_binary, hlir_fold_unary}
use chibicc.Hlir.Fold.Eval.{typed_binary, typed_unary, is_exact}

-- The values that a block has defined or used so far.
abbrev pub seen_after : List ℕ → HlirInsn → List ℕ
seen_after seen i = if hlir_is_bb_barrier i.kind then [] else present i.dst ++ (uses i ++ seen)

abbrev pub typed_role : Role → Types → HlirInsn → Bool
typed_role Role.constant types i = not (is_float types i)
typed_role Role.binary types i =
    typed_binary i.kind i.ty (operand_type types i.src1) (operand_type types i.src2)
typed_role Role.unary types i = typed_unary i.kind i.ty (operand_type types i.src1)
typed_role _ types i = true

abbrev pub fresh_dst : Option ℕ → List ℕ → Bool
fresh_dst none seen = true
fresh_dst (some v) seen = not (mem v seen)

-- Inside a block a value is defined once, before its uses; a constant is a word; and arithmetic has
-- types at which the pass folds rightly.
unfoldable pub is_admissible : Types → List ℕ → HlirInsn → Bool
unfolding mem typed_binary typed_unary hlir_is_bb_barrier uses role
is_admissible types seen i =
    (ltb i.imm (2 ^ 64) && typed_role (role i.kind) types i)
    && (hlir_is_bb_barrier i.kind || fresh_dst i.dst (uses i ++ seen))

unfoldable pub are_admissible : Types → List ℕ → List HlirInsn → Bool
unfolding is_admissible
are_admissible types seen [] = true
are_admissible types seen (i ∷ is) =
    is_admissible types seen i && are_admissible types (seen_after seen i) is

-- The constants that the pass knows are the words that their values have.
abbrev pub Knows : {W : Type 0} → HlirEnv → State W → List ℕ → Type 0
Knows env σ seen =
    (v c : ℕ) → env.consts v ≡ some c → (mem v seen ≡ true) × (σ.vals v ≡ c) × (c < 2 ^ 64)

pub role_of_binary :
    (k : HlirKind) (a b r : ℕ) → hlir_fold_binary k a b ≡ some r → role k ≡ Role.binary
unfolding hlir_fold_binary role
role_of_binary HlirKind.add a b r e = refl
role_of_binary HlirKind.sub a b r e = refl
role_of_binary HlirKind.mul a b r e = refl
role_of_binary HlirKind.div a b r e = refl
role_of_binary HlirKind.modulo a b r e = refl
role_of_binary HlirKind.bitand a b r e = refl
role_of_binary HlirKind.bitor a b r e = refl
role_of_binary HlirKind.bitxor a b r e = refl
role_of_binary HlirKind.shl a b r e = refl
role_of_binary HlirKind.shr a b r e = refl
role_of_binary HlirKind.cmp_eq a b r e = refl
role_of_binary HlirKind.cmp_ne a b r e = refl
role_of_binary HlirKind.cmp_lt a b r e = refl
role_of_binary HlirKind.cmp_le a b r e = refl
role_of_binary HlirKind.cmp_gt a b r e = refl
role_of_binary HlirKind.cmp_ge a b r e = refl
role_of_binary _ a b r e = cc

pub role_of_unary :
    (k : HlirKind) (ty : Option CType) (a r : ℕ)
    → hlir_fold_unary k ty a ≡ some r
    → role k ≡ Role.unary
unfolding hlir_fold_unary role
role_of_unary HlirKind.cast ty a r e = refl
role_of_unary HlirKind.neg ty a r e = refl
role_of_unary HlirKind.bitnot ty a r e = refl
role_of_unary HlirKind.lognot ty a r e = refl
role_of_unary _ ty a r e = cc

-- Types at which an operation folds are no floating-point types.
pub typed_binary-exact :
    (k : HlirKind) (ty ty1 ty2 : Option CType)
    → typed_binary k ty ty1 ty2 ≡ true
    → (is_exact ty ≡ true) × (is_exact ty1 ≡ true) × (is_exact ty2 ≡ true)
unfolding typed_binary
typed_binary-exact HlirKind.div ty ty1 ty2 t = ground arith
typed_binary-exact HlirKind.modulo ty ty1 ty2 t = ground arith
typed_binary-exact HlirKind.shr ty ty1 ty2 t = ground arith
typed_binary-exact HlirKind.cmp_eq ty ty1 ty2 t = ground arith
typed_binary-exact HlirKind.cmp_ne ty ty1 ty2 t = ground arith
typed_binary-exact HlirKind.cmp_lt ty ty1 ty2 t = ground arith
typed_binary-exact HlirKind.cmp_le ty ty1 ty2 t = ground arith
typed_binary-exact HlirKind.cmp_gt ty ty1 ty2 t = ground arith
typed_binary-exact HlirKind.cmp_ge ty ty1 ty2 t = ground arith
typed_binary-exact _ ty ty1 ty2 t = ground arith

pub typed_unary-exact :
    (k : HlirKind) (ty ty1 : Option CType)
    → typed_unary k ty ty1 ≡ true
    → (is_exact ty ≡ true) × (is_exact ty1 ≡ true)
unfolding typed_unary
typed_unary-exact HlirKind.cast ty ty1 t = ground arith
typed_unary-exact HlirKind.lognot ty ty1 t = ground arith
typed_unary-exact _ ty ty1 t = ground arith

-- Exchanged operands, with the operator exchanged too where it is an order.
pub eval_binary_comm :
    (k : HlirKind) (ty ty1 ty2 : Option CType) (a b : ℕ)
    → hlir_is_commutative k ≡ true
    → eval_binary k ty ty2 b a ≡ eval_binary k ty ty1 a b
unfolding hlir_is_commutative eval_binary
eval_binary_comm HlirKind.add ty ty1 ty2 a b h = rw (add_comm a b)
eval_binary_comm HlirKind.mul ty ty1 ty2 a b h = rw (mul_comm a b)
eval_binary_comm HlirKind.bitand ty ty1 ty2 a b h = rw (bit_and_comm a b)
eval_binary_comm HlirKind.bitor ty ty1 ty2 a b h = rw (bit_or_comm a b)
eval_binary_comm HlirKind.bitxor ty ty1 ty2 a b h = rw (bit_xor_comm a b)
eval_binary_comm HlirKind.cmp_eq ty ty1 ty2 a b h = ground arith
eval_binary_comm HlirKind.cmp_ne ty ty1 ty2 a b h = ground arith
eval_binary_comm _ ty ty1 ty2 a b h = cc

pub eval_binary_swap :
    (k : HlirKind) (ty ty1 ty2 : Option CType) (a b : ℕ)
    → hlir_is_relational k ≡ true
    → typed_binary k ty ty1 ty2 ≡ true
    → eval_binary (hlir_swap_cmp k) ty ty2 b a ≡ eval_binary k ty ty1 a b
unfolding hlir_is_relational eval_binary hlir_swap_cmp typed_binary
eval_binary_swap HlirKind.cmp_eq ty ty1 ty2 a b h t = ground arith
eval_binary_swap HlirKind.cmp_ne ty ty1 ty2 a b h t = ground arith
eval_binary_swap HlirKind.cmp_lt ty ty1 ty2 a b h t = ground arith
eval_binary_swap HlirKind.cmp_le ty ty1 ty2 a b h t = ground arith
eval_binary_swap HlirKind.cmp_gt ty ty1 ty2 a b h t = ground arith
eval_binary_swap HlirKind.cmp_ge ty ty1 ty2 a b h t = ground arith
eval_binary_swap _ ty ty1 ty2 a b h t = cc
