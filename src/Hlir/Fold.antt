-- ===== src/Hlir/Fold.antt =====
-- ir/hlir_opt_fold.c: constant folding and operand canonicalization.
-- A signed overflow in the folding arithmetic wraps around, as the compiled code does, but for the
-- quotient of the least integer by -1, which C leaves undefined (and which traps on x86).
mod Eval
pub mod Admissible
mod FoldsTo
mod Step
mod Round
pub mod Sound
mod Tests
use chibicc.Common.{
  ℕ, ◌+◌, ◌-◌, ◌*◌, ◌/◌, ◌%◌, ◌^◌, Bool, true, false, not, ◌||◌, ◌&&◌, Option, none, some, List, [],
  ◌∷◌, bit_and, bit_or, bit_xor, ◌==◌, ltb, if◌then◌else◌, length,
}
use chibicc.Common.Words.{
  add64, sub64, mul64, neg64, not64, signed_lt, signed_le, signed_div, signed_mod, shl64, sar64,
  bool64, zero_extend, sign_extend,
}
use chibicc.Types.{CType, is_flonum}
use chibicc.Hlir.{
  HlirKind, HlirInsn, HlirFunction, hlir_is_bb_barrier, hlir_is_commutative, hlir_is_relational,
  hlir_swap_cmp, hlir_set_iconst,
}
use chibicc.Hlir.Env.{
  HlirEnv, hlir_env_init, hlir_env_reset, hlir_env_set_const, hlir_env_get_const,
}

-- The folded constant, if the operation folds. A shift count `c2 >= 0 && c2 < 64` is a pattern
-- below 64.
unfoldable pub hlir_fold_binary : HlirKind → ℕ → ℕ → Option ℕ
unfolding signed_div signed_mod sar64
hlir_fold_binary HlirKind.add c1 c2 = some (add64 c1 c2)
hlir_fold_binary HlirKind.sub c1 c2 = some (sub64 c1 c2)
hlir_fold_binary HlirKind.mul c1 c2 = some (mul64 c1 c2)
hlir_fold_binary HlirKind.div c1 c2 = if not (c2 == 0) then some (signed_div c1 c2) else none
hlir_fold_binary HlirKind.modulo c1 c2 = if not (c2 == 0) then some (signed_mod c1 c2) else none
hlir_fold_binary HlirKind.bitand c1 c2 = some (bit_and c1 c2)
hlir_fold_binary HlirKind.bitor c1 c2 = some (bit_or c1 c2)
hlir_fold_binary HlirKind.bitxor c1 c2 = some (bit_xor c1 c2)
hlir_fold_binary HlirKind.shl c1 c2 = if ltb c2 64 then some (shl64 c1 c2) else none
hlir_fold_binary HlirKind.shr c1 c2 = if ltb c2 64 then some (sar64 c1 c2) else none
hlir_fold_binary HlirKind.cmp_eq c1 c2 = some (bool64 (c1 == c2))
hlir_fold_binary HlirKind.cmp_ne c1 c2 = some (bool64 (not (c1 == c2)))
hlir_fold_binary HlirKind.cmp_lt c1 c2 = some (bool64 (signed_lt c1 c2))
hlir_fold_binary HlirKind.cmp_le c1 c2 = some (bool64 (signed_le c1 c2))
hlir_fold_binary HlirKind.cmp_gt c1 c2 = some (bool64 (signed_lt c2 c1))
hlir_fold_binary HlirKind.cmp_ge c1 c2 = some (bool64 (signed_le c2 c1))
hlir_fold_binary _ c1 c2 = none

-- `(uint8_t)c`, `(int8_t)c` and so on, by the size of the type.
abbrev pub fold_cast : Bool → ℕ → ℕ → ℕ
fold_cast uns sz c =
    if sz == 1
    then if uns then zero_extend 8 c else sign_extend 8 c
    else if sz == 2
    then if uns then zero_extend 16 c else sign_extend 16 c
    else if sz == 4
    then if uns then zero_extend 32 c else sign_extend 32 c
    else c

abbrev pub fold_cast_typed : Option CType → ℕ → Option ℕ
unfolding is_flonum
fold_cast_typed none c = some (fold_cast false 8 c)
fold_cast_typed (some ty) c =
    if is_flonum ty then none else some (fold_cast ty.is_unsigned ty.size c)

unfoldable pub hlir_fold_unary : HlirKind → Option CType → ℕ → Option ℕ
hlir_fold_unary HlirKind.neg ty c = some (neg64 c)
hlir_fold_unary HlirKind.bitnot ty c = some (not64 c)
hlir_fold_unary HlirKind.lognot ty c = some (bool64 (c == 0))
hlir_fold_unary HlirKind.cast ty c = fold_cast_typed ty c
hlir_fold_unary _ ty c = none

abbrev pub is_some {ℓ} : {A : Type ℓ} → Option A → Bool
is_some none = false
is_some (some a) = true

abbrev pub both : Option ℕ → Option ℕ → (ℕ → ℕ → Option ℕ) → Option ℕ
both (some a) (some b) f = f a b
both _ _ f = none

abbrev pub bind : Option ℕ → (ℕ → Option ℕ) → Option ℕ
bind (some a) f = f a
bind none f = none

abbrev pub is_iconst : HlirKind → Bool
is_iconst HlirKind.iconst = true
is_iconst _ = false

-- The result, where an operation on known constants folds. A value that is NULL has no constant, so
-- only `dst`, and the absence of `src2`, are tested.
unfoldable pub folded_binary : HlirEnv → HlirInsn → Option ℕ
unfolding hlir_fold_binary
folded_binary env i =
    if is_some i.dst
    then both (hlir_env_get_const env i.src1) (hlir_env_get_const env i.src2)
        (hlir_fold_binary i.kind)
    else none

unfoldable pub folded_unary : HlirEnv → HlirInsn → Option ℕ
unfolding hlir_fold_unary
folded_unary env i =
    if is_some i.dst && not (is_some i.src2)
    then bind (hlir_env_get_const env i.src1) (hlir_fold_unary i.kind i.ty)
    else none

-- A constant first operand changes places with a second one that is not.
unfoldable pub canonicalizes : HlirEnv → HlirInsn → Bool
unfolding hlir_is_commutative hlir_is_relational
canonicalizes env i =
    (is_some (hlir_env_get_const env i.src1)
      && (is_some i.src2 && not (is_some (hlir_env_get_const env i.src2))))
    && (hlir_is_commutative i.kind || hlir_is_relational i.kind)

unfoldable pub canonicalize : HlirEnv → HlirInsn → HlirInsn
unfolding canonicalizes hlir_is_commutative hlir_is_relational hlir_swap_cmp
canonicalize env i =
    if canonicalizes env i
    then if hlir_is_commutative i.kind
      then record i { src1 = i.src2; src2 = i.src1 }
      else record i { kind = hlir_swap_cmp i.kind; src1 = i.src2; src2 = i.src1 }
    else i

-- One round of the loop: what is known after it, and the instruction as it leaves it.
abbrev pub set_folded : HlirEnv → HlirInsn → ℕ → HlirEnv × HlirInsn
set_folded env i r = (hlir_env_set_const env i.dst r, hlir_set_iconst i r)

abbrev pub or_fold : HlirEnv → HlirInsn → Option ℕ → HlirEnv × HlirInsn → HlirEnv × HlirInsn
or_fold env i (some r) other = set_folded env i r
or_fold env i none other = other

unfoldable pub fold_insn : HlirEnv → HlirInsn → HlirEnv × HlirInsn
unfolding hlir_is_bb_barrier folded_binary folded_unary canonicalize
fold_insn env i =
    if hlir_is_bb_barrier i.kind
    then (hlir_env_reset env, i)
    else if is_iconst i.kind && is_some i.dst
    then (hlir_env_set_const env i.dst i.imm, i)
    else or_fold env i (folded_binary env i)
        (or_fold env i (folded_unary env i) (env, canonicalize env i))

-- Whether the round sets `changed`.
unfoldable pub fold_changes : HlirEnv → HlirInsn → Bool
unfolding hlir_is_bb_barrier folded_binary folded_unary canonicalizes
fold_changes env i =
    if hlir_is_bb_barrier i.kind || (is_iconst i.kind && is_some i.dst)
    then false
    else is_some (folded_binary env i) || (is_some (folded_unary env i) || canonicalizes env i)

unfoldable pub fold_insns : HlirEnv → List HlirInsn → List HlirInsn
unfolding fold_insn
fold_insns env [] = []
fold_insns env (i ∷ is) = (fold_insn env i).1 ∷ fold_insns (fold_insn env i).0 is

unfoldable pub folds_change : HlirEnv → List HlirInsn → Bool
unfolding fold_changes fold_insn
folds_change env [] = false
folds_change env (i ∷ is) = fold_changes env i || folds_change (fold_insn env i).0 is

-- The function as the pass leaves it, and the result of the call.
unfoldable pub hlir_opt_const_fold : HlirFunction → HlirFunction × Bool
unfolding fold_insns folds_change
hlir_opt_const_fold fn =
    let env = hlir_env_init (length fn.vals) false in
    if length fn.vals == 0
    then (fn, false)
    else (record fn { insns = fold_insns env fn.insns }, folds_change env fn.insns)
