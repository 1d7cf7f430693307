-- ===== src/Hlir/Algebraic/Value/Absorption.antt =====
-- ir/hlir_opt_algebraic.c: `hlir_rule_absorption` on 64-bit integers.
use chibicc.Common.{
  ℕ, ◌%◌, ◌^◌, ◌<◌, ◌≡◌, ◌∙◌, sym, ap, refl, arith, Bool, true, Option, none, some, bit_and, bit_or,
  Option-cases, Bool-cases, ◌&&◌, ◌||◌, inl, inr, ◌⊎◌,
}
use chibicc.Common.BitLaws.{
  bit_and-bit_or_absorb, bit_or-bit_and_absorb, bit_and_comm, bit_or_comm, bit_or-lt, bit_and-le,
}
use chibicc.Types.{CType}
use chibicc.Hlir.{HlirKind, HlirInsn, hlir_set_cast}
use chibicc.Hlir.Env.{HlirEnv, hlir_env_get_def}
use chibicc.Hlir.Machine.{Role, role, Types, eval_binary, normalize, extend}
use chibicc.Hlir.Algebraic.Rules.{in_place, same_value}
use chibicc.Hlir.Algebraic.Binary.{is_dual, absorbed, hlir_rule_absorption}
use chibicc.Hlir.Algebraic.Value.{
  word_type, value, AreWords, KnowsDef, value-cast, value-binary, value-operands, some_inj,
}

-- The dual operation on words, and the operation back with one of its operands.
eval_absorb_left :
    (k k' : HlirKind) (u u' : Bool) (ty1 ty1' : Option CType) (a b x : ℕ)
    → is_dual k k' ≡ true
    → a < 2 ^ 64
    → b < 2 ^ 64
    → eval_binary k' (some (word_type u')) ty1' a b ≡ some x
    → (eval_binary k (some (word_type u)) ty1 x a ≡ some a)
      × (eval_binary k (some (word_type u)) ty1 a x ≡ some a)
      × (eval_binary k (some (word_type u)) ty1 x b ≡ some b)
      × (eval_binary k (some (word_type u)) ty1 b x ≡ some b)
unfolding eval_binary normalize extend
eval_absorb_left HlirKind.bitand HlirKind.bitor u u' ty1 ty1' a b x d la lb e =
    let p = bit_or-lt 64 a b la lb in
    let q : bit_or a b % 2 ^ 64 ≡ x = cc in
    let z : bit_or a b ≡ x = omega arith in
    let c1 = bit_and-bit_or_absorb a b in
    let c2 = bit_and-bit_or_absorb b a in
    ground (arith, bit_or_comm a b, bit_and_comm a (bit_or a b), bit_and_comm b (bit_or a b))
eval_absorb_left HlirKind.bitor HlirKind.bitand u u' ty1 ty1' a b x d la lb e =
    let p = bit_and-le a b in
    let q : bit_and a b % 2 ^ 64 ≡ x = cc in
    let z : bit_and a b ≡ x = omega arith in
    let c1 = bit_or-bit_and_absorb a b in
    let c2 = bit_or-bit_and_absorb b a in
    ground (arith, bit_and_comm a b, bit_or_comm a (bit_and a b), bit_or_comm b (bit_and a b))
eval_absorb_left _ _ u u' ty1 ty1' a b x d la lb e = cc

role-is_dual :
    (k k' : HlirKind) → is_dual k k' ≡ true → (role k ≡ Role.binary) × (role k' ≡ Role.binary)
unfolding role
role-is_dual HlirKind.bitand HlirKind.bitor d = (refl, refl)
role-is_dual HlirKind.bitor HlirKind.bitand d = (refl, refl)
role-is_dual _ _ d = cc

same_value_sound : (v : Option ℕ) (y : ℕ) → same_value v (some y) ≡ true → v ≡ some y
same_value_sound none y h = absurd cc
same_value_sound (some a) y h = ground arith

absorbed_sound :
    (i i' : HlirInsn) (y : ℕ) (o : Option HlirInsn)
    → absorbed i (some y) o ≡ some (in_place i')
    → (d : HlirInsn) × (o ≡ some d)
      × (is_dual i.kind d.kind ≡ true)
      × ((d.src1 ≡ some y) ⊎ (d.src2 ≡ some y))
      × (i' ≡ hlir_set_cast i (some y))
absorbed_sound i i' y none h = absurd cc
absorbed_sound i i' y (some d) h =
    elim (Bool-cases
      (is_dual i.kind d.kind && (same_value d.src1 (some y) || same_value d.src2 (some y)))) [
        | inr q ↦ let z = rw q at h in absurd cc
        | inl q ↦
            let z = rw q at h in
            let dual : is_dual i.kind d.kind ≡ true = ground arith in
            elim (Bool-cases (same_value d.src1 (some y))) [
              | inl s ↦ (d, refl, dual, inl (same_value_sound d.src1 y s), cc)
              | inr s ↦ (d, refl, dual, inr (same_value_sound d.src2 y (ground arith)), cc)
            ]
      ]

module _ (types : Types) (vals : ℕ → ℕ) (env : HlirEnv) (w : AreWords vals) (i i' : HlirInsn)
    (uns : Bool) (t : i.ty ≡ some (word_type uns)) where
  -- `z` is defined by the dual operation from `y`.
  eval-absorbed :
      (z y : ℕ) (ty1 : Option CType)
      → KnowsDef env types vals (is_dual i.kind) z
      → absorbed i (some y) (hlir_env_get_def env (some z)) ≡ some (in_place i')
      → (role i.kind ≡ Role.binary)
        × (eval_binary i.kind (some (word_type uns)) ty1 (vals z) (vals y) ≡ some (vals y))
        × (eval_binary i.kind (some (word_type uns)) ty1 (vals y) (vals z) ≡ some (vals y))
        × (value types vals i' ≡ some (vals y))
  eval-absorbed z y ty1 k h =
      let (d, o, dual, sides, c) = absorbed_sound i i' y (hlir_env_get_def env (some z)) h in
      let ((u, td), v) = k d o dual in
      let roles = role-is_dual i.kind d.kind dual in
      let (a, b, ea, eb) = value-operands types vals d (vals z) roles.1 v in
      let e = sym (value-binary types vals d u a b roles.1 td ea eb) ∙ v in
      let (r0, r1, r2, r3) =
        eval_absorb_left i.kind d.kind uns u ty1 (types a) (vals a) (vals b) (vals z) dual (w a)
          (w b) e in
      let cast : value types vals i' ≡ some (vals y) = rw c (value-cast types vals i uns y t w) in
      elim sides [
        | inl s ↦ let q : a ≡ y = cc in (roles.0, rw q at r0, rw q at r1, cast)
        | inr s ↦ let q : b ≡ y = cc in (roles.0, rw q at r2, rw q at r3, cast)
      ]

  -- On 64-bit integers, where the values are words: if the definitions of the operands, when they are
  -- of the dual operation, are of 64-bit integers and still hold, the cast that the rule leaves of an
  -- operand has the value of the instruction, which combines that operand with what the dual operation
  -- made of it and of another value. Nothing is asked of any other definition.
  pub hlir_rule_absorption-value :
      (x y : ℕ)
      → i.src1 ≡ some x
      → i.src2 ≡ some y
      → KnowsDef env types vals (is_dual i.kind) x
      → KnowsDef env types vals (is_dual i.kind) y
      → hlir_rule_absorption env i ≡ some (in_place i')
      → value types vals i' ≡ value types vals i
  unfolding hlir_rule_absorption
  hlir_rule_absorption-value x y e f k l h =
      let h' = rw (e, f) at h in
      elim (Option-cases (absorbed i (some y) (hlir_env_get_def env (some x)))) [
        | inl n ↦
            let (r, p, q, c) = eval-absorbed y x (types x) l (rw n at h') in
            c ∙ sym (value-binary types vals i uns x y r t e f ∙ q)
        | inr (o, n) ↦
            let m : o ≡ in_place i' = some_inj (rw n at h') in
            let (r, p, q, c) = eval-absorbed x y (types x) k (n ∙ ap some m) in
            c ∙ sym (value-binary types vals i uns x y r t e f ∙ p)
      ]
