-- ===== src/Hlir/Algebraic/Value/Identity.antt =====
-- ir/hlir_opt_algebraic.c: `hlir_rule_identity` on 64-bit integers.
use chibicc.Common.{
  ℕ, ◌^◌, ◌<◌, ◌≡◌, ◌∙◌, sym, refl, arith, Bool, true, Option, some, Option-cases, Bool-cases, ◌&&◌,
  inl, inr, ◌⊎◌,
}
use chibicc.Common.BitLaws.{
  bit_and-mask, bit_or-zero, bit_xor-zero, bit_and_comm, bit_or_comm, bit_xor_comm,
}
use chibicc.Common.Words.{minus_one, signed_div}
use chibicc.Types.{CType}
use chibicc.Hlir.{HlirKind, HlirInsn, hlir_set_cast}
use chibicc.Hlir.Env.{HlirEnv}
use chibicc.Hlir.Machine.{Role, role, Types, eval_binary, normalize, extend}
use chibicc.Hlir.Algebraic.Rules.{
  in_place, OpSide, on_left, on_right, identity, identity_of, const_is, hlir_rule_identity,
}
use chibicc.Hlir.Algebraic.Value.{
  word_type, value, AreWords, KnowsConsts, const_is_sound, value-cast, value-binary,
}

signed_div-one : (a : ℕ) → a < 2 ^ 64 → signed_div a 1 ≡ a
unfolding signed_div mathlib.Core.Bool.xor
signed_div-one a h = ground arith

eval_identity_right :
    (k : HlirKind) (uns : Bool) (ty1 : Option CType) (a e : ℕ) (side : OpSide)
    → identity k ≡ some (e, side)
    → a < 2 ^ 64
    → on_right side ≡ true
    → eval_binary k (some (word_type uns)) ty1 a e ≡ some a
unfolding identity eval_binary normalize extend
eval_identity_right HlirKind.add uns ty1 a e side h w s = ground arith
eval_identity_right HlirKind.sub uns ty1 a e side h w s = ground arith
eval_identity_right HlirKind.mul uns ty1 a e side h w s = ground arith
eval_identity_right HlirKind.div uns ty1 a e side h w s = ground (arith, signed_div-one a)
eval_identity_right HlirKind.bitand uns ty1 a e side h w s = ground (arith, bit_and-mask 64 a)
eval_identity_right HlirKind.bitor uns ty1 a e side h w s = ground (arith, bit_or-zero a)
eval_identity_right HlirKind.bitxor uns ty1 a e side h w s = ground (arith, bit_xor-zero a)
eval_identity_right HlirKind.shl uns ty1 a e side h w s = ground arith
eval_identity_right HlirKind.shr uns ty1 a e side h w s = ground arith
eval_identity_right _ uns ty1 a e side h w s = cc

eval_identity_left :
    (k : HlirKind) (uns : Bool) (ty1 : Option CType) (b e : ℕ) (side : OpSide)
    → identity k ≡ some (e, side)
    → b < 2 ^ 64
    → on_left side ≡ true
    → eval_binary k (some (word_type uns)) ty1 e b ≡ some b
unfolding identity eval_binary normalize extend
eval_identity_left HlirKind.add uns ty1 a e side h w s = ground arith
eval_identity_left HlirKind.sub uns ty1 a e side h w s = ground arith
eval_identity_left HlirKind.mul uns ty1 a e side h w s = ground arith
eval_identity_left HlirKind.div uns ty1 a e side h w s = ground (arith)
eval_identity_left HlirKind.bitand uns ty1 a e side h w s =
    ground (arith, bit_and-mask 64 a, bit_and_comm minus_one a)
eval_identity_left HlirKind.bitor uns ty1 a e side h w s =
    ground (arith, bit_or-zero a, bit_or_comm 0 a)
eval_identity_left HlirKind.bitxor uns ty1 a e side h w s =
    ground (arith, bit_xor-zero a, bit_xor_comm 0 a)
eval_identity_left HlirKind.shl uns ty1 a e side h w s = ground arith
eval_identity_left HlirKind.shr uns ty1 a e side h w s = ground arith
eval_identity_left _ uns ty1 a e side h w s = cc

role-identity : (k : HlirKind) (p : ℕ × OpSide) → identity k ≡ some p → role k ≡ Role.binary
unfolding identity role
role-identity HlirKind.add p h = refl
role-identity HlirKind.sub p h = refl
role-identity HlirKind.mul p h = refl
role-identity HlirKind.div p h = refl
role-identity HlirKind.bitand p h = refl
role-identity HlirKind.bitor p h = refl
role-identity HlirKind.bitxor p h = refl
role-identity HlirKind.shl p h = refl
role-identity HlirKind.shr p h = refl
role-identity _ p h = cc

identity_of-cases :
    (env : HlirEnv) (i i' : HlirInsn) (c : ℕ) (side : OpSide)
    → identity_of env i (some (c, side)) ≡ some (in_place i')
    → ((on_right side ≡ true) × (const_is env i.src2 c ≡ true) × (i' ≡ hlir_set_cast i i.src1))
      ⊎ ((on_left side ≡ true) × (const_is env i.src1 c ≡ true) × (i' ≡ hlir_set_cast i i.src2))
identity_of-cases env i i' c side h = elim (Bool-cases (on_right side && const_is env i.src2 c)) [
  | inl r ↦ let z = rw r at h in inl (ground arith, ground arith, cc)
  | inr r ↦
      let z = rw r at h in
      elim (Bool-cases (on_left side && const_is env i.src1 c)) [
        | inl q ↦ let z' = rw q at z in inr (ground arith, ground arith, cc)
        | inr q ↦ let z' = rw q at z in absurd cc
      ]
]

-- On 64-bit integers, where the values are words and the constants that are known are theirs, the
-- cast that the rule leaves of the operand beside an identity element has the value of the
-- instruction, on whichever side the element stands.
pub hlir_rule_identity-value :
    (types : Types) (vals : ℕ → ℕ) (env : HlirEnv) (i i' : HlirInsn) (uns : Bool) (x y : ℕ)
    → i.ty ≡ some (word_type uns)
    → i.src1 ≡ some x
    → i.src2 ≡ some y
    → AreWords vals
    → KnowsConsts env vals
    → hlir_rule_identity env i ≡ some (in_place i')
    → value types vals i' ≡ value types vals i
unfolding hlir_rule_identity
hlir_rule_identity-value types vals env i i' uns x y t e f w k h =
    elim (Option-cases (identity i.kind)) [
      | inl n ↦ let z = rw n at h in absurd cc
      | inr (p, n) ↦
          let b = value-binary types vals i uns x y (role-identity i.kind p n) t e f in
          elim (identity_of-cases env i i' p.0 p.1 (rw n at h)) [
            | inl (s, q, z) ↦
                let g = const_is_sound env i.src2 p.0 q in
                let c = k y p.0 (cc) in
                rw (z, e) (value-cast types vals i uns x t w)
                ∙ sym (
                    (rw c at b)
                    ∙ eval_identity_right i.kind uns (types x) (vals x) p.0 p.1 n (w x) s)
            | inr (s, q, z) ↦
                let g = const_is_sound env i.src1 p.0 q in
                let c = k x p.0 (cc) in
                rw (z, f) (value-cast types vals i uns y t w)
                ∙ sym (
                    (rw c at b)
                    ∙ eval_identity_left i.kind uns (types x) (vals y) p.0 p.1 n (w y) s)
          ]
    ]
