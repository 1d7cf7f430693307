-- ===== src/Hlir/Algebraic/Value/Unary.antt =====
-- ir/hlir_opt_algebraic.c: `hlir_rule_simplify_unary` on integers of 4 or 8 bytes.
use chibicc.Common.{
  ℕ, ◌-◌, ◌^◌, ◌<◌, ◌≡◌, ◌∙◌, sym, ap, refl, arith, Bool, true, false, not, Option, some,
  Bool-cases, ◌||◌, inl, inr, ◌⊎◌,
}
use chibicc.Hlir.{HlirKind, HlirInsn, hlir_set_cast, hlir_is_relational, hlir_invert_cmp}
use chibicc.Hlir.Env.{HlirEnv, hlir_env_get_def}
use chibicc.Hlir.Machine.{
  Role, role, Types, bool_typed, flonum_type, type_size, is_float, eval_unary, normalize, extend,
  compute, compute_unary,
}
use chibicc.Common.Words.{not64}
use chibicc.Types.{CType}
use chibicc.Hlir.Compare.{hlir_invert_cmp-eval}
use chibicc.Hlir.Fold.{is_some}
use chibicc.Hlir.Algebraic.Rules.{in_place, unary_of, hlir_rule_simplify_unary}
use chibicc.Hlir.Algebraic.Value.{
  value, AreWords, value-operation, value-operands, value-unary, value-one, some_inj,
}

-- The three rewritings, by the kinds of the instruction and of the definition.
unary_of-cases :
    (k k' : HlirKind) (i d i' : HlirInsn)
    → unary_of k k' i d ≡ some (in_place i')
    → ((k ≡ k') × ((k ≡ HlirKind.neg) ⊎ (k ≡ HlirKind.bitnot)) × (i' ≡ hlir_set_cast i d.src1))
      ⊎ ((k ≡ HlirKind.lognot)
          × (hlir_is_relational k' ≡ true)
          × (i' ≡ record i { kind = hlir_invert_cmp k'; src1 = d.src1; src2 = d.src2 }))
unfolding hlir_is_relational
unary_of-cases HlirKind.neg HlirKind.neg i d i' h = inl (refl, inl refl, cc)
unary_of-cases HlirKind.bitnot HlirKind.bitnot i d i' h = inl (refl, inr refl, cc)
unary_of-cases HlirKind.lognot k' i d i' h = elim (Bool-cases (hlir_is_relational k')) [
  | inl r ↦ let z = rw r at h in inr (refl, r, cc)
  | inr r ↦ let z = rw r at h in absurd cc
]
unary_of-cases _ _ i d i' h = absurd cc

role-relational :
    (k : HlirKind)
    → hlir_is_relational k ≡ true
    → (role k ≡ Role.binary) × (role (hlir_invert_cmp k) ≡ Role.binary)
unfolding hlir_is_relational hlir_invert_cmp role
role-relational HlirKind.cmp_eq h = (refl, refl)
role-relational HlirKind.cmp_ne h = (refl, refl)
role-relational HlirKind.cmp_lt h = (refl, refl)
role-relational HlirKind.cmp_le h = (refl, refl)
role-relational HlirKind.cmp_gt h = (refl, refl)
role-relational HlirKind.cmp_ge h = (refl, refl)
role-relational _ h = cc

-- An integer type of 4 or 8 bytes.
abbrev pub IsWord : Option CType → Type 0
IsWord ty =
    (bool_typed ty ≡ false) × (flonum_type ty ≡ false) × ((type_size ty ≡ 4) ⊎ (type_size ty ≡ 8))

-- The complement of a complement, and the negation of a negation, are the extended word.
extend_neg_twice :
    (u u' : Bool) (n a : ℕ)
    → (n ≡ 4) ⊎ (n ≡ 8)
    → a < 2 ^ 64
    → extend u n (2 ^ 64 - extend u' n (2 ^ 64 - a)) ≡ extend u n a
unfolding extend
extend_neg_twice true true n a (inl e) h = rw e (ground arith)
extend_neg_twice true false n a (inl e) h = rw e (ground arith)
extend_neg_twice false true n a (inl e) h = rw e (ground arith)
extend_neg_twice false false n a (inl e) h = rw e (ground arith)
extend_neg_twice u u' n a (inr e) h = rw e (ground arith)

extend_bitnot_twice :
    (u u' : Bool) (n a : ℕ)
    → (n ≡ 4) ⊎ (n ≡ 8)
    → a < 2 ^ 64
    → extend u n (not64 (extend u' n (not64 a))) ≡ extend u n a
unfolding extend
extend_bitnot_twice true true n a (inl e) h = rw e (ground arith)
extend_bitnot_twice true false n a (inl e) h = rw e (ground arith)
extend_bitnot_twice false true n a (inl e) h = rw e (ground arith)
extend_bitnot_twice false false n a (inl e) h = rw e (ground arith)
extend_bitnot_twice u u' n a (inr e) h = rw e (ground arith)

word_size : (ty : CType) → IsWord (some ty) → (ty.size ≡ 4) ⊎ (ty.size ≡ 8)
word_size ty w = w.2

eval_twice :
    (k : HlirKind) (ty ty' : CType) (a x : ℕ)
    → (k ≡ HlirKind.neg) ⊎ (k ≡ HlirKind.bitnot)
    → IsWord (some ty)
    → ty'.size ≡ ty.size
    → a < 2 ^ 64
    → eval_unary k (some ty') a ≡ some x
    → eval_unary k (some ty) x ≡ eval_unary HlirKind.cast (some ty) a
unfolding eval_unary normalize
eval_twice k ty ty' a x (inl q) w z h e =
    let e' : some (extend ty'.is_unsigned ty'.size (2 ^ 64 - a)) ≡ some x = rw q at e in
    let r = rw z at (some_inj e') in
    let b = w.0 in
    rw (q, b, sym r)
      (ap some (extend_neg_twice ty.is_unsigned ty'.is_unsigned ty.size a (word_size ty w) h))
eval_twice k ty ty' a x (inr q) w z h e =
    let e' : some (extend ty'.is_unsigned ty'.size (not64 a)) ≡ some x = rw q at e in
    let r = rw z at (some_inj e') in
    let b = w.0 in
    rw (q, b, sym r)
      (ap some (extend_bitnot_twice ty.is_unsigned ty'.is_unsigned ty.size a (word_size ty w) h))

role_of_twice : (k : HlirKind) → (k ≡ HlirKind.neg) ⊎ (k ≡ HlirKind.bitnot) → role k ≡ Role.unary
unfolding role
role_of_twice k (inl e) = rw e refl
role_of_twice k (inr e) = rw e refl

-- What is known of the definition of the operand: it is of the same size as the instruction, not of
-- floating point, and its operands still have the words from which its value `r` was computed.
abbrev pub Known : Types → (ℕ → ℕ) → CType → ℕ → HlirInsn → Type 0
Known types vals ty r d =
    (is_float types d ≡ false)
    × ((ty' : CType) × (d.ty ≡ some ty') × (ty'.size ≡ ty.size))
    × (value types vals d ≡ some r)

module _ (types : Types) (vals : ℕ → ℕ) (env : HlirEnv) (words : AreWords vals) (i : HlirInsn)
    (ty : CType) (x : ℕ) (t : i.ty ≡ some ty) (e : i.src1 ≡ some x) where
  value-twice :
      (d : HlirInsn)
      → IsWord (some ty)
      → Known types vals ty (vals x) d
      → i.kind ≡ d.kind
      → (i.kind ≡ HlirKind.neg) ⊎ (i.kind ≡ HlirKind.bitnot)
      → value types vals (hlir_set_cast i d.src1) ≡ value types vals i
  unfolding value role compute compute_unary
  value-twice d w (f, (ty', td, z), v) same which =
      let r = role_of_twice i.kind which in
      let (a, ea, ev) =
        value-unary types vals d (some ty') (vals x) (ap role (sym same) ∙ r) td v in
      let v' = rw (sym same) at ev in
      let c : value types vals (hlir_set_cast i (some a)) ≡ eval_unary HlirKind.cast i.ty (vals a) =
        refl in
      rw ea c
      ∙ ap (λ o. eval_unary HlirKind.cast o (vals a)) t
      ∙ sym (
          value-one types vals i (some ty) x r t e
          ∙ eval_twice i.kind ty ty' (vals a) (vals x) which w z (words a) v')

  value-inverted :
      (d : HlirInsn)
      → value types vals d ≡ some (vals x)
      → i.kind ≡ HlirKind.lognot
      → hlir_is_relational d.kind ≡ true
      → value types vals (record i { kind = hlir_invert_cmp d.kind; src1 = d.src1; src2 = d.src2 })
        ≡ value types vals i
  unfolding role
  value-inverted d v not_kind rel =
      let r = role-relational d.kind rel in
      let (a, b, ea, eb) = value-operands types vals d (vals x) r.0 v in
      let ev = sym (value-operation types vals d a b r.0 ea eb) ∙ v in
      let i₁ : HlirInsn = record i {
        kind = hlir_invert_cmp d.kind;
        src1 = d.src1;
        src2 = d.src2;
      } in
      let unary : role i.kind ≡ Role.unary = rw not_kind refl in
      value-operation types vals i₁ a b r.1 ea eb
      ∙ hlir_invert_cmp-eval d.kind i.ty d.ty (some ty) (types a) (vals a) (vals b) (vals x) rel ev
      ∙ sym (value-one types vals i (some ty) x unary t e ∙ rw not_kind refl)

  -- For an integer type of 4 or 8 bytes that is not `_Bool`, where the values are words: if the
  -- definition of the operand that the rule finds has a type of the same size, is not of floating
  -- point and still holds, the instruction that the rule leaves has the value of the one it found. A
  -- double negation or complement is a cast of what was negated, the logical negation of a
  -- comparison the inverted comparison.
  pub hlir_rule_simplify_unary-value :
      (d i' : HlirInsn)
      → IsWord (some ty)
      → hlir_env_get_def env (some x) ≡ some d
      → Known types vals ty (vals x) d
      → hlir_rule_simplify_unary env i ≡ some (in_place i')
      → value types vals i' ≡ value types vals i
  unfolding hlir_rule_simplify_unary
  hlir_rule_simplify_unary-value d i' w o known h =
      elim (Bool-cases (not (is_some i.dst) || (not (is_some i.src1) || is_some i.src2))) [
        | inl g ↦ let z = rw g at h in absurd cc
        | inr g ↦
            let z = rw g at h in
            let n = ap (hlir_env_get_def env) e ∙ o in
            let z' = rw n at z in
            elim (unary_of-cases i.kind d.kind i d i' z') [
              | inl (same, which, c) ↦ rw c (value-twice d w known same which)
              | inr (not_kind, rel, c) ↦ rw c (value-inverted d known.2 not_kind rel)
            ]
      ]
