-- ===== src/Hlir/Algebraic/Value.antt =====
-- ir/hlir_opt_algebraic.c: what a rule knows, and what it has to keep.
pub mod Identity
pub mod Absorption
pub mod Unary
use chibicc.Common.{
  ℕ, ◌+◌, ◌-◌, ◌*◌, ◌/◌, ◌%◌, ◌^◌, ◌<◌, ◌≡◌, refl, arith, Bool, true, false, Option, none, some,
  List, bit_and, bit_or, bit_xor, Option-cases, inl, inr, ◌⊎◌,
}
use chibicc.Common.BitLaws.{
  bit_and-mask, bit_or-zero, bit_xor-zero, bit_and_comm, bit_or_comm, bit_xor_comm,
}
use chibicc.Common.Words.{minus_one, signed_div, signed_mod, sar64}
use chibicc.Types.{CType, TypeKind, is_flonum}
use chibicc.Hlir.{HlirKind, HlirInsn, hlir_set_cast}
use chibicc.Hlir.Env.{HlirEnv, hlir_env_get_const, hlir_env_get_def}
use chibicc.Hlir.Algebraic.Rules.{const_is}
use chibicc.Hlir.Machine.{
  Role, role, Types, eval_binary, eval_unary, normalize, extend, compute, compute_binary,
  compute_unary,
}

-- `long` and `unsigned long`.
abbrev pub word_type : Bool → CType
word_type uns = record { kind = TypeKind.ty_long; size = 8; is_unsigned = uns }

-- The result of an instruction of integer arithmetic.
unfoldable pub value : Types → (ℕ → ℕ) → HlirInsn → Option ℕ
unfolding role compute compute_binary compute_unary eval_binary eval_unary
value types vals i = compute types vals i (role i.kind)

abbrev pub AreWords : (ℕ → ℕ) → Type 0
AreWords vals = (v : ℕ) → vals v < 2 ^ 64

-- The constants that are known are the words of their values.
abbrev pub KnowsConsts : HlirEnv → (ℕ → ℕ) → Type 0
KnowsConsts env vals = (v c : ℕ) → hlir_env_get_const env (some v) ≡ some c → vals v ≡ c

-- The definition of a value, if it has one of the kinds, is of 64-bit arithmetic, and its operands
-- still have the words from which the value was computed.
abbrev pub KnowsDef : HlirEnv → Types → (ℕ → ℕ) → (HlirKind → Bool) → ℕ → Type 0
KnowsDef env types vals kinds v =
    (d : HlirInsn)
    → hlir_env_get_def env (some v) ≡ some d
    → kinds d.kind ≡ true
    → ((uns : Bool) × (d.ty ≡ some (word_type uns))) × (value types vals d ≡ some (vals v))

pub eval_cast :
    (uns : Bool) (a : ℕ) → a < 2 ^ 64 → eval_unary HlirKind.cast (some (word_type uns)) a ≡ some a
unfolding eval_unary normalize extend
eval_cast uns a h = ground arith

pub value-cast :
    (types : Types) (vals : ℕ → ℕ) (i : HlirInsn) (uns : Bool) (x : ℕ)
    → i.ty ≡ some (word_type uns)
    → AreWords vals
    → value types vals (hlir_set_cast i (some x)) ≡ some (vals x)
unfolding value role compute compute_unary
value-cast types vals i uns x t w = rw t (eval_cast uns (vals x) (w x))

-- The word of a binary instruction.
pub value-binary :
    (types : Types) (vals : ℕ → ℕ) (i : HlirInsn) (uns : Bool) (x y : ℕ)
    → role i.kind ≡ Role.binary
    → i.ty ≡ some (word_type uns)
    → i.src1 ≡ some x
    → i.src2 ≡ some y
    → value types vals i ≡ eval_binary i.kind (some (word_type uns)) (types x) (vals x) (vals y)
unfolding value compute compute_binary
value-binary types vals i uns x y r t e f = rw (r, t, e, f) refl

pub value-operation :
    (types : Types) (vals : ℕ → ℕ) (i : HlirInsn) (x y : ℕ)
    → role i.kind ≡ Role.binary
    → i.src1 ≡ some x
    → i.src2 ≡ some y
    → value types vals i ≡ eval_binary i.kind i.ty (types x) (vals x) (vals y)
unfolding value compute compute_binary
value-operation types vals i x y r e f = rw (r, e, f) refl

pub const_is_sound :
    (env : HlirEnv) (v : Option ℕ) (c : ℕ)
    → const_is env v c ≡ true
    → hlir_env_get_const env v ≡ some c
const_is_sound env v c h = elim (Option-cases (hlir_env_get_const env v)) [
  | inl n ↦ absurd (ground arith)
  | inr (a, n) ↦ ground arith
]

-- The operands of a binary instruction that has a value.
pub value-operands :
    (types : Types) (vals : ℕ → ℕ) (d : HlirInsn) (r : ℕ)
    → role d.kind ≡ Role.binary
    → value types vals d ≡ some r
    → (a : ℕ) × (b : ℕ) × (d.src1 ≡ some a) × (d.src2 ≡ some b)
unfolding value compute compute_binary
value-operands types vals d r h e = elim (Option-cases d.src1) [
  | inl n ↦ let z = rw (h, n) at e in absurd cc
  | inr (a, n) ↦ elim (Option-cases d.src2) [
    | inl m ↦ let z = rw (h, n, m) at e in absurd cc
    | inr (b, m) ↦ (a, b, n, m)
  ]
]

pub value-unary :
    (types : Types) (vals : ℕ → ℕ) (d : HlirInsn) (ty : Option CType) (r : ℕ)
    → role d.kind ≡ Role.unary
    → d.ty ≡ ty
    → value types vals d ≡ some r
    → (a : ℕ) × (d.src1 ≡ some a) × (eval_unary d.kind ty (vals a) ≡ some r)
unfolding value compute compute_unary
value-unary types vals d ty r h t e = elim (Option-cases d.src1) [
  | inl n ↦ let z = rw (h, n) at e in absurd cc
  | inr (a, n) ↦ (a, n, rw (h, n, t) at e)
]

pub value-one :
    (types : Types) (vals : ℕ → ℕ) (i : HlirInsn) (ty : Option CType) (x : ℕ)
    → role i.kind ≡ Role.unary
    → i.ty ≡ ty
    → i.src1 ≡ some x
    → value types vals i ≡ eval_unary i.kind ty (vals x)
unfolding value compute compute_unary
value-one types vals i ty x r t e = rw (r, t, e) refl

pub some_inj {ℓ} : {A : Type ℓ} {a b : A} → some a ≡ some b → a ≡ b
some_inj h = cc
