-- ===== src/Hlir/Cse/Match.antt =====
-- ir/hlir_opt_cse.c: of two instructions of the same type that match, what integer arithmetic computes.
use mathlib.Core.Bool.{decide}
use chibicc.Common.{
  ℕ, ◌≡◌, ◌≢◌, ◌∙◌, sym, refl, ap, arith, true, Option, none, some, Bool-cases, inl, inr, ◌⊎◌,
}
use chibicc.Hlir.{HlirKind, HlirInsn, hlir_is_commutative}
use chibicc.Hlir.Machine.{Role, role, Types, compute, compute_binary, compute_unary}
use chibicc.Hlir.Fold.Admissible.{eval_binary_comm}
use chibicc.Hlir.Algebraic.Rules.{same_value}
use chibicc.Hlir.Algebraic.Value.{value}
use chibicc.Hlir.Cse.{HlirKind-discrete, same_kind, match_operands, match_of, hlir_insn_match_cse}

decide_sound {ℓ} : {P : Type ℓ} (d : Dec P) → decide d ≡ true → P
unfolding decide
decide_sound (yes p) h = p
decide_sound (no n) h = absurd cc

same_kind_sound : (a b : HlirKind) → same_kind a b ≡ true → a ≡ b
unfolding same_kind
same_kind_sound a b h = decide_sound (HlirKind-discrete a b) h

same_value_eq : (v w : Option ℕ) → same_value v w ≡ true → v ≡ w
same_value_eq none none h = refl
same_value_eq (some a) (some b) h = ground arith
same_value_eq none (some b) h = absurd cc
same_value_eq (some a) none h = absurd cc

-- The three ways in which operands match.
match_operands-cases :
    (a b : HlirInsn)
    → match_operands a b ≡ true
    → ((a.src1 ≡ b.src1) × (a.src2 ≡ b.src2))
      ⊎ ((hlir_is_commutative a.kind ≡ true) × (a.src1 ≡ b.src2) × (a.src2 ≡ b.src1))
unfolding hlir_is_commutative
match_operands-cases a b h = ground (
  arith,
  same_value_eq a.src1 b.src1,
  same_value_eq a.src2 b.src2,
  same_value_eq a.src1 b.src2,
  same_value_eq a.src2 b.src1,
)

role-commutative : (k : HlirKind) → hlir_is_commutative k ≡ true → role k ≡ Role.binary
unfolding hlir_is_commutative role
role-commutative HlirKind.add h = refl
role-commutative HlirKind.mul h = refl
role-commutative HlirKind.bitand h = refl
role-commutative HlirKind.bitor h = refl
role-commutative HlirKind.bitxor h = refl
role-commutative HlirKind.cmp_eq h = refl
role-commutative HlirKind.cmp_ne h = refl
role-commutative _ h = cc

compute_binary_comm :
    (types : Types) (vals : ℕ → ℕ) (i : HlirInsn) (x y : Option ℕ)
    → hlir_is_commutative i.kind ≡ true
    → compute_binary types vals i y x ≡ compute_binary types vals i x y
unfolding compute_binary
compute_binary_comm types vals i (some x) (some y) h =
    eval_binary_comm i.kind i.ty (types x) (types y) (vals x) (vals y) h
compute_binary_comm types vals i (some x) none h = refl
compute_binary_comm types vals i none (some y) h = refl
compute_binary_comm types vals i none none h = refl

module _ (types : Types) (vals : ℕ → ℕ) (a b : HlirInsn) (k : a.kind ≡ b.kind)
    (t : a.ty ≡ b.ty) where
  same_binary : (x y : Option ℕ) → compute_binary types vals a x y ≡ compute_binary types vals b x y
  unfolding compute_binary
  same_binary (some x) (some y) = rw (k, t) refl
  same_binary (some x) none = refl
  same_binary none y = refl

  same_unary : (x : Option ℕ) → compute_unary types vals a x ≡ compute_unary types vals b x
  unfolding compute_unary
  same_unary (some x) = rw (k, t) refl
  same_unary none = refl

  same_compute :
      (r : Role)
      → role a.kind ≡ r
      → r ≢ Role.constant
      → match_operands a b ≡ true
      → compute types vals a r ≡ compute types vals b r
  unfolding compute compute_binary compute_unary
  same_compute Role.constant e n h = absurd (n refl)
  same_compute Role.binary e n h = elim (match_operands-cases a b h) [
    | inl (p, q) ↦ rw (p, q) (same_binary b.src1 b.src2)
    | inr (c, p, q) ↦
        rw (p, q) (compute_binary_comm types vals a b.src1 b.src2 c ∙ same_binary b.src1 b.src2)
  ]
  same_compute Role.unary e n h = elim (match_operands-cases a b h) [
    | inl (p, q) ↦ rw p (same_unary b.src1)
    | inr (c, p, q) ↦ let z = role-commutative a.kind c in absurd cc
  ]
  same_compute Role.control e n h = refl
  same_compute Role.other e n h = refl

match_of-compute :
    (k : HlirKind) (types : Types) (vals : ℕ → ℕ) (a b : HlirInsn)
    → a.kind ≡ k
    → a.kind ≡ b.kind
    → a.ty ≡ b.ty
    → match_of k a b ≡ true
    → compute types vals a (role k) ≡ compute types vals b (role k)
unfolding compute role
match_of-compute HlirKind.iconst types vals a b e k t h = ground arith
match_of-compute HlirKind.fconst types vals a b e k t h = refl
match_of-compute HlirKind.sconst types vals a b e k t h = refl
match_of-compute HlirKind.addr_var types vals a b e k t h = refl
match_of-compute _ types vals a b e k t h =
    same_compute types vals a b k t _ (ap role e) (λ z. absurd cc) h

same_result :
    (types : Types) (vals : ℕ → ℕ) (a b : HlirInsn)
    → a.ty ≡ b.ty
    → hlir_insn_match_cse a b ≡ true
    → value types vals a ≡ value types vals b
unfolding hlir_insn_match_cse value
same_result types vals a b t h = elim (Bool-cases (same_kind a.kind b.kind)) [
  | inr n ↦ let z = rw n at h in absurd cc
  | inl s ↦
      let z = rw s at h in
      let k = same_kind_sound a.kind b.kind s in
      match_of-compute a.kind types vals a b refl k t z ∙ ap (compute types vals b) (ap role k)
]

-- Of two instructions that match and have the same type: when the first is an integer constant or an
-- operation of integer arithmetic and has a value, the second has the same value.
pub hlir_insn_match_cse-value :
    (types : Types) (vals : ℕ → ℕ) (a b : HlirInsn) (r : ℕ)
    → a.ty ≡ b.ty
    → hlir_insn_match_cse a b ≡ true
    → value types vals a ≡ some r
    → value types vals b ≡ some r
hlir_insn_match_cse-value types vals a b r t h e = sym (same_result types vals a b t h) ∙ e
