-- ===== src/Hlir/Fold/Round.antt =====
-- ir/hlir_opt_fold.c: every round of the pass keeps the step and the labels.
use chibicc.Common.{
  ℕ, ◌^◌, ◌<◌, ◌≡◌, ◌⊎◌, inl, inr, refl, sym, ◌∙◌, arith, Bool, true, false, not, ◌&&◌, Option,
  none, some, List, ◌++◌, Bool-cases, Option-cases, ltb→lt,
}
use chibicc.Hlir.{
  HlirKind, HlirInsn, uses, hlir_is_bb_barrier, hlir_is_commutative, hlir_is_relational,
  hlir_swap_cmp,
}
use chibicc.Hlir.Env.{HlirEnv}
use chibicc.Hlir.Machine.{
  role, Types, is_float, State, Effect, exec, next_of, is_label, is_label_kind,
}
use chibicc.Hlir.Fold.{
  or_fold, folded_binary, folded_unary, canonicalize, canonicalizes, fold_insn, is_iconst, is_some,
}
use chibicc.Hlir.Fold.Eval.{typed_binary}
use chibicc.Hlir.Fold.Admissible.{
  seen_after, typed_role, fresh_dst, is_admissible, Knows, eval_binary_comm, eval_binary_swap,
}
use chibicc.Hlir.Fold.FoldsTo.{folded_binary-FoldsTo, folded_unary-FoldsTo}
use chibicc.Hlir.Fold.Step.{
  Keeps, folded-Keeps, iconst-Keeps, barrier-Keeps, exchange-exec, Knows-after, role_of_commutative,
  role_of_relational, next_of_binary,
}

canonicalizes-operands :
    (env : HlirEnv) (i : HlirInsn)
    → canonicalizes env i ≡ true
    → (v : ℕ) × (w : ℕ) × (i.src1 ≡ some v)
      × (i.src2 ≡ some w)
      × ((hlir_is_commutative i.kind ≡ true)
          ⊎ ((hlir_is_commutative i.kind ≡ false) × (hlir_is_relational i.kind ≡ true)))
unfolding canonicalizes
canonicalizes-operands env i h = elim (Option-cases i.src1) [
  | inl p ↦ absurd (ground arith)
  | inr (v, p) ↦ elim (Option-cases i.src2) [
    | inl q ↦ absurd (ground arith)
    | inr (w, q) ↦ (v, w, p, q, ground arith)
  ]
]

iconst_kind : (k : HlirKind) → is_iconst k ≡ true → k ≡ HlirKind.iconst
iconst_kind HlirKind.iconst h = refl
iconst_kind _ h = cc

pub label_is_barrier : (k : HlirKind) → hlir_is_bb_barrier k ≡ false → is_label_kind k ≡ false
unfolding hlir_is_bb_barrier
label_is_barrier HlirKind.label h = cc
label_is_barrier _ h = refl

swap_is_label : (k : HlirKind) → is_label_kind (hlir_swap_cmp k) ≡ is_label_kind k
unfolding hlir_swap_cmp
swap_is_label HlirKind.label = refl
swap_is_label _ = refl

and_false : (a b : Bool) → a ≡ false → (a && b) ≡ false
and_false a b h = ground arith

canonicalize-is_label :
    (env : HlirEnv) (i : HlirInsn)
    → is_label_kind i.kind ≡ false
    → is_label_kind (canonicalize env i).kind ≡ false
unfolding canonicalize
canonicalize-is_label env i h = elim (Bool-cases (canonicalizes env i)) [
  | inr c ↦ rw c h
  | inl c ↦ elim (Bool-cases (hlir_is_commutative i.kind)) [
    | inl d ↦ rw (c, d) h
    | inr d ↦ rw (c, d) (swap_is_label i.kind ∙ h)
  ]
]

or_fold-is_label :
    (env : HlirEnv) (i : HlirInsn) (o : Option ℕ) (p : HlirEnv × HlirInsn)
    → is_label_kind p.1.kind ≡ false
    → is_label_kind (or_fold env i o p).1.kind ≡ false
or_fold-is_label env i none p h = h
or_fold-is_label env i (some r) p h = refl

-- A label stays as it is and clears what is known; no other instruction becomes a label.
pub fold_insn-is_label :
    (env : HlirEnv) (i : HlirInsn) (l : ℕ) → is_label l (fold_insn env i).1 ≡ is_label l i
unfolding fold_insn
fold_insn-is_label env i l = elim (Bool-cases (hlir_is_bb_barrier i.kind)) [
  | inl b ↦ rw b
  | inr b ↦
      let h = label_is_barrier i.kind b in
      elim (Bool-cases (is_iconst i.kind && is_some i.dst)) [
        | inl c ↦ rw (b, c)
        | inr c ↦
            rw (b, c, h)
              (and_false _ _ (
                or_fold-is_label env i (folded_binary env i) _
                  (or_fold-is_label env i (folded_unary env i) _ (canonicalize-is_label env i h))))
      ]
]

module _ {W : Type 0} (effect : Effect W) (types : Types) where
  canonicalize-same :
      (env : HlirEnv) (i : HlirInsn) (σ : State W)
      → typed_role (role i.kind) types i ≡ true
      → (exec effect types (canonicalize env i) σ ≡ exec effect types i σ)
        × (next_of (canonicalize env i).kind (canonicalize env i) σ.vals ≡ next_of i.kind i σ.vals)
  unfolding canonicalize
  canonicalize-same env i σ t = elim (Bool-cases (canonicalizes env i)) [
    | inl yes_ ↦
        let (v, w, p, q, which) = canonicalizes-operands env i yes_ in
        elim which [
          | inl comm ↦
              let ro = role_of_commutative i.kind comm in
              let ty : typed_binary i.kind i.ty (types v) (types w) ≡ true = rw (ro, p, q) at t in
              rw (yes_, comm)
                (
                  exchange-exec effect types i i.kind σ v w ro ro p q ty
                      (eval_binary_comm i.kind i.ty (types v) (types w) (σ.vals v) (σ.vals w) comm),
                  next_of_binary i.kind _ σ.vals ro ∙ sym (next_of_binary i.kind i σ.vals ro),
                )
          | inr (other, rel) ↦
              let (ro, rk) = role_of_relational i.kind rel in
              let ty : typed_binary i.kind i.ty (types v) (types w) ≡ true = rw (ro, p, q) at t in
              rw (yes_, other)
                (
                  exchange-exec effect types i (hlir_swap_cmp i.kind) σ v w ro rk p q ty (
                      eval_binary_swap i.kind i.ty (types v) (types w) (σ.vals v) (σ.vals w) rel
                        ty),
                  next_of_binary (hlir_swap_cmp i.kind) _ σ.vals rk
                      ∙ sym (next_of_binary i.kind i σ.vals ro),
                )
        ]
    | inr no_ ↦ rw no_ (refl, refl)
  ]

  -- Every round keeps the step, the jump and the truth of what is known.
  pub fold_insn-Keeps :
      (env : HlirEnv) (i : HlirInsn) (seen : List ℕ) (σ : State W)
      → Knows env σ seen
      → is_admissible types seen i ≡ true
      → Keeps effect types (fold_insn env i).0 i (fold_insn env i).1 (seen_after seen i) σ
  unfolding fold_insn is_admissible role
  fold_insn-Keeps env i seen σ k a = elim (Bool-cases (hlir_is_bb_barrier i.kind)) [
    | inl b ↦ rw b (barrier-Keeps effect types env i σ)
    | inr b ↦
        let typed : typed_role (role i.kind) types i ≡ true = ground arith in
        let small : i.imm < 2 ^ 64 = ltb→lt i.imm (2 ^ 64) (ground arith) in
        let fresh : fresh_dst i.dst (uses i ++ seen) ≡ true = ground arith in
        elim (Bool-cases (is_iconst i.kind && is_some i.dst)) [
          | inl c ↦
              let kind = iconst_kind i.kind (ground arith) in
              let exact : not (is_float types i) ≡ true = rw (kind, role) at typed in
              rw (b, c) (iconst-Keeps effect types env i seen σ k fresh kind (ground arith) small)
          | inr c ↦ elim (Option-cases (folded_binary env i)) [
            | inr (r, e) ↦
                rw (b, c, e)
                  (folded-Keeps effect types env i seen σ r k fresh
                    (folded_binary-FoldsTo types env σ seen k i r typed e))
            | inl e ↦ elim (Option-cases (folded_unary env i)) [
              | inr (r, f) ↦
                  rw (b, c, e, f)
                    (folded-Keeps effect types env i seen σ r k fresh
                      (folded_unary-FoldsTo types env σ seen k i r typed f))
              | inl f ↦
                  let (same, jumps) = canonicalize-same env i σ typed in
                  rw (b, c, e, f)
                    (record {
                      same = inr same;
                      jumps = jumps;
                      knows = λ σ' run. Knows-after effect types env i σ σ' seen k fresh run;
                    })
            ]
          ]
        ]
  ]
