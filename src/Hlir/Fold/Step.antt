-- ===== src/Hlir/Fold/Step.antt =====
-- ir/hlir_opt_fold.c: one round of the pass keeps what the instruction does, and what is known.
use mathlib.Core.Logic.{◌≢◌}
use chibicc.Common.{
  ℕ, ◌^◌, ◌<◌, ◌≡◌, ◌⊎◌, inl, inr, refl, sym, ap, ◌∙◌, arith, Bool, true, false, not, ◌||◌, Option,
  none, some, List, [], ◌++◌,
}
use mathlib.Core.Path.{subst}
use chibicc.Types.{is_flonum}
use chibicc.Hlir.{
  HlirKind, HlirInsn, present, uses, hlir_is_commutative, hlir_is_relational, hlir_swap_cmp,
  hlir_set_iconst,
}
use chibicc.Hlir.Env.{HlirEnv, hlir_env_set_const, hlir_env_reset}
use chibicc.Hlir.Machine.{
  Role, role, Types, is_float, State, Effect, exec, exec_role, assign, assign_result, compute,
  compute_binary, eval_binary, next_of, next, flonum_type,
}
use chibicc.Hlir.Frame.{mem, exec-frame}
use chibicc.Hlir.Fold.Eval.{typed_binary}
use chibicc.Hlir.Fold.FoldsTo.{FoldsTo, fresh-other}
use chibicc.Hlir.Fold.Admissible.{fresh_dst, Knows, typed_binary-exact}

or_false : (b : Bool) → not b ≡ true → (b || false) ≡ false
or_false b h = ground arith

pub some_inj {ℓ} : {A : Type ℓ} {a b : A} → some a ≡ some b → a ≡ b
some_inj h = cc

pub none≢some {ℓ} : {A : Type ℓ} {a : A} → none ≢ some a
none≢some h = cc

pub next_of_binary :
    (k : HlirKind) (i : HlirInsn) (vals : ℕ → ℕ) → role k ≡ Role.binary → next_of k i vals ≡ next
unfolding role next_of
next_of_binary HlirKind.jmp i vals h = cc
next_of_binary HlirKind.jmp_if_zero i vals h = cc
next_of_binary HlirKind.jmp_if_nz i vals h = cc
next_of_binary HlirKind.ret i vals h = cc
next_of_binary _ i vals h = refl

next_of_unary :
    (k : HlirKind) (i : HlirInsn) (vals : ℕ → ℕ) → role k ≡ Role.unary → next_of k i vals ≡ next
unfolding role next_of
next_of_unary HlirKind.jmp i vals h = cc
next_of_unary HlirKind.jmp_if_zero i vals h = cc
next_of_unary HlirKind.jmp_if_nz i vals h = cc
next_of_unary HlirKind.ret i vals h = cc
next_of_unary _ i vals h = refl

pub role_of_commutative : (k : HlirKind) → hlir_is_commutative k ≡ true → role k ≡ Role.binary
unfolding hlir_is_commutative role
role_of_commutative HlirKind.add h = refl
role_of_commutative HlirKind.mul h = refl
role_of_commutative HlirKind.bitand h = refl
role_of_commutative HlirKind.bitor h = refl
role_of_commutative HlirKind.bitxor h = refl
role_of_commutative HlirKind.cmp_eq h = refl
role_of_commutative HlirKind.cmp_ne h = refl
role_of_commutative _ h = cc

pub role_of_relational :
    (k : HlirKind)
    → hlir_is_relational k ≡ true
    → (role k ≡ Role.binary) × (role (hlir_swap_cmp k) ≡ Role.binary)
unfolding hlir_is_relational role hlir_swap_cmp
role_of_relational HlirKind.cmp_eq h = (refl, refl)
role_of_relational HlirKind.cmp_ne h = (refl, refl)
role_of_relational HlirKind.cmp_lt h = (refl, refl)
role_of_relational HlirKind.cmp_le h = (refl, refl)
role_of_relational HlirKind.cmp_gt h = (refl, refl)
role_of_relational HlirKind.cmp_ge h = (refl, refl)
role_of_relational _ h = cc

module _ {W : Type 0} (effect : Effect W) (types : Types) where
  -- What is known stays known over an instruction that defines a value not met before.
  pub Knows-after :
      (env : HlirEnv) (i : HlirInsn) (σ σ' : State W) (seen : List ℕ)
      → Knows env σ seen
      → fresh_dst i.dst (uses i ++ seen) ≡ true
      → exec effect types i σ ≡ some σ'
      → Knows env σ' (present i.dst ++ (uses i ++ seen))
  Knows-after env i σ σ' seen k f e v c h =
      let old = k v c h in
      let (away, there) = fresh-other v i.dst seen (uses i) f old.0 in
      (there, exec-frame effect types i σ σ' v e away ∙ old.1, old.2)

  -- A constant that the value has is added to what is known.
  Knows-set :
      (env : HlirEnv) (dst : Option ℕ) (r : ℕ) (σ : State W) (seen : List ℕ)
      → Knows env (assign dst r σ) (present dst ++ seen)
      → r < 2 ^ 64
      → Knows (hlir_env_set_const env dst r) (assign dst r σ) (present dst ++ seen)
  unfolding mem
  Knows-set env none r σ seen k l v c h = k v c h
  Knows-set env (some d) r σ seen k l v c h = ground (arith, k v c)

  exec-FoldsTo :
      (i : HlirInsn) (σ : State W) (r : ℕ)
      → FoldsTo types σ i r
      → ((exec effect types i σ ≡ none) ⊎ (exec effect types i σ ≡ some (assign i.dst r σ)))
        × (r < 2 ^ 64)
  unfolding exec exec_role
  exec-FoldsTo i σ r (float, exact, inl (ro, (inl undefined, l))) =
      (inl (rw (ro, float, undefined)), l)
  exec-FoldsTo i σ r (float, exact, inl (ro, (inr value, l))) = (inr (rw (ro, float, value)), l)
  exec-FoldsTo i σ r (float, exact, inr (ro, (inl undefined, l))) =
      (inl (rw (ro, float, undefined)), l)
  exec-FoldsTo i σ r (float, exact, inr (ro, (inr value, l))) = (inr (rw (ro, float, value)), l)

  exec-iconst :
      (i : HlirInsn) (σ : State W)
      → i.kind ≡ HlirKind.iconst
      → is_float types i ≡ false
      → exec effect types i σ ≡ some (assign i.dst i.imm σ)
  unfolding exec exec_role role compute
  exec-iconst i σ k x = rw (x, k)

  next_of-FoldsTo :
      (i : HlirInsn) (vals : ℕ → ℕ) (σ : State W) (r : ℕ)
      → FoldsTo types σ i r
      → next_of i.kind i vals ≡ next
  next_of-FoldsTo i vals σ r (float, exact, inl (ro, a)) = next_of_binary i.kind i vals ro
  next_of-FoldsTo i vals σ r (float, exact, inr (ro, a)) = next_of_unary i.kind i vals ro

  -- What a round owes: the same step wherever C defines it, the same jump, and what is known after.
  pub record Keeps (env : HlirEnv) (i i' : HlirInsn) (seen : List ℕ) (σ : State W) : Type 0 where
    pub same : (exec effect types i σ ≡ none) ⊎ (exec effect types i' σ ≡ exec effect types i σ)
    pub jumps : next_of i'.kind i' σ.vals ≡ next_of i.kind i σ.vals
    pub knows : (σ' : State W) → exec effect types i σ ≡ some σ' → Knows env σ' seen

  pub folded-Keeps :
      (env : HlirEnv) (i : HlirInsn) (seen : List ℕ) (σ : State W) (r : ℕ)
      → Knows env σ seen
      → fresh_dst i.dst (uses i ++ seen) ≡ true
      → FoldsTo types σ i r
      → Keeps
          (hlir_env_set_const env i.dst r)
          i
          (hlir_set_iconst i r)
          (present i.dst ++ (uses i ++ seen))
          σ
  unfolding is_flonum next_of
  folded-Keeps env i seen σ r k f t =
      let (runs, l) = exec-FoldsTo i σ r t in
      let x : is_float types (hlir_set_iconst i r) ≡ false = or_false (flonum_type i.ty) t.1 in
      let c = exec-iconst (hlir_set_iconst i r) σ refl x in
      record {
        same = elim runs [ inl u ↦ inl u | inr v ↦ inr (c ∙ sym v) ];
        jumps = sym (next_of-FoldsTo i σ.vals σ r t);
        knows = λ σ' e. elim runs [
          | inl u ↦ absurd (none≢some (sym u ∙ e))
          | inr v ↦
              subst
                (λ s. Knows (hlir_env_set_const env i.dst r) s (present i.dst ++ (uses i ++ seen)))
                (some_inj (sym v ∙ e))
                (Knows-set env i.dst r σ (uses i ++ seen) (Knows-after env i σ _ seen k f v) l)
        ];
      }

  pub iconst-Keeps :
      (env : HlirEnv) (i : HlirInsn) (seen : List ℕ) (σ : State W)
      → Knows env σ seen
      → fresh_dst i.dst (uses i ++ seen) ≡ true
      → i.kind ≡ HlirKind.iconst
      → is_float types i ≡ false
      → i.imm < 2 ^ 64
      → Keeps (hlir_env_set_const env i.dst i.imm) i i (present i.dst ++ (uses i ++ seen)) σ
  iconst-Keeps env i seen σ k f ki x l =
      let v = exec-iconst i σ ki x in
      record {
        same = inr refl;
        jumps = refl;
        knows = λ σ' e.
            subst
              (λ s.
                Knows (hlir_env_set_const env i.dst i.imm) s (present i.dst ++ (uses i ++ seen)))
              (some_inj (sym v ∙ e))
              (Knows-set env i.dst i.imm σ (uses i ++ seen) (Knows-after env i σ _ seen k f v) l);
      }

  pub barrier-Keeps :
      (env : HlirEnv) (i : HlirInsn) (σ : State W) → Keeps (hlir_env_reset env) i i [] σ
  barrier-Keeps env i σ = record {
    same = inr refl;
    jumps = refl;
    knows = λ σ' e v c h. absurd (none≢some h);
  }

  exec-binary :
      (i : HlirInsn) (σ : State W) (v w : ℕ)
      → role i.kind ≡ Role.binary
      → is_float types i ≡ false
      → i.src1 ≡ some v
      → i.src2 ≡ some w
      → exec effect types i σ
        ≡ assign_result i.dst (eval_binary i.kind i.ty (types v) (σ.vals v) (σ.vals w)) σ
  unfolding exec exec_role compute compute_binary
  exec-binary i σ v w ro x p q = rw (ro, x) (rw (p, q))

  -- Exchanging the operands of an operator that allows it keeps the step.
  pub exchange-exec :
      (i : HlirInsn) (k : HlirKind) (σ : State W) (v w : ℕ)
      → role i.kind ≡ Role.binary
      → role k ≡ Role.binary
      → i.src1 ≡ some v
      → i.src2 ≡ some w
      → typed_binary i.kind i.ty (types v) (types w) ≡ true
      → eval_binary k i.ty (types w) (σ.vals w) (σ.vals v)
        ≡ eval_binary i.kind i.ty (types v) (σ.vals v) (σ.vals w)
      → exec effect types (record i { kind = k; src1 = i.src2; src2 = i.src1 }) σ
        ≡ exec effect types i σ
  unfolding is_flonum
  exchange-exec i k σ v w ro rk p q t e =
      let x = typed_binary-exact i.kind i.ty (types v) (types w) t in
      exec-binary (record i { kind = k; src1 = i.src2; src2 = i.src1 }) σ w v rk
        (rw q (ground (arith, x))) q p
      ∙ ap (λ r. assign_result i.dst r σ) e
      ∙ sym (exec-binary i σ v w ro (rw p (ground (arith, x))) p q)
