-- ===== src/Hlir/Fold/FoldsTo.antt =====
-- ir/hlir_opt_fold.c: a folded instruction is integer arithmetic whose value is the constant.
use chibicc.Common.{
  ℕ, ◌^◌, ◌<◌, ◌≡◌, ◌⊎◌, inl, inr, refl, arith, true, false, Option, none, some, List, ◌++◌,
}
use chibicc.Hlir.{HlirInsn, present}
use chibicc.Hlir.Env.{HlirEnv, hlir_env_get_const}
use chibicc.Hlir.Machine.{
  Role, role, Types, is_float, State, compute, compute_binary, compute_unary,
}
use chibicc.Hlir.Frame.{mem, mem-append}
use chibicc.Hlir.Fold.{hlir_fold_binary, hlir_fold_unary, folded_binary, folded_unary, both, bind}
use chibicc.Hlir.Fold.Eval.{
  typed_binary, typed_unary, is_exact, Agrees, fold_binary-Agrees, fold_unary-Agrees,
}
use chibicc.Hlir.Fold.Admissible.{
  typed_role, fresh_dst, Knows, role_of_binary, role_of_unary, typed_binary-exact,
  typed_unary-exact,
}

-- What a lookup finds is in the table.
get_const-consts :
    (env : HlirEnv) (o : Option ℕ) (c : ℕ)
    → hlir_env_get_const env o ≡ some c
    → (v : ℕ) × (o ≡ some v) × (env.consts v ≡ some c)
get_const-consts env none c e = cc
get_const-consts env (some v) c e = (v, refl, ground arith)

-- The constant that a lookup finds is the word that the value has.
Knows-get :
    {W : Type 0} (env : HlirEnv) (σ : State W) (seen : List ℕ) (o : Option ℕ) (c : ℕ)
    → Knows env σ seen
    → hlir_env_get_const env o ≡ some c
    → (v : ℕ) × (o ≡ some v) × (σ.vals v ≡ c) × (c < 2 ^ 64)
Knows-get env σ seen o c k e =
    let (v, p, q) = get_const-consts env o c e in (v, p, (k v c q).1, (k v c q).2)

both-some :
    (o p : Option ℕ) (f : ℕ → ℕ → Option ℕ) (r : ℕ)
    → both o p f ≡ some r
    → (a : ℕ) × (b : ℕ) × (o ≡ some a) × (p ≡ some b) × (f a b ≡ some r)
both-some none p f r e = cc
both-some (some a) none f r e = cc
both-some (some a) (some b) f r e = (a, b, refl, refl, e)

bind-some :
    (o : Option ℕ) (f : ℕ → Option ℕ) (r : ℕ)
    → bind o f ≡ some r
    → (a : ℕ) × (o ≡ some a) × (f a ≡ some r)
bind-some none f r e = cc
bind-some (some a) f r e = (a, refl, e)

-- An instruction that folds to `r` is integer arithmetic, of value `r` wherever it has one.
abbrev pub FoldsTo : {W : Type 0} → Types → State W → HlirInsn → ℕ → Type 0
FoldsTo types σ i r =
    (is_float types i ≡ false)
    × (is_exact i.ty ≡ true)
    × (((role i.kind ≡ Role.binary) × Agrees (compute types σ.vals i Role.binary) r)
        ⊎ ((role i.kind ≡ Role.unary) × Agrees (compute types σ.vals i Role.unary) r))

module _ {W : Type 0} (types : Types) (env : HlirEnv) (σ : State W) (seen : List ℕ)
    (k : Knows env σ seen) where
  pub folded_binary-FoldsTo :
      (i : HlirInsn) (r : ℕ)
      → typed_role (role i.kind) types i ≡ true
      → folded_binary env i ≡ some r
      → FoldsTo types σ i r
  unfolding folded_binary compute compute_binary
  folded_binary-FoldsTo i r t e =
      let (a, b, p, q, f) =
        both-some (hlir_env_get_const env i.src1) (hlir_env_get_const env i.src2)
          (hlir_fold_binary i.kind) r (ground arith) in
      let (v, pv, va, la) = Knows-get env σ seen i.src1 a k p in
      let (w, pw, wb, lb) = Knows-get env σ seen i.src2 b k q in
      let ro = role_of_binary i.kind a b r f in
      let ty : typed_binary i.kind i.ty (types v) (types w) ≡ true = rw (ro, pv, pw) at t in
      let x = typed_binary-exact i.kind i.ty (types v) (types w) ty in
      (
        rw pv (ground (arith, x)),
        x.0,
        inl (
          ro,
          rw (pv, pw, va, wb) (fold_binary-Agrees i.kind i.ty (types v) (types w) a b r la lb ty f),
        ),
      )

  pub folded_unary-FoldsTo :
      (i : HlirInsn) (r : ℕ)
      → typed_role (role i.kind) types i ≡ true
      → folded_unary env i ≡ some r
      → FoldsTo types σ i r
  unfolding folded_unary compute compute_unary
  folded_unary-FoldsTo i r t e =
      let (a, p, f) =
        bind-some (hlir_env_get_const env i.src1) (hlir_fold_unary i.kind i.ty) r (ground arith) in
      let (v, pv, va, la) = Knows-get env σ seen i.src1 a k p in
      let ro = role_of_unary i.kind i.ty a r f in
      let ty : typed_unary i.kind i.ty (types v) ≡ true = rw (ro, pv) at t in
      let x = typed_unary-exact i.kind i.ty (types v) ty in
      (
        rw pv (ground (arith, x)),
        x.0,
        inr (ro, rw (pv, va) (fold_unary-Agrees i.kind i.ty (types v) a r la ty f)),
      )

pub mem-present :
    (v : ℕ) (dst : Option ℕ) (rest : List ℕ) → dst ≡ some v → mem v (present dst ++ rest) ≡ true
unfolding mem
mem-present v none rest e = cc
mem-present v (some d) rest e = ground arith

pub fresh-other :
    (v : ℕ) (dst : Option ℕ) (seen before : List ℕ)
    → fresh_dst dst (before ++ seen) ≡ true
    → mem v seen ≡ true
    → (mem v (present dst) ≡ false) × (mem v (present dst ++ (before ++ seen)) ≡ true)
unfolding mem
fresh-other v none seen before f m = ground (arith, mem-append v before seen)
fresh-other v (some d) seen before f m =
    ground (arith, mem-append v before seen, mem-append d before seen)
