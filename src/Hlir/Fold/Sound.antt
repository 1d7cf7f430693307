-- ===== src/Hlir/Fold/Sound.antt =====
-- ir/hlir_opt_fold.c: constant folding and the meaning of a function, at the types for which the pass
-- is right.
use chibicc.Common.{
  ℕ, zero, suc, ◌≡◌, inl, inr, refl, sym, ap, ◌∙◌, arith, true, false, ◌&&◌, Option, none, some,
  List, [], ◌∷◌, Bool-cases, Option-cases, length, ◌==◌,
}
use chibicc.Hlir.{HlirInsn, HlirFunction, hlir_is_bb_barrier}
use chibicc.Hlir.Env.{HlirEnv, hlir_env_init, hlir_env_reset, hlir_env_set_const}
use chibicc.Hlir.Machine.{Types, types_of, State, Effect, run, Refines, find_label, is_label}
use chibicc.Hlir.Run.{
  run-goto_zero, run-goto_none, run-goto_some, run-nil, step-Refines, Refines-of_equal,
}
use chibicc.Hlir.Fold.{
  or_fold, fold_insn, fold_insns, hlir_opt_const_fold, folded_binary, folded_unary, canonicalize,
  is_iconst, is_some,
}
use chibicc.Hlir.Fold.Admissible.{seen_after, are_admissible, Knows}
use chibicc.Hlir.Fold.Step.{some_inj, none≢some}
use mathlib.Core.Path.{subst}
use chibicc.Hlir.Fold.Round.{fold_insn-is_label, fold_insn-Keeps, label_is_barrier}

label_barrier : (i : HlirInsn) (l : ℕ) → is_label l i ≡ true → hlir_is_bb_barrier i.kind ≡ true
label_barrier i l h = elim (Bool-cases (hlir_is_bb_barrier i.kind)) [
  | inl b ↦ b
  | inr b ↦ absurd (ground (arith, label_is_barrier i.kind))
]

set_const-reset :
    (env : HlirEnv) (dst : Option ℕ) (r : ℕ)
    → hlir_env_reset (hlir_env_set_const env dst r) ≡ hlir_env_reset env
set_const-reset env none r = refl
set_const-reset env (some d) r = refl

or_fold-reset :
    (env : HlirEnv) (i : HlirInsn) (o : Option ℕ) (p : HlirEnv × HlirInsn)
    → hlir_env_reset p.0 ≡ hlir_env_reset env
    → hlir_env_reset (or_fold env i o p).0 ≡ hlir_env_reset env
or_fold-reset env i none p h = h
or_fold-reset env i (some r) p h = set_const-reset env i.dst r

-- The size of the table does not change.
fold_insn-reset :
    (env : HlirEnv) (i : HlirInsn) → hlir_env_reset (fold_insn env i).0 ≡ hlir_env_reset env
unfolding fold_insn
fold_insn-reset env i = elim (Bool-cases (hlir_is_bb_barrier i.kind)) [
  | inl b ↦ rw b
  | inr b ↦ elim (Bool-cases (is_iconst i.kind && is_some i.dst)) [
    | inl c ↦ rw (b, c) (set_const-reset env i.dst i.imm)
    | inr c ↦
        rw (b, c)
          (or_fold-reset env i (folded_binary env i) _
            (or_fold-reset env i (folded_unary env i) (env, canonicalize env i) refl))
  ]
]

-- At a label the pass starts afresh, whatever stood before.
fold_insn-at_label :
    (env : HlirEnv) (i : HlirInsn) (l : ℕ)
    → is_label l i ≡ true
    → fold_insn env i ≡ (hlir_env_reset env, i)
unfolding fold_insn
fold_insn-at_label env i l h = rw (label_barrier i l h)

find_label-fold_insns :
    (env : HlirEnv) (l : ℕ) (prog rest : List HlirInsn)
    → find_label l prog ≡ some rest
    → find_label l (fold_insns env prog) ≡ some (fold_insns (hlir_env_reset env) rest)
unfolding find_label fold_insns
find_label-fold_insns env l [] rest e = cc
find_label-fold_insns env l (i ∷ is) rest e = elim (Bool-cases (is_label l i)) [
  | inl h ↦
      let q : i ∷ is ≡ rest = some_inj (rw h at e) in
      subst (λ r. find_label l (fold_insns env (i ∷ is)) ≡ some (fold_insns (hlir_env_reset env) r))
        q
        (rw (fold_insn-is_label env i l, h)
          (rw (fold_insn-at_label env i l h, fold_insn-at_label (hlir_env_reset env) i l h)))
  | inr h ↦
      rw (fold_insn-is_label env i l, h)
        (find_label-fold_insns (fold_insn env i).0 l is rest (rw h at e)
          ∙ ap (λ x. some (fold_insns x rest)) (fold_insn-reset env i))
]

find_label-fold_insns-none :
    (env : HlirEnv) (l : ℕ) (prog : List HlirInsn)
    → find_label l prog ≡ none
    → find_label l (fold_insns env prog) ≡ none
unfolding find_label fold_insns
find_label-fold_insns-none env l [] e = refl
find_label-fold_insns-none env l (i ∷ is) e = elim (Bool-cases (is_label l i)) [
  | inl h ↦ absurd (ground arith)
  | inr h ↦
      rw (fold_insn-is_label env i l, h)
        (find_label-fold_insns-none (fold_insn env i).0 l is (rw h at e))
]

admissible-at_barrier :
    (types : Types) (seen : List ℕ) (i : HlirInsn) (is : List HlirInsn)
    → hlir_is_bb_barrier i.kind ≡ true
    → are_admissible types seen (i ∷ is) ≡ true
    → are_admissible types [] (i ∷ is) ≡ true
unfolding are_admissible
admissible-at_barrier types seen i is b a = rw b (rw b at a)

admissible-find_label :
    (types : Types) (l : ℕ) (seen : List ℕ) (prog rest : List HlirInsn)
    → are_admissible types seen prog ≡ true
    → find_label l prog ≡ some rest
    → are_admissible types [] rest ≡ true
unfolding find_label are_admissible
admissible-find_label types l seen [] rest a e = cc
admissible-find_label types l seen (i ∷ is) rest a e = elim (Bool-cases (is_label l i)) [
  | inl h ↦
      let q : i ∷ is ≡ rest = some_inj (rw h at e) in
      subst (λ r. are_admissible types [] r ≡ true) q
        (admissible-at_barrier types seen i is (label_barrier i l h) a)
  | inr h ↦ admissible-find_label types l (seen_after seen i) is rest (ground arith) (rw h at e)
]

module _ {W : Type 0} (effect : Effect W) (types : Types) (prog : List HlirInsn) (env₀ : HlirEnv)
    (admissible : are_admissible types [] prog ≡ true) where
  abbrev after : List HlirInsn
  after = fold_insns env₀ prog

  -- Whatever is known on the way, the folded rest does what the rest does.
  run-fold_insns :
      (fuel : ℕ) (code : List HlirInsn) (env : HlirEnv) (σ : State W) (seen : List ℕ)
      → hlir_env_reset env ≡ hlir_env_reset env₀
      → Knows env σ seen
      → are_admissible types seen code ≡ true
      → Refines
          (run effect types fuel prog code σ)
          (run effect types fuel after (fold_insns env code) σ)
  unfolding fold_insns are_admissible
  run-fold_insns fuel [] env σ seen z k a =
      inr (run-nil effect types prog fuel σ ∙ sym (run-nil effect types after fuel σ))
  run-fold_insns zero (i ∷ is) env σ seen z k a =
      let t = fold_insn-Keeps effect types env i seen σ k (ground arith) in
      step-Refines effect types prog after i (fold_insn env i).1 is _ σ 0 t.same t.jumps
        (λ τ e.
          run-fold_insns zero is (fold_insn env i).0 τ (seen_after seen i)
            (fold_insn-reset env i ∙ z) (t.knows τ e) (ground arith))
        (λ τ l e e' n n'. inr (
          run-goto_zero effect types prog i is σ τ e l n
          ∙ sym (run-goto_zero effect types after (fold_insn env i).1 _ σ τ e' l n')))
  run-fold_insns (suc fuel) (i ∷ is) env σ seen z k a =
      let t = fold_insn-Keeps effect types env i seen σ k (ground arith) in
      step-Refines effect types prog after i (fold_insn env i).1 is _ σ (suc fuel) t.same t.jumps
        (λ τ e.
          run-fold_insns (suc fuel) is (fold_insn env i).0 τ (seen_after seen i)
            (fold_insn-reset env i ∙ z) (t.knows τ e) (ground arith))
        (λ τ l e e' n n'. elim (Option-cases (find_label l prog)) [
          | inl f ↦ inl (run-goto_none effect types prog i is σ τ e fuel l n f)
          | inr (rest, f) ↦
              Refines-of_equal (run-goto_some effect types prog i is σ τ e fuel l rest n f)
                (run-goto_some effect types after (fold_insn env i).1 _ σ τ e' fuel l _ n'
                  (find_label-fold_insns env₀ l prog rest f))
                (run-fold_insns fuel rest (hlir_env_reset env₀) τ [] refl
                  (λ v c h. absurd (none≢some h))
                  (admissible-find_label types l [] prog rest admissible f))
        ])

-- The function that the pass leaves does what the given one does, wherever C defines that, from every
-- state, in every world, and with the same number of jumps: if a block defines a value once and
-- before its uses, if constants are 64-bit words, and if arithmetic is on 8-byte integers, signed
-- where the sign matters, comparisons are of signed integers, and casts are to integers other than
-- `_Bool`.
pub hlir_opt_const_fold-Refines :
    {W : Type 0} (effect : Effect W) (fn : HlirFunction) (fuel : ℕ) (σ : State W)
    → are_admissible (types_of fn.vals) [] fn.insns ≡ true
    → let fn' = (hlir_opt_const_fold fn).0 in
      Refines
        (run effect (types_of fn.vals) fuel fn.insns fn.insns σ)
        (run effect (types_of fn'.vals) fuel fn'.insns fn'.insns σ)
unfolding hlir_opt_const_fold
hlir_opt_const_fold-Refines effect fn fuel σ a = elim (Bool-cases (length fn.vals == 0)) [
  | inl z ↦ rw z (inr refl)
  | inr z ↦ rw z (
      run-fold_insns effect (types_of fn.vals) fn.insns (hlir_env_init (length fn.vals) false) a
        fuel fn.insns _ σ [] refl (λ v c h. absurd (none≢some h)) a)
]
