-- ===== src/Hlir/DeadCode/Unreachable.antt =====
-- ir/hlir_opt_dce.c: a function runs as before without its unreachable instructions.
use chibicc.Common.{
  ℕ, zero, suc, ◌≡◌, ◌∙◌, sym, inl, inr, refl, arith, Bool, true, false, none, some, List, [], ◌∷◌,
  Option-cases,
}
use chibicc.Hlir.{HlirKind, HlirInsn, HlirFunction}
use chibicc.Hlir.Machine.{
  Types, types_of, State, Effect, exec, next_of, next, goto, run, find_label,
}
use chibicc.Hlir.Run.{
  run-nil, run-undefined, run-next, run-stuck, run-stop, run-goto_zero, run-goto_none,
  run-goto_some, Next-cases,
}
use chibicc.Hlir.DeadCode.{
  leaves_block, remove_unreachable, removes_unreachable, hlir_opt_dead_code,
}

find_label-remove_unreachable :
    (l : ℕ) (dead : Bool) (is rest : List HlirInsn)
    → find_label l is ≡ some rest
    → find_label l (remove_unreachable dead is) ≡ some (remove_unreachable false rest)
unfolding find_label remove_unreachable
find_label-remove_unreachable l dead [] rest e = cc
find_label-remove_unreachable l dead (i ∷ is) rest e = ground (
  arith,
  find_label-remove_unreachable l true is rest,
  find_label-remove_unreachable l (leaves_block i.kind) is rest,
)

find_label-remove_unreachable-none :
    (l : ℕ) (dead : Bool) (is : List HlirInsn)
    → find_label l is ≡ none
    → find_label l (remove_unreachable dead is) ≡ none
unfolding find_label remove_unreachable
find_label-remove_unreachable-none l dead [] e = refl
find_label-remove_unreachable-none l dead (i ∷ is) e = ground (
  arith,
  find_label-remove_unreachable-none l true is,
  find_label-remove_unreachable-none l (leaves_block i.kind) is,
)

-- A jump and a return go elsewhere.
next_of-leaves_block :
    (k : HlirKind) (i : HlirInsn) (vals : ℕ → ℕ) → next_of k i vals ≡ next → leaves_block k ≡ false
unfolding next_of
next_of-leaves_block HlirKind.jmp i vals e = ground arith
next_of-leaves_block HlirKind.ret i vals e = ground arith
next_of-leaves_block _ i vals e = refl

module _ {W : Type 0} (effect : Effect W) (types : Types) (prog : List HlirInsn) where
  abbrev prog' : List HlirInsn
  prog' = remove_unreachable false prog

  -- Where a run takes both functions from an instruction, given where a jump takes them.
  run-kept :
      (fuel : ℕ) (i : HlirInsn) (is : List HlirInsn) (σ : State W)
      → ((τ : State W)
          → run effect types fuel prog' (remove_unreachable false is) τ
            ≡ run effect types fuel prog is τ)
      → ((τ : State W) (l : ℕ)
          → exec effect types i σ ≡ some τ
          → next_of i.kind i σ.vals ≡ goto l
          → run effect types fuel prog' (remove_unreachable false (i ∷ is)) σ
            ≡ run effect types fuel prog (i ∷ is) σ)
      → run effect types fuel prog' (remove_unreachable false (i ∷ is)) σ
        ≡ run effect types fuel prog (i ∷ is) σ
  unfolding remove_unreachable
  run-kept fuel i is σ rest jump = elim (Option-cases (exec effect types i σ)) [
    | inl u ↦
        run-undefined effect types prog' fuel i (remove_unreachable (leaves_block i.kind) is) σ u
        ∙ sym (run-undefined effect types prog fuel i is σ u)
    | inr (τ, e) ↦ elim (Next-cases (next_of i.kind i σ.vals)) [
      | inl n ↦ rw (next_of-leaves_block i.kind i σ.vals n) (
          run-next effect types prog' i (remove_unreachable false is) σ τ e fuel n
          ∙ rest τ
          ∙ sym (run-next effect types prog i is σ τ e fuel n))
      | inr (inl n) ↦
          run-stuck effect types prog' i (remove_unreachable (leaves_block i.kind) is) σ τ e fuel n
          ∙ sym (run-stuck effect types prog i is σ τ e fuel n)
      | inr (inr (inl (l, n))) ↦ jump τ l e n
      | inr (inr (inr (r, n))) ↦
          run-stop effect types prog' i (remove_unreachable (leaves_block i.kind) is) σ τ e fuel r n
          ∙ sym (run-stop effect types prog i is σ τ e fuel r n)
    ]
  ]

  run-remove_unreachable :
      (fuel : ℕ) (is : List HlirInsn) (σ : State W)
      → run effect types fuel prog' (remove_unreachable false is) σ
        ≡ run effect types fuel prog is σ
  unfolding remove_unreachable
  run-remove_unreachable fuel [] σ =
      run-nil effect types prog' fuel σ ∙ sym (run-nil effect types prog fuel σ)
  run-remove_unreachable zero (i ∷ is) σ =
      run-kept zero i is σ (λ τ. run-remove_unreachable zero is τ)
        (λ τ l e n.
          run-goto_zero effect types prog' i (remove_unreachable (leaves_block i.kind) is) σ τ e l n
          ∙ sym (run-goto_zero effect types prog i is σ τ e l n))
  run-remove_unreachable (suc fuel) (i ∷ is) σ =
      run-kept (suc fuel) i is σ (λ τ. run-remove_unreachable (suc fuel) is τ)
        (λ τ l e n. elim (Option-cases (find_label l prog)) [
          | inl f ↦
              run-goto_none effect types prog' i (remove_unreachable (leaves_block i.kind) is) σ τ e
                fuel l n (find_label-remove_unreachable-none l false prog f)
              ∙ sym (run-goto_none effect types prog i is σ τ e fuel l n f)
          | inr (rest, f) ↦
              run-goto_some effect types prog' i (remove_unreachable (leaves_block i.kind) is) σ τ e
                fuel l (remove_unreachable false rest) n
                (find_label-remove_unreachable l false prog rest f)
              ∙ run-remove_unreachable fuel rest τ
              ∙ sym (run-goto_some effect types prog i is σ τ e fuel l rest n f)
        ])

-- The function that the pass leaves runs exactly as the given one does, in every world, from every
-- state and with every amount of fuel, also where the run is undefined.
pub hlir_opt_dead_code-run :
    {W : Type 0} (effect : Effect W) (fn : HlirFunction) (fuel : ℕ) (σ : State W)
    → let fn' = (hlir_opt_dead_code fn).0 in
      run effect (types_of fn'.vals) fuel fn'.insns fn'.insns σ
      ≡ run effect (types_of fn.vals) fuel fn.insns fn.insns σ
unfolding hlir_opt_dead_code
hlir_opt_dead_code-run effect fn fuel σ =
    run-remove_unreachable effect (types_of fn.vals) fn.insns fuel fn.insns σ

remove_unreachable-again :
    (dead : Bool) (is : List HlirInsn)
    → removes_unreachable dead (remove_unreachable dead is) ≡ false
unfolding remove_unreachable removes_unreachable
remove_unreachable-again dead [] = refl
remove_unreachable-again dead (i ∷ is) =
    ground
      (arith, remove_unreachable-again true is, remove_unreachable-again (leaves_block i.kind) is)

-- One call removes all that the pass can: a second call on its result reports no change.
pub hlir_opt_dead_code_fixed :
    (fn : HlirFunction) → (hlir_opt_dead_code (hlir_opt_dead_code fn).0).1 ≡ false
unfolding hlir_opt_dead_code
hlir_opt_dead_code_fixed fn = remove_unreachable-again false fn.insns
