-- ===== src/Hlir/Run.antt =====
-- ir/hlir.h: the machine one instruction at a time.
use chibicc.Common.{
  ℕ, zero, suc, ◌≡◌, ◌⊎◌, ◌∙◌, sym, inl, inr, refl, Option-cases, Option, none, some, List, [], ◌∷◌,
}
use chibicc.Hlir.{HlirInsn}
use chibicc.Hlir.Machine.{
  Types, State, Effect, exec, next_of, Next, next, stuck, goto, stop, run, find_label, Outcome,
  undefined, out_of_fuel, returned, Refines,
}

module _ {W : Type 0} (effect : Effect W) (types : Types) (prog : List HlirInsn) where
  pub run-nil : (fuel : ℕ) (σ : State W) → run effect types fuel prog [] σ ≡ returned none σ.world
  unfolding run
  run-nil zero σ = refl
  run-nil (suc fuel) σ = refl

  pub run-undefined :
      (fuel : ℕ) (i : HlirInsn) (is : List HlirInsn) (σ : State W)
      → exec effect types i σ ≡ none
      → run effect types fuel prog (i ∷ is) σ ≡ undefined
  unfolding run
  run-undefined zero i is σ e = rw (e, run)
  run-undefined (suc fuel) i is σ e = rw (e, run)

  module _ (i : HlirInsn) (is : List HlirInsn) (σ τ : State W)
      (e : exec effect types i σ ≡ some τ) where
    pub run-next :
        (fuel : ℕ)
        → next_of i.kind i σ.vals ≡ next
        → run effect types fuel prog (i ∷ is) σ ≡ run effect types fuel prog is τ
    unfolding run
    run-next zero n = rw (e, run, n)
    run-next (suc fuel) n = rw (e, run, n)

    pub run-stuck :
        (fuel : ℕ)
        → next_of i.kind i σ.vals ≡ stuck
        → run effect types fuel prog (i ∷ is) σ ≡ undefined
    unfolding run
    run-stuck zero n = rw (e, run, n)
    run-stuck (suc fuel) n = rw (e, run, n)

    pub run-stop :
        (fuel : ℕ) (r : Option ℕ)
        → next_of i.kind i σ.vals ≡ stop r
        → run effect types fuel prog (i ∷ is) σ ≡ returned r τ.world
    unfolding run
    run-stop zero r n = rw (e, run, n)
    run-stop (suc fuel) r n = rw (e, run, n)

    pub run-goto_zero :
        (l : ℕ)
        → next_of i.kind i σ.vals ≡ goto l
        → run effect types 0 prog (i ∷ is) σ ≡ out_of_fuel
    unfolding run
    run-goto_zero l n = rw (e, run, n)

    pub run-goto_none :
        (fuel l : ℕ)
        → next_of i.kind i σ.vals ≡ goto l
        → find_label l prog ≡ none
        → run effect types (suc fuel) prog (i ∷ is) σ ≡ undefined
    unfolding run
    run-goto_none fuel l n f = rw (e, run, n, f)

    pub run-goto_some :
        (fuel l : ℕ) (rest : List HlirInsn)
        → next_of i.kind i σ.vals ≡ goto l
        → find_label l prog ≡ some rest
        → run effect types (suc fuel) prog (i ∷ is) σ ≡ run effect types fuel prog rest τ
    unfolding run
    run-goto_some fuel l rest n f = rw (e, run, n, f)

-- Where an instruction leads, with the equation.
pub Next-cases :
    (n : Next)
    → (n ≡ next) ⊎ (n ≡ stuck) ⊎ ((l : ℕ) × (n ≡ goto l)) ⊎ ((r : Option ℕ) × (n ≡ stop r))
Next-cases next = inl refl
Next-cases stuck = inr (inl refl)
Next-cases (goto l) = inr (inr (inl (l, refl)))
Next-cases (stop r) = inr (inr (inr (r, refl)))

-- The outcomes of two runs that are equal step by step, up to what C leaves undefined.
pub Refines-of_equal :
    {W : Type 0} {o o' p p' : Outcome W} → o ≡ p → o' ≡ p' → Refines p p' → Refines o o'
Refines-of_equal a b (inl u) = inl (a ∙ u)
Refines-of_equal a b (inr e) = inr (a ∙ e ∙ sym b)

-- Two instructions that do the same, wherever the first is defined, and lead the same way: the rest
-- and the target of a jump remain to be compared.
module _ {W : Type 0} (effect : Effect W) (types : Types) (prog prog' : List HlirInsn)
    (i i' : HlirInsn) (is is' : List HlirInsn) (σ : State W) (fuel : ℕ)
    (same : (exec effect types i σ ≡ none) ⊎ (exec effect types i' σ ≡ exec effect types i σ))
    (jumps : next_of i'.kind i' σ.vals ≡ next_of i.kind i σ.vals) where
  abbrev Compared : Type 0
  Compared =
      Refines (run effect types fuel prog (i ∷ is) σ) (run effect types fuel prog' (i' ∷ is') σ)

  pub step-Refines :
      ((τ : State W)
        → exec effect types i σ ≡ some τ
        → Refines (run effect types fuel prog is τ) (run effect types fuel prog' is' τ))
      → ((τ : State W) (l : ℕ)
          → exec effect types i σ ≡ some τ
          → exec effect types i' σ ≡ some τ
          → next_of i.kind i σ.vals ≡ goto l
          → next_of i'.kind i' σ.vals ≡ goto l
          → Compared)
      → Compared
  step-Refines rest jump = elim (Option-cases (exec effect types i σ)) [
    | inl u ↦ inl (run-undefined effect types prog fuel i is σ u)
    | inr (τ, e) ↦ elim same [
      | inl u ↦ inl (run-undefined effect types prog fuel i is σ u)
      | inr s ↦ elim (Next-cases (next_of i.kind i σ.vals)) [
        | inl n ↦
            Refines-of_equal (run-next effect types prog i is σ τ e fuel n)
              (run-next effect types prog' i' is' σ τ (s ∙ e) fuel (jumps ∙ n)) (rest τ e)
        | inr (inl n) ↦ inl (run-stuck effect types prog i is σ τ e fuel n)
        | inr (inr (inl (l, n))) ↦ jump τ l e (s ∙ e) n (jumps ∙ n)
        | inr (inr (inr (r, n))) ↦ inr (
            run-stop effect types prog i is σ τ e fuel r n
            ∙ sym (run-stop effect types prog' i' is' σ τ (s ∙ e) fuel r (jumps ∙ n)))
      ]
    ]
  ]
