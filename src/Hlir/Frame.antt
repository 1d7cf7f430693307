-- ===== src/Hlir/Frame.antt =====
-- ir/hlir.h: an instruction changes no value but its destination.
use chibicc.Common.{
  ℕ, ◌≡◌, refl, arith, Bool, true, false, ◌||◌, Option, none, some, List, [], ◌∷◌, ◌++◌, ◌==◌,
}
use chibicc.Hlir.{HlirInsn, present}
use chibicc.Hlir.Machine.{
  Role, role, Types, is_float, State, Effect, exec, exec_role, perform, assign, assign_result,
  assign_effect,
}

unfoldable pub mem : ℕ → List ℕ → Bool
mem v [] = false
mem v (x ∷ xs) = v == x || mem v xs

pub mem-append : (v : ℕ) (xs ys : List ℕ) → mem v (xs ++ ys) ≡ (mem v xs || mem v ys)
unfolding mem
mem-append v [] ys = refl
mem-append v (x ∷ xs) ys = ground (arith, mem-append v xs ys)

module _ {W : Type 0} (dst : Option ℕ) (σ : State W) (v : ℕ)
    (other : mem v (present dst) ≡ false) where
  assign-frame : (r : ℕ) → (assign dst r σ).vals v ≡ σ.vals v
  unfolding mem
  assign-frame r = ground arith

  assign_result-frame :
      (o : Option ℕ) (σ' : State W) → assign_result dst o σ ≡ some σ' → σ'.vals v ≡ σ.vals v
  assign_result-frame none σ' e = cc
  assign_result-frame (some r) σ' e = ground (arith, assign-frame r)

  assign_effect-frame :
      (o : Option (W × ℕ)) (σ' : State W) → assign_effect dst σ o ≡ some σ' → σ'.vals v ≡ σ.vals v
  unfolding mem
  assign_effect-frame none σ' e = cc
  assign_effect-frame (some (w, r)) σ' e = ground arith

module _ {W : Type 0} (effect : Effect W) (types : Types) where
  perform-frame :
      (i : HlirInsn) (σ σ' : State W) (v : ℕ)
      → perform effect types i σ ≡ some σ'
      → mem v (present i.dst) ≡ false
      → σ'.vals v ≡ σ.vals v
  unfolding perform
  perform-frame i σ σ' v e h = assign_effect-frame i.dst σ v h _ σ' e

  exec_role-frame :
      (r : Role) (float : Bool) (i : HlirInsn) (σ σ' : State W) (v : ℕ)
      → exec_role effect types r float i σ ≡ some σ'
      → mem v (present i.dst) ≡ false
      → σ'.vals v ≡ σ.vals v
  unfolding exec_role
  exec_role-frame Role.control float i σ σ' v e h = ground arith
  exec_role-frame Role.other float i σ σ' v e h = perform-frame i σ σ' v e h
  exec_role-frame r true i σ σ' v e h = perform-frame i σ σ' v e h
  exec_role-frame r false i σ σ' v e h = assign_result-frame i.dst σ v h _ σ' e

  pub exec-frame :
      (i : HlirInsn) (σ σ' : State W) (v : ℕ)
      → exec effect types i σ ≡ some σ'
      → mem v (present i.dst) ≡ false
      → σ'.vals v ≡ σ.vals v
  unfolding exec
  exec-frame i σ σ' v e h = exec_role-frame (role i.kind) (is_float types i) i σ σ' v e h
