-- ===== src/Hlir/Cse/Fuel.antt =====
-- ir/hlir_opt_cse.c: the loops end with the list.
use chibicc.Common.{
  ℕ, zero, suc, ◌≤◌, ◌≡◌, refl, ap, arith, Bool, ◌||◌, ◌&&◌, List, [], ◌∷◌, length, if◌then◌else◌,
}
use chibicc.Hlir.{HlirInsn, HlirFunction}
use chibicc.Hlir.Cse.{replace_matches, replaces, cse_insns, is_candidate, hlir_opt_local_cse}

length-replace_matches :
    (i : HlirInsn) (is : List HlirInsn) → length (replace_matches i is) ≡ length is
unfolding replace_matches
length-replace_matches i [] = refl
length-replace_matches i (s ∷ ss) = ground (arith, length-replace_matches i ss)

length-round :
    (i : HlirInsn) (is : List HlirInsn)
    → length (if is_candidate i then replace_matches i is else is) ≡ length is
length-round i is = ground (arith, length-replace_matches i is)

-- Any two amounts of fuel that the number of instructions does not exceed give the same.
cse_insns_fuel :
    (f g : ℕ) (is : List HlirInsn) → length is ≤ f → length is ≤ g → cse_insns f is ≡ cse_insns g is
unfolding cse_insns
cse_insns_fuel zero zero is h k = refl
cse_insns_fuel zero (suc g) [] h k = refl
cse_insns_fuel (suc f) zero [] h k = refl
cse_insns_fuel (suc f) (suc g) [] h k = refl
cse_insns_fuel zero (suc g) (i ∷ is) h k = absurd (omega arith)
cse_insns_fuel (suc f) zero (i ∷ is) h k = absurd (omega arith)
cse_insns_fuel (suc f) (suc g) (i ∷ is) h k =
    let next = if is_candidate i then replace_matches i is else is in
    let l = length-round i is in
    let e : cse_insns f next ≡ cse_insns g next =
      cse_insns_fuel f g next (omega (arith, l)) (omega (arith, l)) in
    ap (λ (r : List HlirInsn × Bool). (i ∷ r.0, (is_candidate i && replaces i is) || r.1)) e

-- The number of instructions is enough fuel: with any more, the pass leaves the same instructions and
-- reports the same.
hlir_opt_local_cse_fuel :
    (fn : HlirFunction) (fuel : ℕ)
    → length fn.insns ≤ fuel
    → let out = cse_insns fuel fn.insns in
      hlir_opt_local_cse fn ≡ (record fn { insns = out.0 }, out.1)
unfolding hlir_opt_local_cse
hlir_opt_local_cse_fuel fn fuel h =
    ap (λ (r : List HlirInsn × Bool). (record fn { insns = r.0 }, r.1))
      (cse_insns_fuel (length fn.insns) fuel fn.insns (omega arith) h)
