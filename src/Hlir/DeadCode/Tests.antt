-- ===== src/Hlir/DeadCode/Tests.antt =====
-- ir/hlir_opt_dce.c at concrete functions.
use chibicc.Common.{ℕ, ◌≡◌, refl, Option, none, some, List, [], ◌∷◌, false}
use chibicc.Types.{long_type}
use chibicc.Hlir.{HlirKind, HlirInsn, HlirFunction}
use chibicc.Hlir.Machine.{State, Effect, types_of, run}
use chibicc.Hlir.DeadCode.{hlir_opt_dead_code, hlir_opt_dce}
use chibicc.Hlir.DeadCode.Unreachable.{hlir_opt_dead_code-run, hlir_opt_dead_code_fixed}

abbrev instruction : HlirKind → Option ℕ → Option ℕ → Option ℕ → ℕ → HlirInsn
instruction k d a l n = record {
  kind = k;
  dst = d;
  src1 = a;
  src2 = none;
  src3 = none;
  imm = n;
  fimm = 0;
  label = l;
  var = none;
  ty = some long_type;
  args = [];
}

-- `goto out; x = 1; out: return 2;` with an unused constant behind the label.
abbrev skipping : HlirFunction
skipping = record {
  insns =
      instruction HlirKind.jmp none none (some 7) 0
      ∷ (instruction HlirKind.iconst (some 0) none none 1
          ∷ (instruction HlirKind.label none none (some 7) 0
              ∷ (instruction HlirKind.iconst (some 1) none none 2
                  ∷ (instruction HlirKind.iconst (some 0) none none 3
                      ∷ (instruction HlirKind.ret none (some 1) none 0 ∷ [])))));
  vals = some long_type ∷ (some long_type ∷ []);
}

abbrev nothing : Effect ℕ
nothing i os w = some (w, 0)

abbrev start : State ℕ
start = record { vals = λ v. 0; world = 5 }

kinds : List HlirInsn → List HlirKind
kinds [] = []
kinds (i ∷ is) = i.kind ∷ kinds is

dead_code-skipping :
    kinds (hlir_opt_dead_code skipping).0.insns
    ≡ HlirKind.jmp ∷ (HlirKind.label ∷ (HlirKind.iconst ∷ (HlirKind.iconst ∷ (HlirKind.ret ∷ []))))
unfolding hlir_opt_dead_code kinds
dead_code-skipping = refl

dce-skipping :
    kinds (hlir_opt_dce skipping).0.insns
    ≡ HlirKind.jmp ∷ (HlirKind.label ∷ (HlirKind.iconst ∷ (HlirKind.ret ∷ [])))
unfolding hlir_opt_dce kinds
dce-skipping = refl

hlir_opt_dead_code-run_example :
    run nothing
      (types_of (hlir_opt_dead_code skipping).0.vals)
      2
      (hlir_opt_dead_code skipping).0.insns
      (hlir_opt_dead_code skipping).0.insns
      start
    ≡ run nothing (types_of skipping.vals) 2 skipping.insns skipping.insns start
hlir_opt_dead_code-run_example = hlir_opt_dead_code-run nothing skipping 2 start

hlir_opt_dead_code_fixed_example : (hlir_opt_dead_code (hlir_opt_dead_code skipping).0).1 ≡ false
hlir_opt_dead_code_fixed_example = hlir_opt_dead_code_fixed skipping
