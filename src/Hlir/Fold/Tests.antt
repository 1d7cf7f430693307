-- ===== src/Hlir/Fold/Tests.antt =====
-- ir/hlir_opt_fold.c at concrete functions.
use chibicc.Common.{ℕ, ◌^◌, ◌-◌, ◌≡◌, refl, Option, none, some, [], ◌∷◌, true, map}
use chibicc.Types.{is_flonum, long_type, ulong_type, uint_type, bool_type}
use chibicc.Hlir.{HlirKind, HlirInsn, HlirFunction}
use chibicc.Hlir.Machine.{
  State, Effect, types_of, run, exec, exec_role, role, perform, compute, compute_binary,
  eval_binary, eval_unary, normalize, extend, find_label, next_of, returned, Refines,
}
use chibicc.Hlir.Fold.{hlir_opt_const_fold, hlir_fold_binary, hlir_fold_unary}
use chibicc.Hlir.Fold.Admissible.{are_admissible}
use chibicc.Hlir.Fold.Sound.{hlir_opt_const_fold-Refines}

abbrev instruction : HlirKind → Option ℕ → Option ℕ → Option ℕ → ℕ → HlirInsn
instruction k d a b n = record {
  kind = k;
  dst = d;
  src1 = a;
  src2 = b;
  src3 = none;
  imm = n;
  fimm = 0;
  label = none;
  var = none;
  ty = some long_type;
  args = [];
}

-- `return (x = 6) * 7;`
abbrev product : HlirFunction
product = record {
  insns =
      instruction HlirKind.iconst (some 0) none none 6
      ∷ (instruction HlirKind.iconst (some 1) none none 7
          ∷ (instruction HlirKind.mul (some 2) (some 0) (some 1) 0
              ∷ (instruction HlirKind.ret none (some 2) none 0 ∷ [])));
  vals = some long_type ∷ (some long_type ∷ (some long_type ∷ []));
}

abbrev nothing : Effect ℕ
nothing i os w = some (w, 0)

abbrev start : State ℕ
start = record { vals = λ v. 0; world = 5 }

product_admissible : are_admissible (types_of product.vals) [] product.insns ≡ true
unfolding are_admissible is_flonum
product_admissible = refl

product_returns :
    run nothing (types_of product.vals) 0 product.insns product.insns start ≡ returned (some 42) 5
unfolding run exec exec_role role perform compute compute_binary eval_binary normalize extend
    find_label next_of is_flonum
product_returns = refl

-- The multiplication has become a constant.
product_folds :
    map (λ i. i.kind) (hlir_opt_const_fold product).0.insns
    ≡ HlirKind.iconst ∷ (HlirKind.iconst ∷ (HlirKind.iconst ∷ (HlirKind.ret ∷ [])))
unfolding hlir_opt_const_fold
product_folds = refl

hlir_opt_const_fold-Refines_example :
    Refines (run nothing (types_of product.vals) 0 product.insns product.insns start) (
      run nothing
        (types_of (hlir_opt_const_fold product).0.vals)
        0
        (hlir_opt_const_fold product).0.insns
        (hlir_opt_const_fold product).0.insns
        start)
hlir_opt_const_fold-Refines_example =
    hlir_opt_const_fold-Refines nothing product 0 start product_admissible

-- 0xfffffffffffffffe / 2 in `unsigned long` is folded to -1.
folds_unsigned_quotient : hlir_fold_binary HlirKind.div (2 ^ 64 - 2) 2 ≡ some (2 ^ 64 - 1)
unfolding hlir_fold_binary mathlib.Core.Bool.xor
folds_unsigned_quotient = refl

unsigned_quotient :
    eval_binary HlirKind.div (some ulong_type) (some ulong_type) (2 ^ 64 - 2) 2 ≡ some (2 ^ 63 - 1)
unfolding eval_binary
unsigned_quotient = refl

-- 4294967295u + 1u is folded to 2 ^ 32.
folds_unsigned_sum : hlir_fold_binary HlirKind.add 0xffff_ffff 1 ≡ some (2 ^ 32)
unfolding hlir_fold_binary mathlib.Core.Bool.xor
folds_unsigned_sum = refl

unsigned_sum : eval_binary HlirKind.add (some uint_type) (some uint_type) 0xffff_ffff 1 ≡ some 0
unfolding eval_binary
unsigned_sum = refl

-- `(_Bool)256` is folded to 0.
folds_bool_cast : hlir_fold_unary HlirKind.cast (some bool_type) 256 ≡ some 0
unfolding hlir_fold_unary is_flonum
folds_bool_cast = refl

bool_cast : eval_unary HlirKind.cast (some bool_type) 256 ≡ some 1
unfolding eval_unary
bool_cast = refl
