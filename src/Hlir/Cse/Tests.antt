-- ===== src/Hlir/Cse/Tests.antt =====
-- ir/hlir_opt_cse.c at concrete functions.
use chibicc.Common.{ℕ, ◌+◌, ◌^◌, ◌≡◌, refl, Option, none, some, [], true}
use chibicc.Types.{long_type}
use chibicc.Hlir.{HlirKind, HlirInsn}
use chibicc.Hlir.Machine.{Types}
use chibicc.Hlir.Algebraic.Value.{value}
use chibicc.Hlir.Cse.{hlir_insn_match_cse, same_double}
use chibicc.Hlir.Cse.Match.{hlir_insn_match_cse-value}

abbrev operation : HlirKind → ℕ → Option ℕ → Option ℕ → HlirInsn
operation k d a b = record {
  kind = k;
  dst = some d;
  src1 = a;
  src2 = b;
  src3 = none;
  imm = 8;
  fimm = 0;
  label = none;
  var = none;
  ty = some long_type;
  args = [];
}

abbrev sum : HlirInsn
sum = operation HlirKind.add 2 (some 0) (some 1)

abbrev mirrored : HlirInsn
mirrored = operation HlirKind.add 3 (some 1) (some 0)

sum-match_cse : hlir_insn_match_cse sum mirrored ≡ true
unfolding hlir_insn_match_cse
sum-match_cse = refl

abbrev longs : Types
longs v = some long_type

value-sum : value longs (λ v. v + 5) sum ≡ some 11
unfolding value
value-sum = refl

hlir_insn_match_cse-value_example : value longs (λ v. v + 5) mirrored ≡ some 11
hlir_insn_match_cse-value_example =
    hlir_insn_match_cse-value longs (λ v. v + 5) sum mirrored 11 refl sum-match_cse value-sum

-- The constants 0.0 and -0.0 match.
zeros-match : same_double 0 (2 ^ 63) ≡ true
zeros-match = refl
