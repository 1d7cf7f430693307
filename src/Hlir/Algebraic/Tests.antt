-- ===== src/Hlir/Algebraic/Tests.antt =====
-- ir/hlir_opt_algebraic.c at concrete functions.
use chibicc.Common.{
  ℕ, ◌≡◌, refl, sym, arith, Option, none, some, [], true, false, Bool-cases, inl, inr, ◌==◌,
  if◌then◌else◌,
}
use chibicc.Hlir.{HlirKind, HlirInsn, hlir_set_cast, hlir_is_relational, hlir_invert_cmp}
use chibicc.Types.{int_type, is_flonum}
use chibicc.Hlir.Env.{HlirEnv, hlir_env_init, hlir_env_set_const, hlir_env_set_def}
use chibicc.Hlir.Machine.{Types, eval_binary, eval_unary}
use chibicc.Hlir.Compare.{hlir_invert_cmp-eval}
use chibicc.Hlir.Algebraic.Rules.{in_place, hlir_rule_identity, hlir_rule_simplify_unary}
use chibicc.Hlir.Algebraic.Binary.{is_dual, hlir_rule_absorption}
use chibicc.Hlir.Algebraic.Value.{word_type, value, AreWords, KnowsConsts, KnowsDef, some_inj}
use chibicc.Hlir.Algebraic.Value.Identity.{hlir_rule_identity-value}
use chibicc.Hlir.Algebraic.Value.Absorption.{hlir_rule_absorption-value}
use chibicc.Hlir.Algebraic.Value.Unary.{Known, hlir_rule_simplify_unary-value}

abbrev operation : HlirKind → ℕ → Option ℕ → Option ℕ → HlirInsn
operation k d a b = record {
  kind = k;
  dst = some d;
  src1 = a;
  src2 = b;
  src3 = none;
  imm = 8;
  fimm = 0;
  label = none;
  var = none;
  ty = some (word_type false);
  args = [];
}

-- Every value is a `long`; the words of the first are 5, 3 and 7.
abbrev longs : Types
longs v = some (word_type false)

abbrev words : ℕ → ℕ
words v = if v == 0 then 5 else if v == 1 then 3 else if v == 2 then 7 else 0

words-AreWords : AreWords words
words-AreWords v = ground arith

-- `x + 0`.
abbrev zero_env : HlirEnv
zero_env = hlir_env_set_const (hlir_env_init 8 true) (some 4) 0

abbrev plus_zero : HlirInsn
plus_zero = operation HlirKind.add 5 (some 0) (some 4)

zero_env-KnowsConsts : KnowsConsts zero_env words
zero_env-KnowsConsts v c h = ground arith

plus_zero-identity :
    hlir_rule_identity zero_env plus_zero ≡ some (in_place (hlir_set_cast plus_zero (some 0)))
unfolding hlir_rule_identity
plus_zero-identity = refl

hlir_rule_identity-value_example :
    value longs words (hlir_set_cast plus_zero (some 0)) ≡ value longs words plus_zero
hlir_rule_identity-value_example =
    hlir_rule_identity-value longs words zero_env plus_zero (hlir_set_cast plus_zero (some 0)) false
      0 4 refl refl refl words-AreWords zero_env-KnowsConsts plus_zero-identity

-- `(x | y) & x`, where `x | y` is value 2.
abbrev union : HlirInsn
union = operation HlirKind.bitor 2 (some 0) (some 1)

abbrev union_env : HlirEnv
union_env = hlir_env_set_def (hlir_env_init 8 true) (some 2) union

abbrev meet : HlirInsn
meet = operation HlirKind.bitand 5 (some 2) (some 0)

value-union : value longs words union ≡ some 7
unfolding value
value-union = refl

union_env-KnowsDef : (v : ℕ) → KnowsDef union_env longs words (is_dual HlirKind.bitand) v
union_env-KnowsDef v d h k = elim (Bool-cases (v == 2)) [
  | inl e ↦
      let q : v ≡ 2 = ground arith in
      let c : union ≡ d = some_inj (rw q at h) in rw (q, sym c) ((false, refl), value-union)
  | inr e ↦ absurd (ground arith)
]

meet-absorption :
    hlir_rule_absorption union_env meet ≡ some (in_place (hlir_set_cast meet (some 0)))
unfolding hlir_rule_absorption
meet-absorption = refl

hlir_rule_absorption-value_example :
    value longs words (hlir_set_cast meet (some 0)) ≡ value longs words meet
hlir_rule_absorption-value_example =
    hlir_rule_absorption-value longs words union_env words-AreWords meet
      (hlir_set_cast meet (some 0)) false refl 2 0 refl refl (union_env-KnowsDef 2)
      (union_env-KnowsDef 0) meet-absorption

-- `!(x < y)`, where `x < y` is value 3: both are of type int, as the front end types them.
abbrev less : HlirInsn
less = record (operation HlirKind.cmp_lt 3 (some 0) (some 1)) { ty = some int_type }

abbrev less_env : HlirEnv
less_env = hlir_env_set_def (hlir_env_init 8 true) (some 3) less

abbrev not_less : HlirInsn
not_less = record (operation HlirKind.lognot 5 (some 3) none) { ty = some int_type }

less-Known : Known longs words int_type 0 less
unfolding value is_flonum
less-Known = (refl, (int_type, refl, refl), refl)

abbrev not_below : HlirInsn
not_below = record (operation HlirKind.cmp_ge 5 (some 0) (some 1)) { ty = some int_type }

not_less-simplify_unary : hlir_rule_simplify_unary less_env not_less ≡ some (in_place not_below)
unfolding hlir_rule_simplify_unary hlir_invert_cmp hlir_is_relational
not_less-simplify_unary = refl

hlir_rule_simplify_unary-value_example : value longs words not_below ≡ value longs words not_less
unfolding is_flonum
hlir_rule_simplify_unary-value_example =
    hlir_rule_simplify_unary-value longs words less_env words-AreWords not_less int_type 3 refl refl
      less not_below (refl, refl, inl refl) refl less-Known not_less-simplify_unary

less_is_relational : hlir_is_relational HlirKind.cmp_lt ≡ true
unfolding hlir_is_relational
less_is_relational = refl

five_below_three : eval_binary HlirKind.cmp_lt none none 5 3 ≡ some 0
unfolding eval_binary
five_below_three = refl

hlir_invert_cmp-eval_example :
    eval_binary (hlir_invert_cmp HlirKind.cmp_lt) none none 5 3 ≡ eval_unary HlirKind.lognot none 0
hlir_invert_cmp-eval_example =
    hlir_invert_cmp-eval HlirKind.cmp_lt none none none none 5 3 0 less_is_relational
      five_below_three
