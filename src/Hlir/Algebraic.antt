-- ===== src/Hlir/Algebraic.antt =====
-- ir/hlir_opt_algebraic.c: algebraic simplification and strength reduction.
-- The file's copy of `hlir_fold_binary` is that of ir/hlir_opt_fold.c. A rule returns the rewriting
-- that it makes, `none` where it returns false; the pass carries it out.
pub mod Rules
pub mod Binary
pub mod Value
mod Tests
use chibicc.Common.{
  ℕ, ◌+◌, ◌-◌, Bool, true, false, not, ◌||◌, ◌&&◌, Option, none, some, List, [], ◌∷◌, ◌++◌, ◌==◌,
  length, if◌then◌else◌,
}
use chibicc.Types.{CType, long_type}
use chibicc.Hlir.{HlirKind, HlirInsn, HlirFunction, hlir_is_bb_barrier, hlir_set_iconst}
use chibicc.Hlir.Env.{HlirEnv, hlir_env_init, hlir_env_reset, hlir_env_set_const, hlir_env_set_def}
use chibicc.Hlir.Machine.{types_of}
use chibicc.Hlir.Fold.{is_some, is_iconst}
use chibicc.Hlir.Algebraic.Rules.{
  Rewrite, in_place, constant, with_constant, or_else, hlir_rule_simplify_unary, hlir_rule_identity,
  hlir_rule_annihilator, hlir_rule_self_operands,
}
use chibicc.Hlir.Algebraic.Binary.{
  hlir_rule_negations, hlir_rule_strength_reduction, hlir_rule_reassociation,
  hlir_rule_cancellation, hlir_rule_absorption,
}

-- `vals` are the types of the function's values so far; what is known has the size that the function
-- had at first.
pub record Progress : Type 0 where
  pub env : HlirEnv
  pub vals : List (Option CType)

-- `ty ? ty : ty_long`.
abbrev pub or_long : Option CType → CType
or_long none = long_type
or_long (some ty) = ty

-- The instruction that `hlir_make_iconst` inserts.
abbrev pub iconst_insn : ℕ → ℕ → Option CType → HlirInsn
iconst_insn v imm ty = record {
  kind = HlirKind.iconst;
  dst = some v;
  src1 = none;
  src2 = none;
  src3 = none;
  imm = imm;
  fimm = 0;
  label = none;
  var = none;
  ty = some (or_long ty);
  args = [];
}

-- The progress with the new value, whose id is the number of values before.
abbrev pub hlir_make_iconst : Progress → ℕ → Option CType → Progress × HlirInsn
hlir_make_iconst p imm ty =
    let v = length p.vals in
    let insn = iconst_insn v imm ty in
    (
      record p {
        vals = p.vals ++ (some (or_long ty) ∷ []);
        env = hlir_env_set_const (hlir_env_set_def p.env (some v) insn) (some v) imm;
      },
      insn,
    )

-- The rewritten instruction, in place, behind the constant that it needs. `defs` points to the
-- instruction and so sees it as rewritten.
abbrev pub apply_rewrite : Progress → HlirInsn → Rewrite → Progress × List HlirInsn
apply_rewrite p i (in_place i') = (record p { env = hlir_env_set_def p.env i.dst i' }, i' ∷ [])
apply_rewrite p i (constant imm) =
    let i' = hlir_set_iconst i imm in
    (record p { env = hlir_env_set_const (hlir_env_set_def p.env i.dst i') i.dst imm }, i' ∷ [])
apply_rewrite p i (with_constant i' imm ty) =
    let made = hlir_make_iconst p imm ty in
    let i'' = record i' { src2 = some (length p.vals) } in
    (record made.0 { env = hlir_env_set_def made.0.env i.dst i'' }, made.1 ∷ (i'' ∷ []))

abbrev pub apply_rewrites : Progress → HlirInsn → Option Rewrite → Progress × List HlirInsn
apply_rewrites p i none = (p, i ∷ [])
apply_rewrites p i (some r) = apply_rewrite p i r

-- The rules in their order. All but the first need `dst`, `src1` and `src2`.
unfoldable pub algebraic_rewrite : Progress → HlirInsn → Option Rewrite
algebraic_rewrite p i =
    let types = types_of p.vals in
    or_else (hlir_rule_simplify_unary p.env i) (
      if is_some i.dst && (is_some i.src1 && is_some i.src2)
      then or_else (hlir_rule_identity p.env i) (
          or_else (hlir_rule_annihilator p.env i) (
            or_else (hlir_rule_self_operands types i) (
              or_else (hlir_rule_negations p.env i) (
                or_else (hlir_rule_strength_reduction types p.env i) (
                  or_else (hlir_rule_reassociation types p.env i)
                    (or_else (hlir_rule_cancellation p.env i) (hlir_rule_absorption p.env i)))))))
      else none)

-- What is known once the definition of the instruction is recorded.
abbrev pub define : Progress → HlirInsn → Progress
define p i = record p { env = hlir_env_set_def p.env i.dst i }

abbrev pub is_known_constant : HlirInsn → Bool
is_known_constant i = is_iconst i.kind && is_some i.dst

-- One round of the loop: the progress after it, and the instructions in place of the given one.
unfoldable pub algebraic_insn : Progress → HlirInsn → Progress × List HlirInsn
unfolding hlir_is_bb_barrier algebraic_rewrite
algebraic_insn p i =
    if hlir_is_bb_barrier i.kind
    then (record p { env = hlir_env_reset p.env }, i ∷ [])
    else if is_known_constant i
    then (
      record p { env = hlir_env_set_const (hlir_env_set_def p.env i.dst i) i.dst i.imm },
      i ∷ [],
    )
    else apply_rewrites (define p i) i (algebraic_rewrite (define p i) i)

unfoldable pub algebraic_changes : Progress → HlirInsn → Bool
unfolding hlir_is_bb_barrier algebraic_rewrite
algebraic_changes p i =
    if hlir_is_bb_barrier i.kind || is_known_constant i
    then false
    else is_some (algebraic_rewrite (define p i) i)

-- The progress after all instructions, and the instructions.
unfoldable pub algebraic_insns : Progress → List HlirInsn → Progress × List HlirInsn
unfolding algebraic_insn
algebraic_insns p [] = (p, [])
algebraic_insns p (i ∷ is) =
    let rest = algebraic_insns (algebraic_insn p i).0 is in
    (rest.0, (algebraic_insn p i).1 ++ rest.1)

unfoldable pub algebraic_change : Progress → List HlirInsn → Bool
unfolding algebraic_changes algebraic_insn
algebraic_change p [] = false
algebraic_change p (i ∷ is) = algebraic_changes p i || algebraic_change (algebraic_insn p i).0 is

-- The function as the pass leaves it, and the result of the call.
unfoldable pub hlir_opt_algebraic : HlirFunction → HlirFunction × Bool
unfolding algebraic_insns algebraic_change
hlir_opt_algebraic fn =
    let p : Progress = record { env = hlir_env_init (length fn.vals) true; vals = fn.vals } in
    let out = algebraic_insns p fn.insns in
    if length fn.vals == 0
    then (fn, false)
    else (record { insns = out.1; vals = out.0.vals }, algebraic_change p fn.insns)
