-- ===== src/Hlir/Cse.antt =====
-- ir/hlir_opt_cse.c: local common subexpression elimination.
pub mod Fuel
pub mod Match
mod Tests
use chibicc.Common.{
  ℕ, zero, suc, ◌%◌, ◌^◌, leb, length, Bool, true, false, not, ◌||◌, ◌&&◌, Option, none, some, List,
  [], ◌∷◌, ◌==◌, if◌then◌else◌,
}
use mathlib.Core.Bool.{decide}
use chibicc.Hlir.{
  HlirKind, HlirInsn, HlirFunction, hlir_is_pure, hlir_is_commutative, hlir_is_bb_barrier,
  hlir_set_cast,
}
use chibicc.Hlir.Fold.{is_some}
use chibicc.Hlir.Algebraic.Rules.{same_value}

unfoldable pub HlirKind-discrete : Discrete HlirKind
HlirKind-discrete = hlevel

unfoldable pub same_kind : HlirKind → HlirKind → Bool
unfolding HlirKind-discrete decide
same_kind a b = decide (HlirKind-discrete a b)

-- `==` on doubles, by their patterns: a NaN equals nothing, and the two zeros are equal.
abbrev pub same_double : ℕ → ℕ → Bool
same_double a b =
    (a == b && leb (a % 2 ^ 63) 0x7FF0_0000_0000_0000) || (a % 2 ^ 63 == 0 && b % 2 ^ 63 == 0)

-- Equality of strings that are both there.
abbrev pub same_label : Option ℕ → Option ℕ → Bool
same_label (some a) (some b) = a == b
same_label _ _ = false

-- Binary and unary operations, of the same kind.
abbrev pub match_operands : HlirInsn → HlirInsn → Bool
unfolding hlir_is_commutative
match_operands a b =
    if (is_some a.src1 && is_some a.src2) && (is_some b.src1 && is_some b.src2)
    then (same_value a.src1 b.src1 && same_value a.src2 b.src2)
      || (hlir_is_commutative a.kind && (same_value a.src1 b.src2 && same_value a.src2 b.src1))
    else ((is_some a.src1 && not (is_some a.src2)) && (is_some b.src1 && not (is_some b.src2)))
      && same_value a.src1 b.src1

abbrev pub match_of : HlirKind → HlirInsn → HlirInsn → Bool
match_of HlirKind.iconst a b = a.imm == b.imm
match_of HlirKind.fconst a b = same_double a.fimm b.fimm
match_of HlirKind.sconst a b = same_label a.label b.label || same_value a.var b.var
match_of HlirKind.addr_var a b = same_value a.var b.var
match_of _ a b = match_operands a b

unfoldable pub hlir_insn_match_cse : HlirInsn → HlirInsn → Bool
unfolding same_kind hlir_is_commutative
hlir_insn_match_cse a b = if not (same_kind a.kind b.kind) then false else match_of a.kind a b

abbrev pub is_cast : HlirKind → Bool
is_cast HlirKind.cast = true
is_cast _ = false

-- The inner loop, up to a barrier.
unfoldable pub replace_matches : HlirInsn → List HlirInsn → List HlirInsn
unfolding hlir_is_bb_barrier hlir_insn_match_cse
replace_matches i [] = []
replace_matches i (s ∷ ss) =
    let rest = replace_matches i ss in
    if hlir_is_bb_barrier s.kind
    then s ∷ ss
    else (if is_some s.dst && hlir_insn_match_cse i s then hlir_set_cast s i.dst else s) ∷ rest

unfoldable pub replaces : HlirInsn → List HlirInsn → Bool
unfolding hlir_is_bb_barrier hlir_insn_match_cse
replaces i [] = false
replaces i (s ∷ ss) =
    let rest = replaces i ss in
    if hlir_is_bb_barrier s.kind then false else (is_some s.dst && hlir_insn_match_cse i s) || rest

unfoldable pub is_candidate : HlirInsn → Bool
unfolding hlir_is_pure
is_candidate i = is_some i.dst && (hlir_is_pure i.kind && not (is_cast i.kind))

-- The outer loop: a round leaves as many instructions behind as it finds, so that their number is
-- enough fuel. The first of the pair is the list as the loop leaves it, the second `changed`.
unfoldable pub cse_insns : ℕ → List HlirInsn → List HlirInsn × Bool
unfolding replace_matches replaces is_candidate
cse_insns zero is = (is, false)
cse_insns (suc fuel) [] = ([], false)
cse_insns (suc fuel) (i ∷ is) =
    let candidate = is_candidate i in
    let rest = cse_insns fuel (if candidate then replace_matches i is else is) in
    (i ∷ rest.0, (candidate && replaces i is) || rest.1)

-- The function as the pass leaves it, and the result of the call.
unfoldable pub hlir_opt_local_cse : HlirFunction → HlirFunction × Bool
unfolding cse_insns
hlir_opt_local_cse fn =
    let out = cse_insns (length fn.insns) fn.insns in (record fn { insns = out.0 }, out.1)
