-- ===== src/Hlir/DeadCode.antt =====
-- ir/hlir_opt_dce.c: unused values and unreachable instructions.
pub mod Unreachable
mod Tests
use chibicc.Common.{
  ℕ, Bool, true, false, not, ◌||◌, ◌&&◌, Option, none, some, List, [], ◌∷◌, ◌++◌, ◌==◌, ltb,
  if◌then◌else◌, length,
}
use chibicc.Hlir.{HlirKind, HlirInsn, HlirFunction, uses, hlir_is_pure}
use chibicc.Hlir.Machine.{is_label_kind}
use chibicc.Hlir.Frame.{mem}

-- The values that `hlir_dce_mark_use` marks in `used`.
unfoldable pub used_values : List HlirInsn → List ℕ
unfolding uses
used_values [] = []
used_values (i ∷ is) = uses i ++ used_values is

abbrev pub unused_dst : List ℕ → ℕ → Option ℕ → Bool
unfolding mem
unused_dst used num_vals none = false
unused_dst used num_vals (some v) = ltb v num_vals && not (mem v used)

-- Whether the second loop removes the instruction.
unfoldable pub is_unused : List ℕ → ℕ → HlirInsn → Bool
unfolding hlir_is_pure mem
is_unused used num_vals i = unused_dst used num_vals i.dst && hlir_is_pure i.kind

unfoldable pub remove_unused : List ℕ → ℕ → List HlirInsn → List HlirInsn
unfolding is_unused
remove_unused used num_vals [] = []
remove_unused used num_vals (i ∷ is) =
    let rest = remove_unused used num_vals is in
    if is_unused used num_vals i then rest else i ∷ rest

unfoldable pub removes_unused : List ℕ → ℕ → List HlirInsn → Bool
unfolding is_unused
removes_unused used num_vals [] = false
removes_unused used num_vals (i ∷ is) = is_unused used num_vals i || removes_unused used num_vals is

-- The function as the pass leaves it, and the result of the call.
unfoldable pub hlir_opt_dce : HlirFunction → HlirFunction × Bool
unfolding used_values remove_unused removes_unused
hlir_opt_dce fn =
    let used = used_values fn.insns in
    if length fn.vals == 0 then (fn, false) else (
      record fn { insns = remove_unused used (length fn.vals) fn.insns },
      removes_unused used (length fn.vals) fn.insns,
    )

abbrev pub leaves_block : HlirKind → Bool
leaves_block HlirKind.jmp = true
leaves_block HlirKind.ret = true
leaves_block _ = false

-- Both loops in one: `dead` says that the inner loop is removing, which it does up to a label.
unfoldable pub remove_unreachable : Bool → List HlirInsn → List HlirInsn
remove_unreachable dead [] = []
remove_unreachable dead (i ∷ is) =
    let skipped = remove_unreachable true is in
    let kept = i ∷ remove_unreachable (leaves_block i.kind) is in
    if dead && not (is_label_kind i.kind) then skipped else kept

unfoldable pub removes_unreachable : Bool → List HlirInsn → Bool
removes_unreachable dead [] = false
removes_unreachable dead (i ∷ is) =
    let kept = removes_unreachable (leaves_block i.kind) is in
    if dead && not (is_label_kind i.kind) then true else kept

unfoldable pub hlir_opt_dead_code : HlirFunction → HlirFunction × Bool
unfolding remove_unreachable removes_unreachable
hlir_opt_dead_code fn =
    (record fn { insns = remove_unreachable false fn.insns }, removes_unreachable false fn.insns)
