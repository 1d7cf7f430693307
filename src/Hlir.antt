-- ===== src/Hlir.antt =====
-- ir/hlir.h and ir/hlir_opt.c: the high-level intermediate representation and the predicates and
-- mutation helpers that its passes share.
-- A value (`HLIRVal *`) is its `id`, unique in a function, and NULL is `none`. An instruction is a
-- record of the fields that the passes read, and the doubly linked list of a function is the list
-- of its instructions. The operands of inline assembly share storage with `args` and are left out.
pub mod Env
pub mod Machine
pub mod Frame
pub mod Run
pub mod Fold
pub mod DeadCode
pub mod Algebraic
pub mod Compare
pub mod Cse
use chibicc.Common.{
  ℕ, ◌+◌, ◌-◌, ◌^◌, zero, suc, Bool, true, false, Option, none, some, List, [], ◌∷◌, ◌++◌, bit_and,
  ◌==◌, ltb, ◌||◌, not, if◌then◌else◌,
}
use chibicc.Types.{CType}

pub data HlirKind : Type 0 where
  nop iconst fconst sconst : HlirKind
  load_var store_var addr_var load_member store_member load_ptr store_ptr memcpy memzero : HlirKind
  cast add sub mul div modulo bitand bitor bitxor shl shr neg bitnot lognot : HlirKind
  cmp_eq cmp_ne cmp_lt cmp_le cmp_gt cmp_ge : HlirKind
  label jmp jmp_if_zero jmp_if_nz ret call param alloca asm cas exch : HlirKind

-- `imm` is the bit pattern of the `int64_t`, `fimm` that of the `double`. A label or a string and a
-- variable (`Obj2 *`) are numbers that identify them.
pub record HlirInsn : Type 0 where
  pub kind : HlirKind
  pub dst : Option ℕ
  pub src1 : Option ℕ
  pub src2 : Option ℕ
  pub src3 : Option ℕ
  pub imm : ℕ
  pub fimm : ℕ
  pub label : Option ℕ
  pub var : Option ℕ
  pub ty : Option CType
  pub args : List (Option ℕ)

-- `vals` holds the types of the values, in the order of their ids; `num_vals` is its length.
pub record HlirFunction : Type 0 where
  pub insns : List HlirInsn
  pub vals : List (Option CType)

-- The operands that `hlir_for_each_use` visits, in its order.
abbrev pub present : Option ℕ → List ℕ
present none = []
present (some v) = v ∷ []

abbrev pub present_args : List (Option ℕ) → List ℕ
present_args [] = []
present_args (none ∷ rest) = present_args rest
present_args (some v ∷ rest) = v ∷ present_args rest

unfoldable pub uses : HlirInsn → List ℕ
uses i = present i.src1 ++ (present i.src2 ++ (present i.src3 ++ present_args i.args))

unfoldable pub hlir_is_pure : HlirKind → Bool
hlir_is_pure HlirKind.iconst = true
hlir_is_pure HlirKind.fconst = true
hlir_is_pure HlirKind.sconst = true
hlir_is_pure HlirKind.addr_var = true
hlir_is_pure HlirKind.cast = true
hlir_is_pure HlirKind.add = true
hlir_is_pure HlirKind.sub = true
hlir_is_pure HlirKind.mul = true
hlir_is_pure HlirKind.div = true
hlir_is_pure HlirKind.modulo = true
hlir_is_pure HlirKind.bitand = true
hlir_is_pure HlirKind.bitor = true
hlir_is_pure HlirKind.bitxor = true
hlir_is_pure HlirKind.shl = true
hlir_is_pure HlirKind.shr = true
hlir_is_pure HlirKind.neg = true
hlir_is_pure HlirKind.bitnot = true
hlir_is_pure HlirKind.lognot = true
hlir_is_pure HlirKind.cmp_eq = true
hlir_is_pure HlirKind.cmp_ne = true
hlir_is_pure HlirKind.cmp_lt = true
hlir_is_pure HlirKind.cmp_le = true
hlir_is_pure HlirKind.cmp_gt = true
hlir_is_pure HlirKind.cmp_ge = true
hlir_is_pure _ = false

unfoldable pub hlir_is_commutative : HlirKind → Bool
hlir_is_commutative HlirKind.add = true
hlir_is_commutative HlirKind.mul = true
hlir_is_commutative HlirKind.bitand = true
hlir_is_commutative HlirKind.bitor = true
hlir_is_commutative HlirKind.bitxor = true
hlir_is_commutative HlirKind.cmp_eq = true
hlir_is_commutative HlirKind.cmp_ne = true
hlir_is_commutative _ = false

unfoldable pub hlir_is_relational : HlirKind → Bool
hlir_is_relational HlirKind.cmp_eq = true
hlir_is_relational HlirKind.cmp_ne = true
hlir_is_relational HlirKind.cmp_lt = true
hlir_is_relational HlirKind.cmp_le = true
hlir_is_relational HlirKind.cmp_gt = true
hlir_is_relational HlirKind.cmp_ge = true
hlir_is_relational _ = false

unfoldable pub hlir_swap_cmp : HlirKind → HlirKind
hlir_swap_cmp HlirKind.cmp_eq = HlirKind.cmp_eq
hlir_swap_cmp HlirKind.cmp_ne = HlirKind.cmp_ne
hlir_swap_cmp HlirKind.cmp_lt = HlirKind.cmp_gt
hlir_swap_cmp HlirKind.cmp_le = HlirKind.cmp_ge
hlir_swap_cmp HlirKind.cmp_gt = HlirKind.cmp_lt
hlir_swap_cmp HlirKind.cmp_ge = HlirKind.cmp_le
hlir_swap_cmp kind = kind

unfoldable pub hlir_invert_cmp : HlirKind → HlirKind
hlir_invert_cmp HlirKind.cmp_eq = HlirKind.cmp_ne
hlir_invert_cmp HlirKind.cmp_ne = HlirKind.cmp_eq
hlir_invert_cmp HlirKind.cmp_lt = HlirKind.cmp_ge
hlir_invert_cmp HlirKind.cmp_le = HlirKind.cmp_gt
hlir_invert_cmp HlirKind.cmp_gt = HlirKind.cmp_le
hlir_invert_cmp HlirKind.cmp_ge = HlirKind.cmp_lt
hlir_invert_cmp _ = HlirKind.nop

unfoldable pub hlir_is_bb_barrier : HlirKind → Bool
hlir_is_bb_barrier HlirKind.label = true
hlir_is_bb_barrier HlirKind.jmp = true
hlir_is_bb_barrier HlirKind.jmp_if_zero = true
hlir_is_bb_barrier HlirKind.jmp_if_nz = true
hlir_is_bb_barrier HlirKind.call = true
hlir_is_bb_barrier HlirKind.ret = true
hlir_is_bb_barrier HlirKind.asm = true
hlir_is_bb_barrier HlirKind.cas = true
hlir_is_bb_barrier HlirKind.exch = true
hlir_is_bb_barrier _ = false

-- `while ((1LL << shift) < val) shift++`, from `shift` on.
unfoldable pub find_shift : ℕ → ℕ → ℕ → ℕ
find_shift zero shift val = shift
find_shift (suc fuel) shift val =
    let next = find_shift fuel (shift + 1) val in if ltb (2 ^ shift) val then next else shift

-- The shift, if `val` is a power of two. `val <= 0` is a pattern that is 0 or has the sign bit; 64
-- rounds are enough for any word.
unfoldable pub hlir_is_power_of_two : ℕ → Option ℕ
unfolding find_shift
hlir_is_power_of_two val =
    if (val == 0 || ltb (2 ^ 63 - 1) val) || not (bit_and val (val - 1) == 0)
    then none
    else let shift = find_shift 64 0 val in if 2 ^ shift == val then some shift else none

abbrev pub hlir_set_iconst : HlirInsn → ℕ → HlirInsn
hlir_set_iconst i imm = record i {
  kind = HlirKind.iconst;
  imm = imm;
  src1 = none;
  src2 = none;
  src3 = none;
}

abbrev pub hlir_set_cast : HlirInsn → Option ℕ → HlirInsn
hlir_set_cast i src = record i { kind = HlirKind.cast; src1 = src; src2 = none; src3 = none }

abbrev pub hlir_set_unary : HlirInsn → HlirKind → Option ℕ → HlirInsn
hlir_set_unary i kind src = record i { kind = kind; src1 = src; src2 = none; src3 = none }
