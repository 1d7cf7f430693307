-- ===== src/Hlir/Machine.antt =====
-- What a program of ir/hlir.h means: a machine over 64-bit words for its instructions.
-- A value of a type narrower than 8 bytes is kept extended to a word, as the x86_64 back end loads
-- it. Arithmetic on integers is given here. All else (memory, calls, floating point, addresses) is
-- an arbitrary `effect` of the instruction, of the words and types of its operands and of a world.
use mathlib.Core.Option
use chibicc.Common.{
  ℕ, zero, suc, ◌+◌, ◌-◌, ◌*◌, ◌/◌, ◌%◌, ◌^◌, ◌≡◌, ◌⊎◌, Bool, true, false, not, ◌&&◌, ◌||◌, Option,
  none, some, List, [], ◌∷◌, map, bit_and, bit_or, bit_xor, ◌==◌, ltb, leb, if◌then◌else◌, get_or,
}
use chibicc.Common.Words.{
  word, not64, minus_one, signed_lt, signed_le, signed_div, signed_mod, sar64, bool64, sign_extend,
  zero_extend,
}
use chibicc.Types.{TypeKind, CType, is_flonum}
use chibicc.Hlir.{HlirKind, HlirInsn}
use chibicc.Hlir.Env.{update}

-- The word that a value of the type is kept as.
unfoldable pub extend : Bool → ℕ → ℕ → ℕ
extend uns size a =
    if size == 1 || (size == 2 || size == 4)
    then if uns then zero_extend (8 * size) a else sign_extend (8 * size) a
    else word a

unfoldable pub normalize : Option CType → ℕ → ℕ
unfolding extend
normalize none a = word a
normalize (some ty) a = extend ty.is_unsigned ty.size a

abbrev pub unsigned_type : Option CType → Bool
unsigned_type none = false
unsigned_type (some ty) = ty.is_unsigned

abbrev pub flonum_type : Option CType → Bool
unfolding is_flonum
flonum_type none = false
flonum_type (some ty) = is_flonum ty

abbrev pub type_size : Option CType → ℕ
type_size none = 8
type_size (some ty) = ty.size

abbrev is_bool_kind : TypeKind → Bool
is_bool_kind TypeKind.ty_bool = true
is_bool_kind _ = false

abbrev pub bool_typed : Option CType → Bool
bool_typed none = false
bool_typed (some ty) = is_bool_kind ty.kind

-- `none` is an operation that C leaves undefined. `ty` is the type of the instruction and `ty1` that
-- of its first operand.
unfoldable pub eval_binary : HlirKind → Option CType → Option CType → ℕ → ℕ → Option ℕ
unfolding normalize signed_div signed_mod sar64
eval_binary HlirKind.add ty ty1 a b = some (normalize ty (a + b))
eval_binary HlirKind.sub ty ty1 a b = some (normalize ty (a + 2 ^ 64 - b))
eval_binary HlirKind.mul ty ty1 a b = some (normalize ty (a * b))
eval_binary HlirKind.div ty ty1 a b =
    if b == 0
    then none
    else if unsigned_type ty
    then some (normalize ty (a / b))
    else if a == 2 ^ 64 - 2 ^ (8 * type_size ty - 1) && b == minus_one
    then none
    else some (normalize ty (signed_div a b))
eval_binary HlirKind.modulo ty ty1 a b =
    if b == 0
    then none
    else if unsigned_type ty
    then some (normalize ty (a % b))
    else if a == 2 ^ 64 - 2 ^ (8 * type_size ty - 1) && b == minus_one
    then none
    else some (normalize ty (signed_mod a b))
eval_binary HlirKind.bitand ty ty1 a b = some (normalize ty (bit_and a b))
eval_binary HlirKind.bitor ty ty1 a b = some (normalize ty (bit_or a b))
eval_binary HlirKind.bitxor ty ty1 a b = some (normalize ty (bit_xor a b))
eval_binary HlirKind.shl ty ty1 a b =
    if ltb b (8 * type_size ty) then some (normalize ty (a * 2 ^ b)) else none
eval_binary HlirKind.shr ty ty1 a b =
    if ltb b (8 * type_size ty)
    then some (normalize ty (if unsigned_type ty then a / 2 ^ b else sar64 a b))
    else none
eval_binary HlirKind.cmp_eq ty ty1 a b = some (bool64 (a == b))
eval_binary HlirKind.cmp_ne ty ty1 a b = some (bool64 (not (a == b)))
eval_binary HlirKind.cmp_lt ty ty1 a b =
    some (bool64 (if unsigned_type ty1 then ltb a b else signed_lt a b))
eval_binary HlirKind.cmp_le ty ty1 a b =
    some (bool64 (if unsigned_type ty1 then leb a b else signed_le a b))
eval_binary HlirKind.cmp_gt ty ty1 a b =
    some (bool64 (if unsigned_type ty1 then ltb b a else signed_lt b a))
eval_binary HlirKind.cmp_ge ty ty1 a b =
    some (bool64 (if unsigned_type ty1 then leb b a else signed_le b a))
eval_binary _ ty ty1 a b = none

-- A cast to `_Bool` is a test against zero.
unfoldable pub eval_unary : HlirKind → Option CType → ℕ → Option ℕ
unfolding normalize
eval_unary HlirKind.cast ty a =
    some (if bool_typed ty then bool64 (not (a == 0)) else normalize ty a)
eval_unary HlirKind.neg ty a = some (normalize ty (2 ^ 64 - a))
eval_unary HlirKind.bitnot ty a = some (normalize ty (not64 a))
eval_unary HlirKind.lognot ty a = some (bool64 (a == 0))
eval_unary _ ty a = none

-- How an instruction is carried out.
pub data Role : Type 0 where
  constant binary unary control other : Role

unfoldable pub role : HlirKind → Role
role HlirKind.iconst = Role.constant
role HlirKind.add = Role.binary
role HlirKind.sub = Role.binary
role HlirKind.mul = Role.binary
role HlirKind.div = Role.binary
role HlirKind.modulo = Role.binary
role HlirKind.bitand = Role.binary
role HlirKind.bitor = Role.binary
role HlirKind.bitxor = Role.binary
role HlirKind.shl = Role.binary
role HlirKind.shr = Role.binary
role HlirKind.cmp_eq = Role.binary
role HlirKind.cmp_ne = Role.binary
role HlirKind.cmp_lt = Role.binary
role HlirKind.cmp_le = Role.binary
role HlirKind.cmp_gt = Role.binary
role HlirKind.cmp_ge = Role.binary
role HlirKind.cast = Role.unary
role HlirKind.neg = Role.unary
role HlirKind.bitnot = Role.unary
role HlirKind.lognot = Role.unary
role HlirKind.nop = Role.control
role HlirKind.label = Role.control
role HlirKind.jmp = Role.control
role HlirKind.jmp_if_zero = Role.control
role HlirKind.jmp_if_nz = Role.control
role HlirKind.ret = Role.control
role _ = Role.other

-- The types of the values of a function, by id.
abbrev pub Types : Type 0
Types = ℕ → Option CType

abbrev pub types_of : List (Option CType) → Types
types_of vals v = get_or vals v none

abbrev pub operand_type : Types → Option ℕ → Option CType
operand_type types none = none
operand_type types (some v) = types v

-- Floating-point arithmetic is not the machine's own.
abbrev pub is_float : Types → HlirInsn → Bool
is_float types i = flonum_type i.ty || flonum_type (operand_type types i.src1)

pub record State (W : Type 0) : Type 0 where
  pub vals : ℕ → ℕ
  pub world : W

abbrev pub Operand : Type 0
Operand = Option (ℕ × Option CType)

abbrev pub operand : Types → (ℕ → ℕ) → Option ℕ → Operand
operand types vals none = none
operand types vals (some v) = some (vals v, types v)

abbrev pub operands : Types → (ℕ → ℕ) → HlirInsn → List Operand
operands types vals i =
    operand types vals i.src1
    ∷ (operand types vals i.src2 ∷ (operand types vals i.src3 ∷ map (operand types vals) i.args))

-- An instruction without the values that it names.
abbrev pub shape : HlirInsn → HlirInsn
shape i = record i { dst = none; src1 = none; src2 = none; src3 = none; args = [] }

abbrev pub Effect : Type 0 → Type 0
Effect W = HlirInsn → List Operand → W → Option (W × ℕ)

abbrev pub assign : {W : Type 0} → Option ℕ → ℕ → State W → State W
assign none r σ = σ
assign (some v) r σ = record σ { vals = update σ.vals v r }

abbrev pub assign_result : {W : Type 0} → Option ℕ → Option ℕ → State W → Option (State W)
assign_result dst none σ = none
assign_result dst (some r) σ = some (assign dst r σ)

-- The result of integer arithmetic; `none` is undefined, as a missing operand is.
unfoldable pub compute_binary : Types → (ℕ → ℕ) → HlirInsn → Option ℕ → Option ℕ → Option ℕ
compute_binary types vals i (some a) (some b) = eval_binary i.kind i.ty (types a) (vals a) (vals b)
compute_binary types vals i _ _ = none

unfoldable pub compute_unary : Types → (ℕ → ℕ) → HlirInsn → Option ℕ → Option ℕ
compute_unary types vals i (some a) = eval_unary i.kind i.ty (vals a)
compute_unary types vals i none = none

unfoldable pub compute : Types → (ℕ → ℕ) → HlirInsn → Role → Option ℕ
compute types vals i Role.constant = some i.imm
compute types vals i Role.binary = compute_binary types vals i i.src1 i.src2
compute types vals i Role.unary = compute_unary types vals i i.src1
compute types vals i _ = none

abbrev pub assign_effect : {W : Type 0} → Option ℕ → State W → Option (W × ℕ) → Option (State W)
assign_effect dst σ none = none
assign_effect dst σ (some (w, r)) = some (assign dst r (record σ { world = w }))

module _ {W : Type 0} (effect : Effect W) (types : Types) where
  unfoldable pub perform : HlirInsn → State W → Option (State W)
  perform i σ = assign_effect i.dst σ (effect (shape i) (operands types σ.vals i) σ.world)

  unfoldable pub exec_role : Role → Bool → HlirInsn → State W → Option (State W)
  exec_role Role.control float i σ = some σ
  exec_role Role.other float i σ = perform i σ
  exec_role r true i σ = perform i σ
  exec_role r false i σ = assign_result i.dst (compute types σ.vals i r) σ

  unfoldable pub exec : HlirInsn → State W → Option (State W)
  exec i σ = exec_role (role i.kind) (is_float types i) i σ

-- Where control goes after an instruction.
pub data Next : Type 0 where
  next stuck : Next
  goto : ℕ → Next
  stop : Option ℕ → Next

abbrev goto_label : Option ℕ → Next
goto_label none = stuck
goto_label (some l) = goto l

abbrev branch : Option ℕ → Bool → Next
branch l true = goto_label l
branch l false = next

abbrev branch_on : (ℕ → ℕ) → Option ℕ → Option ℕ → Bool → Next
branch_on vals none l zero_jumps = stuck
branch_on vals (some v) l zero_jumps =
    branch l (if zero_jumps then vals v == 0 else not (vals v == 0))

unfoldable pub next_of : HlirKind → HlirInsn → (ℕ → ℕ) → Next
next_of HlirKind.jmp i vals = goto_label i.label
next_of HlirKind.jmp_if_zero i vals = branch_on vals i.src1 i.label true
next_of HlirKind.jmp_if_nz i vals = branch_on vals i.src1 i.label false
next_of HlirKind.ret i vals = stop (Option.map vals i.src1)
next_of _ i vals = next

abbrev pub is_label_kind : HlirKind → Bool
is_label_kind HlirKind.label = true
is_label_kind _ = false

abbrev same_label : Option ℕ → ℕ → Bool
same_label none l = false
same_label (some k) l = k == l

abbrev pub is_label : ℕ → HlirInsn → Bool
is_label l i = is_label_kind i.kind && same_label i.label l

unfoldable pub find_label : ℕ → List HlirInsn → Option (List HlirInsn)
find_label l [] = none
find_label l (i ∷ is) = if is_label l i then some (i ∷ is) else find_label l is

pub data Outcome (W : Type 0) : Type 0 where
  returned : Option ℕ → W → Outcome W
  undefined out_of_fuel : Outcome W

-- Running a function from an instruction on. A jump takes a unit of fuel; the end of the
-- instructions returns.
module _ {W : Type 0} (effect : Effect W) (types : Types) where
  unfoldable pub run : ℕ → List HlirInsn → List HlirInsn → State W → Outcome W
  run zero prog [] σ = returned none σ.world
  run zero prog (i ∷ is) σ = elim (exec effect types i σ) [
    | none ↦ undefined
    | some σ' ↦ elim (next_of i.kind i σ.vals) [
      | next ↦ run zero prog is σ'
      | stuck ↦ undefined
      | goto l ↦ out_of_fuel
      | stop r ↦ returned r σ'.world
    ]
  ]
  run (suc fuel) prog [] σ = returned none σ.world
  run (suc fuel) prog (i ∷ is) σ = elim (exec effect types i σ) [
    | none ↦ undefined
    | some σ' ↦ elim (next_of i.kind i σ.vals) [
      | next ↦ run (suc fuel) prog is σ'
      | stuck ↦ undefined
      | goto l ↦ elim (find_label l prog) [ none ↦ undefined | some rest ↦ run fuel prog rest σ' ]
      | stop r ↦ returned r σ'.world
    ]
  ]

-- The second program does what the first does, wherever C defines the first.
abbrev pub Refines : {W : Type 0} → Outcome W → Outcome W → Type 0
Refines o o' = (o ≡ undefined) ⊎ (o ≡ o')
