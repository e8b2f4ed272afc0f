-- ===== src/Frame.antt =====
-- `Frame`, `readOperand`, `shouldBranch` and `resolveBlock` of src/vm/interpreter.cpp.
pub mod Tests
use uasm.Base.{
  >>=-eq-ok, zero, lt→ltb, length-append, length-replicate, length-set, arith, ap, sym, subst, ℕ,
  suc, ◌+◌, ◌-◌, ◌%◌, ◌^◌, ◌≤◌, ◌<◌, ◌≡◌, refl, Bool, true, false, not, Option, none, some, List,
  [], ◌∷◌, ◌++◌, length, replicate, get_or, set, leb, ltb, ◌==◌, if◌then◌else◌, Text, text_eq,
  Result, ok, err, ◌>>=◌,
}
use Prim.Native.Nat.{Ordering}
use uasm.Types.{ValueType, i32, is_float_type}
use uasm.Ast.{Operand, Opcode}
use uasm.Ast.Opcode
use uasm.Runtime.{RuntimeError, Run}
use uasm.Alu.Convert.{is_equal, is_less, is_greater}
use uasm.Value.Float.{FloatOps}
use uasm.Value.Defs.{Value, value, sign_extend, from_double, from_int128}

-- `cmpFlag` is its low byte: it is -1, 0 or 1, or a `signed char` that Popf read.
pub record Frame : Type 0 where
  pub regs : List Value
  pub cmp_flag : ℕ
  pub overflow_flag : Bool
  pub carry_flag : Bool
  pub frame_pointer : ℕ
  pub enter_size : ℕ
  pub pc : ℕ
  pub allocas : List ℕ

abbrev pub flag_byte : Ordering → ℕ
flag_byte Ordering.lt = 255
flag_byte Ordering.eq = 0
flag_byte Ordering.gt = 1

abbrev pub flag_order : ℕ → Ordering
flag_order flag =
    if flag == 0 then Ordering.eq else if ltb flag 128 then Ordering.gt else Ordering.lt

-- `Value()`.
abbrev pub default_value : Value
default_value = value i32 0

abbrev pub empty_frame : Frame
empty_frame = record {
  regs = [];
  cmp_flag = 0;
  overflow_flag = false;
  carry_flag = false;
  frame_pointer = 0;
  enter_size = 0;
  pc = 0;
  allocas = [];
}

-- `if (idx >= regs.size()) regs.resize(idx + 1);` with `idx + 1` in `uint32_t`.
unfoldable pub grow : List Value → ℕ → Run (List Value)
grow regs idx =
    if ltb idx (length regs)
    then ok regs
    else if (idx + 1) % 2 ^ 32 == 0
    then err RuntimeError.undefined
    else ok (regs ++ replicate (idx + 1 - length regs) default_value)

-- `reg(idx)` where it is read, and where it is assigned.
unfoldable pub read_reg : Frame → ℕ → Run (Value × Frame)
read_reg f idx = do
  regs ← grow f.regs idx
  ok (get_or regs idx default_value, record f { regs = regs })

unfoldable pub write_reg : Frame → ℕ → Value → Run Frame
write_reg f idx v = do regs ← grow f.regs idx; ok (record f { regs = set regs idx v })

module _ ⦃fl : FloatOps⦄ where
  unfoldable pub read_operand : Frame → Operand → ValueType → Run (Value × Frame)
  read_operand f (Operand.register r) type = read_reg f r
  read_operand f (Operand.immediate_int v) type = ok (
    if is_float_type type
        then from_double type (fl.of_int128 (sign_extend 64 v))
        else from_int128 type (sign_extend 64 v),
    f,
  )
  read_operand f (Operand.immediate_float v) type = ok (from_double type v, f)
  read_operand f (Operand.symbol name) type = err RuntimeError.symbol_as_value
  read_operand f (Operand.label name) type = err RuntimeError.symbol_as_value

-- `flag == 0`, `flag < 0`, `flag > 0` and their negations; any other opcode does not branch.
unfoldable pub should_branch : Opcode → Ordering → Bool
should_branch op flag =
    if op == Opcode.beq
    then is_equal flag
    else if op == Opcode.bne
    then not (is_equal flag)
    else if op == Opcode.blt
    then is_less flag
    else if op == Opcode.bgt
    then is_greater flag
    else if op == Opcode.ble
    then not (is_greater flag)
    else if op == Opcode.bge
    then not (is_less flag)
    else false

-- `blockIndex` as an association list, the last insertion first.
unfoldable pub resolve_block : List (Text × ℕ) → Text → Run ℕ
resolve_block [] label = err RuntimeError.unknown_block
resolve_block ((n, i) ∷ rest) label = if text_eq n label then ok i else resolve_block rest label

length-grown : (regs grown : List Value) (idx : ℕ) → grow regs idx ≡ ok grown → idx < length grown
unfolding grow
length-grown regs grown idx e = ground (
  arith,
  length-append regs (replicate (idx + 1 - length regs) default_value),
  length-replicate (idx + 1 - length regs) default_value,
)

get_or-set : (xs : List Value) (i : ℕ) (v d : Value) → i < length xs → get_or (set xs i v) i d ≡ v
get_or-set [] i v d h = absurd (omega arith)
get_or-set (x ∷ xs) zero v d h = refl
get_or-set (x ∷ xs) (suc i) v d h = get_or-set xs i v d (omega arith)

grow-inside : (regs : List Value) (idx : ℕ) → idx < length regs → grow regs idx ≡ ok regs
unfolding grow
grow-inside regs idx h = rw (lt→ltb idx (length regs) h)

read_reg-set :
    (f : Frame) (regs : List Value) (idx : ℕ) (v : Value)
    → idx < length regs
    → read_reg (record f { regs = set regs idx v }) idx ≡ ok (v, record f { regs = set regs idx v })
unfolding read_reg
read_reg-set f regs idx v h =
    let inside : idx < length (set regs idx v) = rw (length-set regs idx v) h in
    rw (grow-inside (set regs idx v) idx inside, get_or-set regs idx v default_value h) refl

-- If assigning a value to a register succeeds, reading that register gives the value and does not
-- change the frame.
pub read_reg-write_reg :
    (f f' : Frame) (idx : ℕ) (v : Value) → write_reg f idx v ≡ ok f' → read_reg f' idx ≡ ok (v, f')
unfolding read_reg write_reg
read_reg-write_reg f f' idx v e =
    let (regs, grown, done) = >>=-eq-ok (grow f.regs idx) _ e in
    let inside = length-grown f.regs regs idx grown in
    let same : record f { regs = set regs idx v } ≡ f' = cc (done) in
    subst (λ g. read_reg g idx ≡ ok (v, g)) same (read_reg-set f regs idx v inside)
