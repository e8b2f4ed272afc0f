-- ===== src/Interp/Machine.antt =====
-- What an instruction of src/vm/interpreter.cpp works on: the store of the class `Interpreter` and
-- the frame of the running call; and the actions that the cases of `Interpreter::call` consist of.
-- `frame.reg(instr.dest) = e` evaluates e first, as it does from C++17 on.
use uasm.Base.{ℕ, ◌%◌, ◌^◌, Bool, none, some, get_elem?, ok, err, if◌then◌else◌}
use uasm.Runtime.{RuntimeError, Run}
use uasm.Types.{ValueType, i32, ptr, is_float_type}
use uasm.Ast.{Operand, Instruction}
use uasm.Value.Float.{FloatOps}
use uasm.Value.Defs.{Value, value, as_int128, as_double, from_int128}
use uasm.Memory.Defs.{Store, check_range}
use uasm.Frame.{Frame, read_operand, write_reg}

pub record Machine : Type 0 where
  pub store : Store
  pub frame : Frame

abbrev pub Exec : Type 0 → Type 0
Exec A = Machine → Run (A × Machine)

infixl 5 ◌>>=◌
unfoldable pub ◌>>=◌ : {A B : Type 0} → Exec A → (A → Exec B) → Exec B
◌>>=◌ act next m = elim (act m) [ err e ↦ err e | ok (a, m') ↦ next a m' ]

infixl 5 ◌>>◌
abbrev pub ◌>>◌ : {B : Type 0} → Exec (Unit {0}) → Exec B → Exec B
act >> next = act >>= λ _. next

unfoldable pub pure : {A : Type 0} → A → Exec A
pure a m = ok (a, m)

-- A helper that throws or returns, and does not see the machine.
unfoldable pub lift : {A : Type 0} → Run A → Exec A
lift r m = elim r [ err e ↦ err e | ok a ↦ ok (a, m) ]

abbrev pub throw : {A : Type 0} → RuntimeError → Exec A
throw e = lift (err e)

-- `if (bad) throw e;`
abbrev pub throw_if : Bool → RuntimeError → Exec (Unit {0})
throw_if bad e = lift (if bad then err e else ok tt)

unfoldable pub get_frame : Exec Frame
get_frame m = ok (m.frame, m)

unfoldable pub put_frame : Frame → Exec (Unit {0})
put_frame f m = ok (tt, record m { frame = f })

unfoldable pub get_store : Exec Store
get_store m = ok (m.store, m)

unfoldable pub put_store : Store → Exec (Unit {0})
put_store s m = ok (tt, record m { store = s })

-- A helper that changes the store, and one that also returns.
unfoldable pub change : (Store → Run Store) → Exec (Unit {0})
change f = do s ← get_store; s' ← lift (f s); put_store s'

unfoldable pub change_with : {A : Type 0} → (Store → Run (A × Store)) → Exec A
change_with f = do s ← get_store; (a, s') ← lift (f s); put_store s'; pure a

-- A helper that reads the store.
unfoldable pub query : {A : Type 0} → (Store → Run A) → Exec A
query f = do s ← get_store; lift (f s)

-- `checkRange`.
abbrev pub in_range : ℕ → ℕ → Exec (Unit {0})
in_range addr len = lift (check_range addr len)

-- `instr.operands[i]`; past the end, where the source reads out of bounds, it is undefined.
abbrev pub operand_at : Instruction → ℕ → Run Operand
operand_at instr i = elim (get_elem? instr.operands i) [
  | none ↦ err RuntimeError.undefined
  | some op ↦ ok op
]

-- `frame.reg(instr.dest) = v`.
unfoldable pub assign : Instruction → Value → Exec (Unit {0})
assign instr v = do f ← get_frame; f' ← lift (write_reg f instr.dest v); put_frame f'

-- `makeBool` and `makePtr`.
module _ ⦃fl : FloatOps⦄ where
  unfoldable pub make_bool : Bool → Value
  make_bool b = from_int128 i32 (if b then 1 else 0)

abbrev pub make_ptr : ℕ → Value
make_ptr addr = value ptr (addr % 2 ^ 64)

module _ ⦃fl : FloatOps⦄ where
  -- `readOperand(frame, op, type)`.
  unfoldable pub read : Operand → ValueType → Exec Value
  read op type = do f ← get_frame; (v, f') ← lift (read_operand f op type); put_frame f'; pure v

  -- `readOperand(frame, instr.operands[i], type)`.
  unfoldable pub operand : Instruction → ℕ → ValueType → Exec Value
  operand instr i type = do op ← lift (operand_at instr i); read op type

  -- The same at `instr.type`.
  abbrev pub arg : Instruction → ℕ → Exec Value
  arg instr i = operand instr i instr.type

  -- `readOperand(…, Type::Ptr).bits.ptr`.
  unfoldable pub pointer : Instruction → ℕ → Exec ℕ
  pointer instr i = do v ← operand instr i ptr; pure (v.bits % 2 ^ 64)

  -- `readOperand(…, type).asInt128()`.
  unfoldable pub number : Instruction → ℕ → ValueType → Exec ℕ
  number instr i type = do v ← operand instr i type; pure (as_int128 v)

  -- `static_cast<uint64_t>(readOperand(…, instr.type).asInt128())`.
  unfoldable pub word : Instruction → ℕ → Exec ℕ
  word instr i = do n ← number instr i instr.type; pure (n % 2 ^ 64)

  -- `static_cast<uint8_t>(… & 0xFF)`.
  unfoldable pub byte : Instruction → ℕ → Exec ℕ
  byte instr i = do n ← number instr i instr.type; pure (n % 2 ^ 8)

  -- `readOperand(…, instr.type).asDouble()`.
  unfoldable pub double : Instruction → ℕ → Exec ℕ
  double instr i = do v ← arg instr i; pure (as_double v)

-- `requireInt` and `requireFloat`.
abbrev pub require_int : ValueType → Exec (Unit {0})
require_int type = throw_if (is_float_type type) RuntimeError.requires_integer

abbrev pub require_float : ValueType → Exec (Unit {0})
require_float type = lift (if is_float_type type then ok tt else err RuntimeError.requires_float)
