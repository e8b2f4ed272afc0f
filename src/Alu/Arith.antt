-- ===== src/Alu/Arith.antt =====
-- `arith`, `bitwise`, `bitwiseNot`, `shift`, `negate`, `compare`, `absValue` and `minMaxValue`.
-- The flag of a comparison, -1, 0 or 1 in the source, is `lt`, `eq` or `gt`.
use uasm.Base.{ℕ, ◌*◌, Bool, true, false, ◌||◌, leb, ◌==◌, if◌then◌else◌, ok, err}
use Prim.Native.Nat.{Ordering, bit_and, bit_or, bit_xor}
use uasm.Runtime.{RuntimeError, Run}
use uasm.Types.{ValueType, size_of_type, is_float_type}
use uasm.Ast.{Opcode}
use uasm.Ast.Opcode
use uasm.Value.Int128
use uasm.Value.Float.{FloatOps}
use uasm.Value.Defs.{Value, as_double, as_int128, from_double, from_int128}

module _ ⦃fl : FloatOps⦄ where
  -- The `switch` of `arith` on float types.
  unfoldable pub float_arith : Opcode → ValueType → ℕ → ℕ → Run Value
  float_arith op type x y =
      if op == Opcode.add
      then ok (from_double type (fl.add x y))
      else if op == Opcode.sub
      then ok (from_double type (fl.sub x y))
      else if op == Opcode.mul
      then ok (from_double type (fl.mul x y))
      else if op == Opcode.div
      then (if fl.is_zero y
          then err RuntimeError.division_by_zero
          else ok (from_double type (fl.div x y)))
      else err RuntimeError.not_arithmetic

  -- The `switch` of `arith` on the other types.
  unfoldable pub int_arith : Opcode → ValueType → ℕ → ℕ → Run Value
  int_arith op type x y =
      if op == Opcode.add
      then ok (from_int128 type (Int128.add x y))
      else if op == Opcode.sub
      then ok (from_int128 type (Int128.sub x y))
      else if op == Opcode.mul
      then ok (from_int128 type (Int128.mul x y))
      else if op == Opcode.div
      then (if y == 0
          then err RuntimeError.division_by_zero
          else ok (from_int128 type (Int128.div_signed x y)))
      else if op == Opcode.modulo
      then (if y == 0
          then err RuntimeError.modulo_by_zero
          else ok (from_int128 type (Int128.mod_signed x y)))
      else err RuntimeError.not_arithmetic

  unfoldable pub arith : Opcode → ValueType → Value → Value → Run Value
  arith op type a b =
      if is_float_type type
      then float_arith op type (as_double a) (as_double b)
      else int_arith op type (as_int128 a) (as_int128 b)

  unfoldable pub bitwise : Opcode → ValueType → Value → Value → Run Value
  bitwise op type a b =
      if is_float_type type
      then err RuntimeError.bitwise_on_float
      else if op == Opcode.and
      then ok (from_int128 type (bit_and (as_int128 a) (as_int128 b)))
      else if op == Opcode.or
      then ok (from_int128 type (bit_or (as_int128 a) (as_int128 b)))
      else if op == Opcode.xor
      then ok (from_int128 type (bit_xor (as_int128 a) (as_int128 b)))
      else err RuntimeError.not_bitwise

  unfoldable pub bitwise_not : ValueType → Value → Run Value
  bitwise_not type a =
      if is_float_type type
      then err RuntimeError.bitwise_on_float
      else ok (from_int128 type (Int128.complement (as_int128 a)))

  -- `n` is the amount; the source's test also refuses a negative one.
  unfoldable pub shift_by : Opcode → ValueType → ℕ → ℕ → Run Value
  shift_by op type x n =
      if Int128.is_neg n || leb (size_of_type type * 8) n
      then err RuntimeError.shift_out_of_range
      else if op == Opcode.shl
      then ok (from_int128 type (Int128.shl x n))
      else ok (from_int128 type (Int128.shr_signed x n))

  unfoldable pub shift : Opcode → ValueType → Value → Value → Run Value
  shift op type a amount =
      if is_float_type type
      then err RuntimeError.shift_on_float
      else shift_by op type (as_int128 a) (as_int128 amount)

  unfoldable pub negate : ValueType → Value → Value
  negate type a =
      if is_float_type type
      then from_double type (fl.neg (as_double a))
      else from_int128 type (Int128.neg (as_int128 a))

  -- -1, 0 or 1 from `x < y` and `x > y`.
  unfoldable pub flag_of : Bool → Bool → Ordering
  flag_of less greater = if less then Ordering.lt else if greater then Ordering.gt else Ordering.eq

  unfoldable pub compare : ValueType → Value → Value → Ordering
  unfolding flag_of
  compare type a b =
      if is_float_type type
      then flag_of (fl.lt (as_double a) (as_double b)) (fl.lt (as_double b) (as_double a))
      else flag_of (Int128.lt_signed (as_int128 a) (as_int128 b))
          (Int128.lt_signed (as_int128 b) (as_int128 a))

  unfoldable pub abs_value : ValueType → Value → Value
  abs_value type a =
      if is_float_type type
      then from_double type (fl.fabs (as_double a))
      else from_int128 type
          (if Int128.is_neg (as_int128 a) then Int128.neg (as_int128 a) else as_int128 a)

  -- `(op == Opcode::Min) == aLess`.
  unfoldable pub takes_first : Opcode → Bool → Bool
  takes_first op less = if op == Opcode.min then less else if less then false else true

  unfoldable pub min_max_value : Opcode → ValueType → Value → Value → Value
  unfolding takes_first
  min_max_value op type a b =
      if is_float_type type
      then from_double type
          (if takes_first op (fl.lt (as_double a) (as_double b)) then as_double a else as_double b)
      else from_int128 type (
          if takes_first op (Int128.lt_signed (as_int128 a) (as_int128 b))
          then as_int128 a
          else as_int128 b)
