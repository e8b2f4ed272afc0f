-- ===== src/Alu/Convert.antt =====
-- `compareResult`, `unsignedCompare` and `convertOp` of src/vm/interpreter.cpp.
use uasm.Base.{ℕ, ◌-◌, Bool, true, false, ◌||◌, ◌&&◌, not, ltb, ◌==◌, if◌then◌else◌, ok, err}
use Prim.Native.Nat.{Ordering, bit_or}
use uasm.Runtime.{RuntimeError, Run}
use uasm.Types.{ValueType, is_float_type}
use uasm.Ast.{Opcode}
use uasm.Ast.Opcode
use uasm.Value.Int128
use uasm.Value.Float.{FloatOps}
use uasm.Value.Defs.{Value, value, as_double, as_int128, from_double, from_int128, bitcast}
use uasm.Alu.Bits.{bit, bit_width, unsigned_of}
use uasm.Alu.Arith.{flag_of}
use uasm.Alu.Division.{unsigned_max_of_width}

-- `flag == 0`, `flag < 0` and `flag > 0`.
abbrev pub is_equal : Ordering → Bool
is_equal Ordering.lt = false
is_equal Ordering.eq = true
is_equal Ordering.gt = false

abbrev pub is_less : Ordering → Bool
is_less Ordering.lt = true
is_less Ordering.eq = false
is_less Ordering.gt = false

abbrev pub is_greater : Ordering → Bool
is_greater Ordering.lt = false
is_greater Ordering.eq = false
is_greater Ordering.gt = true

unfoldable pub compare_result : Opcode → Ordering → Run Bool
compare_result op flag =
    if (op == Opcode.cmpeq) || (op == Opcode.seteq) || (op == Opcode.breq)
    then ok (is_equal flag)
    else if (op == Opcode.cmpne) || (op == Opcode.setne) || (op == Opcode.brne)
    then ok (not (is_equal flag))
    else if (op == Opcode.cmplt)
        || (op == Opcode.setlt)
        || (op == Opcode.brlt)
        || (op == Opcode.ucmplt)
        || (op == Opcode.ubrlt)
    then ok (is_less flag)
    else if (op == Opcode.cmpgt)
        || (op == Opcode.setgt)
        || (op == Opcode.brgt)
        || (op == Opcode.ucmpgt)
        || (op == Opcode.ubrgt)
    then ok (is_greater flag)
    else if (op == Opcode.cmple)
        || (op == Opcode.setle)
        || (op == Opcode.brle)
        || (op == Opcode.ucmple)
        || (op == Opcode.ubrle)
    then ok (not (is_greater flag))
    else if (op == Opcode.cmpge)
        || (op == Opcode.setge)
        || (op == Opcode.brge)
        || (op == Opcode.ucmpge)
        || (op == Opcode.ubrge)
    then ok (not (is_less flag))
    else err RuntimeError.not_comparison

module _ ⦃fl : FloatOps⦄ where
  unfoldable pub unsigned_compare : ValueType → Value → Value → Ordering
  unfolding flag_of
  unsigned_compare type a b =
      flag_of (ltb (unsigned_of a type) (unsigned_of b type))
        (ltb (unsigned_of b type) (unsigned_of a type))

  -- The row Sext: the masked operand with its sign bit spread upwards.
  unfoldable pub sext_raw : ℕ → ℕ → ℕ
  unfolding unsigned_max_of_width
  sext_raw raw from_bits =
      if ltb from_bits 128 && (bit raw (from_bits - 1) == 1)
      then bit_or raw (Int128.complement (unsigned_max_of_width from_bits))
      else raw

  unfoldable pub convert_op : Opcode → ValueType → ValueType → Value → Run Value
  unfolding sext_raw
  convert_op op from to a =
      if op == Opcode.sext
      then ok (from_int128 to (sext_raw (unsigned_of a from) (bit_width from)))
      else if (op == Opcode.zext) || (op == Opcode.itrunc)
      then ok (from_int128 to (unsigned_of a from))
      else if (op == Opcode.fpext) || (op == Opcode.fptrunc)
      then (if is_float_type from && is_float_type to
          then ok (from_double to (as_double a))
          else err RuntimeError.requires_float_types)
      else if op == Opcode.fptosi
      then (if is_float_type from
          then ok (from_int128 to (fl.to_int128 (as_double a)))
          else err RuntimeError.fptosi_source)
      else if op == Opcode.fptoui
      then (if is_float_type from
          then ok (
              from_int128 to
                (fl.to_uint128 (if fl.lt (as_double a) fl.zero then fl.zero else as_double a)))
          else err RuntimeError.fptoui_source)
      else if op == Opcode.sitofp
      then (if is_float_type to
          then ok (from_double to (fl.of_int128 (as_int128 a)))
          else err RuntimeError.sitofp_destination)
      else if op == Opcode.uitofp
      then (if is_float_type to
          then ok (from_double to (fl.of_uint128 (unsigned_of a from)))
          else err RuntimeError.uitofp_destination)
      else if op == Opcode.bitconv
      then ok (bitcast to (value from a.bits))
      else err RuntimeError.not_conversion
