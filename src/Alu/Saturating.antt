-- ===== src/Alu/Saturating.antt =====
-- `saturatingOp` and `computeWithOverflow` of src/vm/interpreter.cpp.
use uasm.Base.{ℕ, ◌-◌, ◌%◌, ◌^◌, Bool, ◌||◌, ltb, ◌==◌, if◌then◌else◌, ok, err}
use uasm.Runtime.{RuntimeError, Run}
use uasm.Types.{ValueType, is_float_type}
use uasm.Ast.{Opcode}
use uasm.Ast.Opcode
use uasm.Value.Int128
use uasm.Value.Float.{FloatOps}
use uasm.Value.Defs.{Value, as_int128, from_int128}
use uasm.Alu.Bits.{bit_width, unsigned_of}
use uasm.Alu.Division.{signed_min_of_width, signed_max_of_width, unsigned_max_of_width}
use uasm.Alu.Integer.{shift_in_range}

-- `if (r > hi) r = hi; if (r < lo) r = lo;`
unfoldable pub clamp : ℕ → ℕ → ℕ → ℕ
clamp lo hi r =
    let low = if Int128.lt_signed hi r then hi else r in if Int128.lt_signed low lo then lo else low

-- `r < lo || r > hi`.
unfoldable pub is_outside : ℕ → ℕ → ℕ → Bool
is_outside lo hi r = Int128.lt_signed r lo || Int128.lt_signed hi r

module _ ⦃fl : FloatOps⦄ where
  -- `clamp` to the limits of a type, as a value of it.
  unfoldable pub saturated : ValueType → ℕ → Value
  unfolding clamp
  saturated type r =
      from_int128 type
        (clamp (signed_min_of_width (bit_width type)) (signed_max_of_width (bit_width type)) r)

  -- The `switch` of `saturatingOp`.
  unfoldable pub saturating_of : Opcode → ValueType → ℕ → ℕ → ℕ → ℕ → Run Value
  unfolding saturated
  saturating_of op type x y ux uy =
      if op == Opcode.addsat
      then ok (saturated type (Int128.add x y))
      else if op == Opcode.subsat
      then ok (saturated type (Int128.sub x y))
      else if op == Opcode.mulsat
      then (if ltb 64 (bit_width type)
          then err RuntimeError.mulsat_128
          else ok (saturated type (Int128.mul x y)))
      else if op == Opcode.shlsat
      then (if shift_in_range y type
          then ok (saturated type (Int128.shl x (y % 2 ^ 64)))
          else err RuntimeError.shift_out_of_range)
      else if op == Opcode.uaddsat
      then (let r = Int128.add ux uy in
          let umax = unsigned_max_of_width (bit_width type) in
          ok (from_int128 type (if ltb umax r || ltb r ux then umax else r)))
      else if op == Opcode.usubsat
      then ok (from_int128 type (if ltb ux uy then 0 else ux - uy))
      else if op == Opcode.umulsat
      then (if ltb 64 (bit_width type)
          then err RuntimeError.umulsat_128
          else (let r = Int128.mul ux uy in
              let umax = unsigned_max_of_width (bit_width type) in
              ok (from_int128 type (if ltb umax r then umax else r))))
      else err RuntimeError.not_saturating

  unfoldable pub saturating_op : Opcode → ValueType → Value → Value → Run Value
  saturating_op op type a b =
      if is_float_type type
      then err RuntimeError.requires_integer
      else saturating_of op type (as_int128 a) (as_int128 b) (unsigned_of a type)
          (unsigned_of b type)

  -- A result and whether it is outside the limits of a type.
  unfoldable pub checked : ValueType → ℕ → Bool × ℕ
  unfolding is_outside
  checked type r = (
    is_outside (signed_min_of_width (bit_width type)) (signed_max_of_width (bit_width type)) r,
    r,
  )

  -- The `switch` of `computeWithOverflow`: the Bool that it returns, and `result`.
  unfoldable pub overflow_of : Opcode → ValueType → ℕ → ℕ → ℕ → ℕ → Run (Bool × ℕ)
  unfolding checked
  overflow_of op type x y ux uy =
      if (op == Opcode.addo) || (op == Opcode.addchk)
      then ok (checked type (Int128.add x y))
      else if (op == Opcode.subo) || (op == Opcode.subchk)
      then ok (checked type (Int128.sub x y))
      else if (op == Opcode.mulo) || (op == Opcode.mulchk)
      then (if ltb 64 (bit_width type)
          then err RuntimeError.checked_mul_128
          else ok (checked type (Int128.mul x y)))
      else if op == Opcode.shlo
      then (if shift_in_range y type
          then ok (checked type (Int128.shl x (y % 2 ^ 64)))
          else err RuntimeError.shift_out_of_range)
      else if op == Opcode.nego
      then ok ((x == signed_min_of_width (bit_width type)), Int128.neg x)
      else if (op == Opcode.uaddo) || (op == Opcode.uaddchk)
      then (let r = Int128.add ux uy in
          ok ((ltb (unsigned_max_of_width (bit_width type)) r || ltb r ux), r))
      else if (op == Opcode.usubo) || (op == Opcode.usubchk)
      then ok (ltb ux uy, Int128.sub ux uy)
      else if (op == Opcode.umulo) || (op == Opcode.umulchk)
      then (if ltb 64 (bit_width type)
          then err RuntimeError.checked_mul_128
          else (let r = Int128.mul ux uy in ok (ltb (unsigned_max_of_width (bit_width type)) r, r)))
      else err RuntimeError.not_checked

  unfoldable pub compute_with_overflow : Opcode → ValueType → Value → Value → Run (Bool × ℕ)
  compute_with_overflow op type a b =
      overflow_of op type (as_int128 a) (as_int128 b) (unsigned_of a type) (unsigned_of b type)
