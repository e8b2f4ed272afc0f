-- ===== src/Alu/Integer.antt =====
-- `intUnaryExt` and `intBinaryExt` of src/vm/interpreter.cpp.
use uasm.Base.{
  ℕ, ◌+◌, ◌-◌, ◌/◌, ◌%◌, ◌^◌, Bool, ◌||◌, ◌&&◌, not, ltb, ◌==◌, if◌then◌else◌, ok, err, ◌>>=◌,
}
use Prim.Native.Nat.{bit_and, bit_or, bit_xor}
use uasm.Runtime.{RuntimeError, Run}
use uasm.Types.{ValueType, is_float_type}
use uasm.Ast.{Opcode}
use uasm.Ast.Opcode
use uasm.Value.Int128
use uasm.Value.Float.{FloatOps}
use uasm.Value.Defs.{Value, as_int128, from_int128}
use uasm.Alu.Bits.{bit_width, unsigned_of}
use uasm.Alu.Loops.{ipow, uisqrt, ulog2, ulog10, next_pow2, prev_pow2, gcd_loop}
use uasm.Alu.Division.{
  signed_min_of_width, signed_max_of_width, floor_div, ceil_div, euclid_div, euclid_mod,
}

module _ ⦃fl : FloatOps⦄ where
  -- `Value::fromInt128` of the value of a helper that may throw.
  unfoldable pub returning : ValueType → Run ℕ → Run Value
  returning type r = do v ← r; ok (from_int128 type v)

  -- The `switch` of `intUnaryExt`; `x` is the signed and `u` the unsigned operand.
  unfoldable pub int_unary_of : Opcode → ValueType → ℕ → ℕ → Run Value
  unfolding returning
  int_unary_of op type x u =
      if op == Opcode.inc
      then ok (from_int128 type (Int128.add x 1))
      else if op == Opcode.dec
      then ok (from_int128 type (Int128.sub x 1))
      else if op == Opcode.signum
      then ok (from_int128 type (if Int128.is_neg x then Int128.neg 1 else if x == 0 then 0 else 1))
      else if op == Opcode.sqr
      then ok (from_int128 type (Int128.mul x x))
      else if op == Opcode.isqrt
      then (if Int128.is_neg x then err RuntimeError.isqrt_negative else returning type (uisqrt x))
      else if op == Opcode.ilog2
      then (if u == 0 then err RuntimeError.ilog2_zero else returning type (ulog2 u))
      else if op == Opcode.ilog10
      then (if u == 0 then err RuntimeError.ilog10_zero else returning type (ulog10 u))
      else if op == Opcode.ispow2
      then ok (from_int128 type (if not (u == 0) && (bit_and u (u - 1) == 0) then 1 else 0))
      else if op == Opcode.nextpow2
      then returning type (next_pow2 u)
      else if op == Opcode.prevpow2
      then returning type (prev_pow2 u)
      else if op == Opcode.negsat
      then ok (
          from_int128 type (
            if x == signed_min_of_width (bit_width type)
            then signed_max_of_width (bit_width type)
            else Int128.neg x))
      else err RuntimeError.not_integer_unary

  unfoldable pub int_unary_ext : Opcode → ValueType → Value → Run Value
  int_unary_ext op type a =
      if is_float_type type
      then err RuntimeError.requires_integer
      else int_unary_of op type (as_int128 a) (unsigned_of a type)

  -- `static_cast<size_t>(y) >= bits`, in front of which the source tests `y < 0`.
  abbrev pub shift_in_range : ℕ → ValueType → Bool
  shift_in_range y type = not (Int128.is_neg y) && ltb (y % 2 ^ 64) (bit_width type)

  -- The rows of the `switch` of `intBinaryExt` from Udiv to Uavg.
  unfoldable pub int_binary_wide : Opcode → ValueType → ℕ → ℕ → ℕ → ℕ → Run Value → Run Value
  unfolding returning
  int_binary_wide op type x y ux uy others =
      if op == Opcode.udiv
      then (if uy == 0 then err RuntimeError.division_by_zero else ok (from_int128 type (ux / uy)))
      else if op == Opcode.umod
      then (if uy == 0 then err RuntimeError.modulo_by_zero else ok (from_int128 type (ux % uy)))
      else if op == Opcode.sar
      then (if shift_in_range y type
          then ok (from_int128 type (Int128.shr_signed x (y % 2 ^ 64)))
          else err RuntimeError.shift_out_of_range)
      else if op == Opcode.mulhi
      then (if ltb 64 (bit_width type)
          then err RuntimeError.mulhi_128
          else ok (from_int128 type (Int128.shr_signed (Int128.mul x y) (bit_width type))))
      else if op == Opcode.umulhi
      then (if ltb 64 (bit_width type)
          then err RuntimeError.umulhi_128
          else ok (from_int128 type (Int128.mul ux uy / 2 ^ bit_width type)))
      else if op == Opcode.umin
      then ok (from_int128 type (if ltb ux uy then ux else uy))
      else if op == Opcode.umax
      then ok (from_int128 type (if ltb uy ux then ux else uy))
      else if op == Opcode.absdiff
      then ok (from_int128 type (if Int128.lt_signed y x then Int128.sub x y else Int128.sub y x))
      else if op == Opcode.uabsdiff
      then ok (from_int128 type (if ltb uy ux then ux - uy else uy - ux))
      else if op == Opcode.avg
      then returning type (floor_div (Int128.add x y) 2)
      else if op == Opcode.uavg
      then ok (from_int128 type (Int128.add (bit_and ux uy) (bit_xor ux uy / 2)))
      else others

  -- The rows from Nand to Aligndown, and the default.
  unfoldable pub int_binary_rest : Opcode → ValueType → ℕ → ℕ → ℕ → ℕ → Run Value
  unfolding returning
  int_binary_rest op type x y ux uy =
      if op == Opcode.nand
      then ok (from_int128 type (Int128.complement (bit_and x y)))
      else if op == Opcode.nor
      then ok (from_int128 type (Int128.complement (bit_or x y)))
      else if op == Opcode.xnor
      then ok (from_int128 type (Int128.complement (bit_xor x y)))
      else if op == Opcode.andnot
      then ok (from_int128 type (bit_and x (Int128.complement y)))
      else if op == Opcode.ornot
      then ok (from_int128 type (bit_or x (Int128.complement y)))
      else if op == Opcode.powi
      then returning type (ipow x y)
      else if op == Opcode.gcd
      then returning type (gcd_loop (uy + 1) ux uy)
      else if op == Opcode.lcm
      then (if (ux == 0) || (uy == 0)
          then ok (from_int128 type 0)
          else (do p ← gcd_loop (uy + 1) ux uy; ok (from_int128 type (Int128.mul (ux / p) uy))))
      else if op == Opcode.divceil
      then returning type (ceil_div x y)
      else if op == Opcode.divfloor
      then returning type (floor_div x y)
      else if op == Opcode.diveuclid
      then returning type (euclid_div x y)
      else if op == Opcode.modeuclid
      then returning type (euclid_mod x y)
      else if op == Opcode.alignup
      then (if uy == 0
          then err RuntimeError.align_to_zero
          else ok (from_int128 type (Int128.mul (Int128.sub (Int128.add ux uy) 1 / uy) uy)))
      else if op == Opcode.aligndown
      then (if uy == 0
          then err RuntimeError.align_to_zero
          else ok (from_int128 type (Int128.mul (ux / uy) uy)))
      else err RuntimeError.not_integer_binary

  unfoldable pub int_binary_ext : Opcode → ValueType → Value → Value → Run Value
  int_binary_ext op type a b =
      if is_float_type type
      then err RuntimeError.requires_integer
      else int_binary_wide op type (as_int128 a) (as_int128 b) (unsigned_of a type)
          (unsigned_of b type)
          (int_binary_rest op type (as_int128 a) (as_int128 b) (unsigned_of a type)
            (unsigned_of b type))
