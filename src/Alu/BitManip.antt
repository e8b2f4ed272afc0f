-- ===== src/Alu/BitManip.antt =====
-- `bextGeneric` to `bitManipBinary` of src/vm/interpreter.cpp.
-- Each loop builds its result from 0 with one `|=` a round; the recursion here goes on from the
-- result so far, as the source does. A shift of a 128-bit number by 128 or more, undefined in the
-- source and reachable on the vector types only, gives 0.
use uasm.Base.{
  ℕ, zero, suc, ◌+◌, ◌-◌, ◌*◌, ◌/◌, ◌%◌, ◌^◌, ◌||◌, leb, ltb, ◌==◌, if◌then◌else◌, ok, err,
}
use Prim.Native.Nat.{bit_and, bit_or, bit_xor}
use uasm.Runtime.{RuntimeError, Run}
use uasm.Types.{ValueType, is_float_type}
use uasm.Ast.{Opcode}
use uasm.Ast.Opcode
use uasm.Value.Int128
use uasm.Value.Float.{FloatOps}
use uasm.Value.Defs.{Value, as_int128, from_int128}
use uasm.Alu.Bits.{
  bit, bit_width, mask_to_width, unsigned_of, popcount_generic, clz_generic, ctz_generic,
  bitreverse_generic, bswap_generic,
}

-- The loop of `bextGeneric` from `i`, with `rounds` bits left.
unfoldable pub bext_loop : ℕ → ℕ → ℕ → ℕ → ℕ → ℕ → ℕ
bext_loop v mask r k i zero = r
bext_loop v mask r k i (suc rounds) =
    bext_loop v mask
      (if bit mask i == 1 then (if bit v i == 1 then bit_or r (Int128.shl 1 k) else r) else r)
      (if bit mask i == 1 then k + 1 else k) (i + 1) rounds

unfoldable pub bext_generic : ℕ → ℕ → ℕ → ℕ
unfolding bext_loop
bext_generic v mask bits = bext_loop v mask 0 0 0 bits

-- The loop of `bdepGeneric`.
unfoldable pub bdep_loop : ℕ → ℕ → ℕ → ℕ → ℕ → ℕ → ℕ
bdep_loop v mask r k i zero = r
bdep_loop v mask r k i (suc rounds) =
    bdep_loop v mask
      (if bit mask i == 1 then (if bit v k == 1 then bit_or r (Int128.shl 1 i) else r) else r)
      (if bit mask i == 1 then k + 1 else k) (i + 1) rounds

unfoldable pub bdep_generic : ℕ → ℕ → ℕ → ℕ
unfolding bdep_loop
bdep_generic v mask bits = bdep_loop v mask 0 0 0 bits

unfoldable pub low_mask : ℕ → ℕ
low_mask n =
    if n == 0 then 0 else if leb 128 n then Int128.complement 0 else Int128.sub (Int128.shl 1 n) 1

-- The loop of `interleaveBits`; it runs while `i * 2 < bits`, so for half of `bits`, rounded up.
unfoldable pub interleave_loop : ℕ → ℕ → ℕ → ℕ → ℕ
interleave_loop v r i zero = r
interleave_loop v r i (suc rounds) =
    interleave_loop v (if bit v i == 1 then bit_or r (Int128.shl 1 (i * 2)) else r) (i + 1) rounds

unfoldable pub interleave_bits : ℕ → ℕ → ℕ
unfolding interleave_loop
interleave_bits v bits = interleave_loop v 0 0 ((bits + 1) / 2)

unfoldable pub deinterleave_loop : ℕ → ℕ → ℕ → ℕ → ℕ
deinterleave_loop v r i zero = r
deinterleave_loop v r i (suc rounds) =
    deinterleave_loop v (if bit v (i * 2) == 1 then bit_or r (Int128.shl 1 i) else r) (i + 1) rounds

unfoldable pub deinterleave_bits : ℕ → ℕ → ℕ
unfolding deinterleave_loop
deinterleave_bits v bits = deinterleave_loop v 0 0 ((bits + 1) / 2)

-- `for (size_t s = 1; s < bits; s <<= 1) r ^= r >> s;`: 2 ^ 10 is above every width.
unfoldable pub ungray_loop : ℕ → ℕ → ℕ → ℕ → ℕ
ungray_loop bits r s zero = r
ungray_loop bits r s (suc fuel) =
    let rest = ungray_loop bits (bit_xor r (r / 2 ^ s)) (s * 2) fuel in
    if ltb s bits then rest else r

-- The loop of Clrsb, where the bits below `i` are left.
unfoldable pub clrsb_loop : ℕ → ℕ → ℕ → ℕ → ℕ
clrsb_loop u sign n zero = n
clrsb_loop u sign n (suc i) =
    let rest = clrsb_loop u sign (n + 1) i in if bit u i == sign then rest else n

-- The loop of Nibbleswap.
unfoldable pub nibbleswap_loop : ℕ → ℕ → ℕ → ℕ → ℕ → ℕ
nibbleswap_loop v nibbles r i zero = r
nibbleswap_loop v nibbles r i (suc rounds) =
    nibbleswap_loop v nibbles
      (bit_or r (Int128.shl (v / 2 ^ (i * 4) % 2 ^ 4) ((nibbles - 1 - i) * 4))) (i + 1) rounds

-- The loop of Bitrev8.
unfoldable pub bitrev8_loop : ℕ → ℕ → ℕ → ℕ → ℕ
unfolding bitreverse_generic
bitrev8_loop v r b zero = r
bitrev8_loop v r b (suc rounds) =
    bitrev8_loop v (bit_or r (Int128.shl (bitreverse_generic (v / 2 ^ (b * 8) % 2 ^ 8) 8) (b * 8)))
      (b + 1) rounds

-- Bswap16 and Bswap32, of the low `bytes` bytes.
unfoldable pub bswap_low : ℕ → ℕ → ℕ
unfolding bswap_generic
bswap_low v bytes =
    bit_or (bit_and v (Int128.complement (2 ^ (8 * bytes) - 1)))
      (bswap_generic (v % 2 ^ (8 * bytes)) bytes)

module _ ⦃fl : FloatOps⦄ where
  -- The `switch` of `bitManipUnary` up to Bitdeinterleave.
  unfoldable pub manip_unary_of : Opcode → ValueType → ℕ → ℕ → Run Value → Run Value
  manip_unary_of op type v bits others =
      if op == Opcode.blsi
      then ok (from_int128 type (bit_and v (Int128.add (Int128.complement v) 1)))
      else if op == Opcode.blsr
      then ok (from_int128 type (bit_and v (Int128.sub v 1)))
      else if op == Opcode.blsmsk
      then ok (from_int128 type (bit_xor v (Int128.sub v 1)))
      else if op == Opcode.gray
      then ok (from_int128 type (bit_xor v (v / 2)))
      else if op == Opcode.ungray
      then ok (from_int128 type (ungray_loop bits v 1 10))
      else if op == Opcode.clrsb
      then ok (from_int128 type (clrsb_loop v (bit v (bits - 1)) 0 (bits - 1)))
      else if op == Opcode.zerocount
      then ok (from_int128 type (bits - popcount_generic v bits))
      else if op == Opcode.hibit
      then ok (from_int128 type (if v == 0 then Int128.neg 1 else bits - 1 - clz_generic v bits))
      else if op == Opcode.lobit
      then ok (from_int128 type (if v == 0 then Int128.neg 1 else ctz_generic v bits))
      else if op == Opcode.msbmask
      then ok (from_int128 type (if bit v (bits - 1) == 1 then Int128.neg 1 else 0))
      else if op == Opcode.nibbleswap
      then ok (from_int128 type (nibbleswap_loop v (bits / 4) 0 0 (bits / 4)))
      else if op == Opcode.bitrev8
      then ok (from_int128 type (bitrev8_loop v 0 0 (bits / 8)))
      else if op == Opcode.bswap16
      then ok (from_int128 type (bswap_low v 2))
      else if op == Opcode.bswap32
      then ok (from_int128 type (bswap_low v 4))
      else if op == Opcode.bswap64
      then ok (from_int128 type (bswap_generic v 8))
      else if op == Opcode.bitinterleave
      then ok (from_int128 type (interleave_bits v bits))
      else if op == Opcode.bitdeinterleave
      then ok (from_int128 type (deinterleave_bits v bits))
      else others

  -- The rows Lowmask and Himask, and the default; `n` is the operand, read as signed.
  unfoldable pub mask_of : Opcode → ValueType → ℕ → ℕ → Run Value
  mask_of op type n bits =
      if op == Opcode.lowmask
      then (if Int128.is_neg n
          then err RuntimeError.lowmask_negative
          else ok (from_int128 type (low_mask (n % 2 ^ 64))))
      else if op == Opcode.himask
      then (if Int128.is_neg n || ltb bits (n % 2 ^ 64)
          then err RuntimeError.himask_out_of_range
          else ok (
              from_int128 type
                (mask_to_width (Int128.complement (low_mask (bits - n % 2 ^ 64))) bits)))
      else err RuntimeError.not_manip_unary

  unfoldable pub bit_manip_unary : Opcode → ValueType → Value → Run Value
  bit_manip_unary op type a =
      if is_float_type type
      then err RuntimeError.requires_integer
      else manip_unary_of op type (unsigned_of a type) (bit_width type)
          (mask_of op type (as_int128 a) (bit_width type))

  -- The row Sextbit, where `w` is the width.
  unfoldable pub sext_bit : ℕ → ℕ → ℕ → ℕ
  sext_bit x w bits =
      let masked = bit_and x (low_mask w) in
      if bit masked (w - 1) == 1
      then bit_or masked (mask_to_width (Int128.complement (low_mask w)) bits)
      else masked

  -- The `switch` of `bitManipBinary`.
  unfoldable pub manip_binary_of : Opcode → ValueType → ℕ → ℕ → ℕ → ℕ → Run Value
  unfolding sext_bit
  manip_binary_of op type x y n bits =
      if op == Opcode.bext
      then ok (from_int128 type (bext_generic x y bits))
      else if op == Opcode.bdep
      then ok (from_int128 type (bdep_generic x y bits))
      else if op == Opcode.sextbit
      then (if ((n == 0) || Int128.is_neg n) || ltb bits (n % 2 ^ 64)
          then err RuntimeError.sextbit_out_of_range
          else ok (from_int128 type (sext_bit x (n % 2 ^ 64) bits)))
      else if op == Opcode.zextbit
      then (if Int128.is_neg n || ltb bits (n % 2 ^ 64)
          then err RuntimeError.zextbit_out_of_range
          else ok (from_int128 type (bit_and x (low_mask (n % 2 ^ 64)))))
      else err RuntimeError.not_manip_binary

  unfoldable pub bit_manip_binary : Opcode → ValueType → Value → Value → Run Value
  bit_manip_binary op type a b =
      if is_float_type type
      then err RuntimeError.requires_integer
      else manip_binary_of op type (unsigned_of a type) (unsigned_of b type) (as_int128 b)
          (bit_width type)
