-- ===== src/Alu/Tests.antt =====
-- The results on the integer operations of src/vm/interpreter.cpp, at concrete operands.
use uasm.Base.{ℕ, ◌+◌, ◌-◌, ◌^◌, ◌≤◌, ◌<◌, ◌≡◌, refl, true, false, ok, err, arith}
use uasm.Types.{i8, u8, size_of_type, is_float_type}
use uasm.Runtime.{RuntimeError}
use uasm.Ast.Opcode
use uasm.Value.Defs.{value, as_int128, as_int128_of, from_int128, from_int128_bits}
use uasm.Value.Tests.{zero_floats}
use uasm.Alu.Arith
use uasm.Alu.Bits.{
  bit_unary_of, bitreverse_generic, bitreverse_loop, mask_to_width, bit, bit_width, unsigned_of,
  bit_unary,
}
use uasm.Alu.Mirror.{bit_unary-bitreverse}
use uasm.Alu.Counting.{IsLeadingZeros, IsTrailingZeros, bit_unary-clz-ctz}
use uasm.Alu.Loops.{next_pow2, next_pow2_loop, uisqrt}
use uasm.Alu.Integer.{int_binary_ext}
use uasm.Alu.Saturating.{saturating_op, compute_with_overflow}
use uasm.Alu.Numeric.{IsGcd, int_binary_ext-gcd, next_pow2-least, next_pow2-endless}
use uasm.Alu.Root.{IsRoot, uisqrt-IsRoot}
use uasm.Alu.Modular.{arith-add_sub}
use uasm.Alu.Signed.{biased, sum_within, difference_within}
use uasm.Alu.Saturation.{saturating_op-signed, saturating_op-unsigned}
use uasm.Alu.Overflow.{compute_with_overflow-signed, compute_with_overflow-unsigned}

int_binary_ext-gcd_example :
    (g : ℕ) × (int_binary_ext ⦃fl = zero_floats⦄ Opcode.gcd u8 (value u8 12) (value u8 18)
      ≡ ok (from_int128 ⦃fl = zero_floats⦄ u8 g))
    × IsGcd g
        (unsigned_of ⦃fl = zero_floats⦄ (value u8 12) u8)
        (unsigned_of ⦃fl = zero_floats⦄ (value u8 18) u8)
unfolding is_float_type
int_binary_ext-gcd_example =
    int_binary_ext-gcd ⦃fl = zero_floats⦄ u8 (value u8 12) (value u8 18) refl

next_pow2-least_example : (k : ℕ) × (next_pow2 1000 ≡ ok (2 ^ k)) × (1000 ≤ 2 ^ k) × (2 ^ k < 2000)
next_pow2-least_example = next_pow2-least 1000 (omega arith) (omega arith)

next_pow2-endless_example : next_pow2_loop 200 (2 ^ 127 + 1) 1 ≡ err RuntimeError.undefined
next_pow2-endless_example = next_pow2-endless 200 (2 ^ 127 + 1) (omega arith)

uisqrt-IsRoot_example : (r : ℕ) × (uisqrt 1000 ≡ ok r) × IsRoot r 1000
uisqrt-IsRoot_example = uisqrt-IsRoot 1000 (omega arith)

arith-add_sub_example :
    (Arith.arith ⦃fl = zero_floats⦄ Opcode.add i8 (value i8 127) (value i8 1) ≡ ok (value i8 128))
    × (Arith.arith ⦃fl = zero_floats⦄ Opcode.sub i8 (value i8 127) (value i8 1) ≡ ok (value i8 126))
unfolding size_of_type
arith-add_sub_example =
    arith-add_sub ⦃fl = zero_floats⦄ i8 127 1 tt (omega arith) (omega arith) (omega arith)

saturating_op-signed_example :
    ((r : ℕ) × (saturating_op ⦃fl = zero_floats⦄ Opcode.addsat i8 (value i8 100) (value i8 100)
        ≡ ok (value i8 r))
      × (biased 8 r ≡ sum_within 8 100 100))
    × ((r : ℕ) × (saturating_op ⦃fl = zero_floats⦄ Opcode.subsat i8 (value i8 100) (value i8 100)
          ≡ ok (value i8 r))
        × (biased 8 r ≡ difference_within 8 100 100))
unfolding size_of_type
saturating_op-signed_example =
    saturating_op-signed ⦃fl = zero_floats⦄ i8 100 100 tt (omega arith) (omega arith)

saturating_op-unsigned_example :
    (saturating_op ⦃fl = zero_floats⦄ Opcode.uaddsat u8 (value u8 200) (value u8 100)
      ≡ ok (value u8 255))
    × (saturating_op ⦃fl = zero_floats⦄ Opcode.usubsat u8 (value u8 200) (value u8 100)
        ≡ ok (value u8 100))
unfolding size_of_type
saturating_op-unsigned_example =
    saturating_op-unsigned ⦃fl = zero_floats⦄ u8 200 100 tt (omega arith) (omega arith)

compute_with_overflow-signed_example :
    (r : ℕ) × (compute_with_overflow ⦃fl = zero_floats⦄ Opcode.addo i8 (value i8 100) (value i8 100)
      ≡ ok (true, r))
    × (from_int128 ⦃fl = zero_floats⦄ i8 r ≡ value i8 200)
unfolding size_of_type
compute_with_overflow-signed_example =
    compute_with_overflow-signed ⦃fl = zero_floats⦄ i8 100 100 tt (omega arith) (omega arith)

compute_with_overflow-unsigned_example :
    ((r : ℕ) × (compute_with_overflow ⦃fl = zero_floats⦄ Opcode.uaddo u8 (value u8 5) (value u8 6)
        ≡ ok (false, r))
      × (from_int128 ⦃fl = zero_floats⦄ u8 r ≡ value u8 11))
    × ((r : ℕ) × (compute_with_overflow ⦃fl = zero_floats⦄ Opcode.usubo u8 (value u8 5) (value u8 6)
          ≡ ok (true, r))
        × (from_int128 ⦃fl = zero_floats⦄ u8 r ≡ value u8 255))
unfolding size_of_type
compute_with_overflow-unsigned_example =
    compute_with_overflow-unsigned ⦃fl = zero_floats⦄ u8 5 6 tt (omega arith) (omega arith)

bit_unary-clz-ctz_example :
    ((c : ℕ) × (bit_unary ⦃fl = zero_floats⦄ Opcode.clz u8 (value u8 40) ≡ ok (value u8 c))
      × IsLeadingZeros (bit_width u8) 40 c)
    × ((c : ℕ) × (bit_unary ⦃fl = zero_floats⦄ Opcode.ctz u8 (value u8 40) ≡ ok (value u8 c))
        × IsTrailingZeros (bit_width u8) 40 c)
unfolding size_of_type
bit_unary-clz-ctz_example = bit_unary-clz-ctz ⦃fl = zero_floats⦄ u8 40 tt (omega arith)

-- The bits of 40 in the opposite order are those of 20.
reversed_forty : bit_unary ⦃fl = zero_floats⦄ Opcode.bitreverse u8 (value u8 40) ≡ ok (value u8 20)
unfolding bit_unary bit_unary_of bitreverse_generic bitreverse_loop unsigned_of mask_to_width
    bit_width size_of_type is_float_type as_int128 as_int128_of from_int128 from_int128_bits
reversed_forty = refl

bit_unary-bitreverse_example :
    (r : ℕ) × (bit_unary ⦃fl = zero_floats⦄ Opcode.bitreverse u8 (value u8 40) ≡ ok (value u8 r))
    × (r < 2 ^ bit_width u8)
    × ((i : ℕ) → i < bit_width u8 → bit r i ≡ bit 40 (bit_width u8 - 1 - i))
unfolding size_of_type
bit_unary-bitreverse_example = bit_unary-bitreverse ⦃fl = zero_floats⦄ u8 40 tt (omega arith)
