-- ===== src/Alu/Saturation.antt =====
-- `saturatingOp` of src/vm/interpreter.cpp against the exact results.
use uasm.Base.{ℕ, ◌+◌, ◌-◌, ◌*◌, ◌^◌, ◌<◌, ◌≡◌, refl, ◌||◌, ltb, if◌then◌else◌, ok, arith}
use uasm.Types.{ValueType, i8, u8, i16, u16, i32, u32, i64, u64, i128, u128, ptr, size_of_type}
use uasm.Ast.Opcode
use uasm.Value.Int128
use uasm.Value.Float.{FloatOps}
use uasm.Value.Defs.{value, as_int128_of, as_int128, from_int128_bits, from_int128}
use uasm.Value.Conversions.{IsInteger, FitsType}
use uasm.Alu.Bits.{bit_width}
use uasm.Alu.Division.{signed_min_of_width, signed_max_of_width, unsigned_max_of_width}
use uasm.Alu.Saturating.{clamp, saturated, saturating_of, saturating_op}
use uasm.Alu.Modular.{IsInteger-float}
use uasm.Alu.Signed.{
  biased, least, IsSigned, IsSigned-float, sum_within, difference_within, unsigned_of-value,
}

module _ ⦃fl : FloatOps⦄ where
  addsat_bits :
      (t : ValueType) (x y : ℕ)
      → IsSigned t
      → x < 2 ^ (8 * size_of_type t)
      → y < 2 ^ (8 * size_of_type t)
      → biased (8 * size_of_type t) (
          from_int128_bits t (
            clamp
              (signed_min_of_width (bit_width t))
              (signed_max_of_width (bit_width t))
              (Int128.add (as_int128_of t x) (as_int128_of t y))))
        ≡ sum_within (8 * size_of_type t) x y
  unfolding from_int128_bits as_int128_of size_of_type clamp signed_min_of_width signed_max_of_width
      bit_width
  addsat_bits i8 x y k h h' = ground arith
  addsat_bits i16 x y k h h' = ground arith
  addsat_bits i32 x y k h h' = ground arith
  addsat_bits i64 x y k h h' = ground arith
  addsat_bits _ x y k h h' = absurd k

  subsat_bits :
      (t : ValueType) (x y : ℕ)
      → IsSigned t
      → x < 2 ^ (8 * size_of_type t)
      → y < 2 ^ (8 * size_of_type t)
      → biased (8 * size_of_type t) (
          from_int128_bits t (
            clamp
              (signed_min_of_width (bit_width t))
              (signed_max_of_width (bit_width t))
              (Int128.sub (as_int128_of t x) (as_int128_of t y))))
        ≡ difference_within (8 * size_of_type t) x y
  unfolding from_int128_bits as_int128_of size_of_type clamp signed_min_of_width signed_max_of_width
      bit_width
  subsat_bits i8 x y k h h' = ground arith
  subsat_bits i16 x y k h h' = ground arith
  subsat_bits i32 x y k h h' = ground arith
  subsat_bits i64 x y k h h' = ground arith
  subsat_bits _ x y k h h' = absurd k

  -- For two values of i8, i16, i32 or i64 whose bits fit the type, `Addsat` and `Subsat` return
  -- the exact sum and the exact difference of the signed numbers, cut off at the least and the
  -- greatest number of the type.
  pub saturating_op-signed :
      (t : ValueType) (x y : ℕ)
      → IsSigned t
      → FitsType (value t x)
      → FitsType (value t y)
      → ((r : ℕ) × (saturating_op Opcode.addsat t (value t x) (value t y) ≡ ok (value t r))
          × (biased (8 * size_of_type t) r ≡ sum_within (8 * size_of_type t) x y))
        × ((r : ℕ) × (saturating_op Opcode.subsat t (value t x) (value t y) ≡ ok (value t r))
            × (biased (8 * size_of_type t) r ≡ difference_within (8 * size_of_type t) x y))
  unfolding saturating_op saturating_of saturated from_int128 as_int128
  saturating_op-signed t x y k h h' = (
    (_, rw (IsSigned-float t k) refl, addsat_bits t x y k h h'),
    (_, rw (IsSigned-float t k) refl, subsat_bits t x y k h h'),
  )

  uadd_bits :
      (t : ValueType) (x y : ℕ)
      → IsInteger t
      → x < 2 ^ (8 * size_of_type t)
      → y < 2 ^ (8 * size_of_type t)
      → (from_int128_bits t (
            if ltb (unsigned_max_of_width (bit_width t)) (Int128.add x y) || ltb (Int128.add x y) x
            then unsigned_max_of_width (bit_width t)
            else Int128.add x y)
          ≡ least (x + y) (2 ^ (8 * size_of_type t) - 1))
  unfolding from_int128_bits size_of_type unsigned_max_of_width bit_width
  uadd_bits i8 x y k h h' = ground arith
  uadd_bits u8 x y k h h' = ground arith
  uadd_bits i16 x y k h h' = ground arith
  uadd_bits u16 x y k h h' = ground arith
  uadd_bits i32 x y k h h' = ground arith
  uadd_bits u32 x y k h h' = ground arith
  uadd_bits i64 x y k h h' = ground arith
  uadd_bits u64 x y k h h' = ground arith
  uadd_bits i128 x y k h h' = ground arith
  uadd_bits u128 x y k h h' = ground arith
  uadd_bits ptr x y k h h' = ground arith
  uadd_bits _ x y k h h' = absurd k

  usub_bits :
      (t : ValueType) (x y : ℕ)
      → IsInteger t
      → x < 2 ^ (8 * size_of_type t)
      → y < 2 ^ (8 * size_of_type t)
      → from_int128_bits t (if ltb x y then 0 else x - y) ≡ x - y
  unfolding from_int128_bits size_of_type
  usub_bits i8 x y k h h' = ground arith
  usub_bits u8 x y k h h' = ground arith
  usub_bits i16 x y k h h' = ground arith
  usub_bits u16 x y k h h' = ground arith
  usub_bits i32 x y k h h' = ground arith
  usub_bits u32 x y k h h' = ground arith
  usub_bits i64 x y k h h' = ground arith
  usub_bits u64 x y k h h' = ground arith
  usub_bits i128 x y k h h' = ground arith
  usub_bits u128 x y k h h' = ground arith
  usub_bits ptr x y k h h' = ground arith
  usub_bits _ x y k h h' = absurd k

  -- For two values of an integer or pointer type whose bits fit it, `Uaddsat` returns the exact
  -- sum of the unsigned numbers, cut off at the greatest number of the type, and `Usubsat` their
  -- difference, cut off at 0.
  pub saturating_op-unsigned :
      (t : ValueType) (x y : ℕ)
      → IsInteger t
      → FitsType (value t x)
      → FitsType (value t y)
      → (saturating_op Opcode.uaddsat t (value t x) (value t y)
          ≡ ok (value t (least (x + y) (2 ^ (8 * size_of_type t) - 1))))
        × (saturating_op Opcode.usubsat t (value t x) (value t y) ≡ ok (value t (x - y)))
  unfolding saturating_op saturating_of from_int128
  saturating_op-unsigned t x y k h h' = (
    rw
        (
          IsInteger-float t k,
          unsigned_of-value t x k h,
          unsigned_of-value t y k h',
          uadd_bits t x y k h h',
        )
        refl,
    rw
        (
          IsInteger-float t k,
          unsigned_of-value t x k h,
          unsigned_of-value t y k h',
          usub_bits t x y k h h',
        )
        refl,
  )
