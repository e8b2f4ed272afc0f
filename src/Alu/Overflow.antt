-- ===== src/Alu/Overflow.antt =====
-- `computeWithOverflow` of src/vm/interpreter.cpp against the exact results.
use uasm.Base.{ℕ, ◌+◌, ◌-◌, ◌*◌, ◌%◌, ◌^◌, ◌<◌, ◌≡◌, refl, ap, ◌||◌, leb, ltb, ok, arith}
use uasm.Types.{ValueType, i8, u8, i16, u16, i32, u32, i64, u64, i128, u128, ptr, size_of_type}
use uasm.Ast.Opcode
use uasm.Value.Int128
use uasm.Value.Float.{FloatOps}
use uasm.Value.Defs.{value, as_int128_of, as_int128, from_int128_bits, from_int128}
use uasm.Value.Conversions.{IsInteger, FitsType}
use uasm.Alu.Bits.{bit_width}
use uasm.Alu.Division.{signed_min_of_width, signed_max_of_width, unsigned_max_of_width}
use uasm.Alu.Saturating.{is_outside, checked, overflow_of, compute_with_overflow}
use uasm.Alu.Modular.{add_bits}
use uasm.Alu.Signed.{IsSigned, IsSigned-IsInteger, IsSigned-size, leaves_range, unsigned_of-value}

module _ ⦃fl : FloatOps⦄ where
  addo_flag :
      (t : ValueType) (x y : ℕ)
      → IsSigned t
      → x < 2 ^ (8 * size_of_type t)
      → y < 2 ^ (8 * size_of_type t)
      → is_outside
          (signed_min_of_width (bit_width t))
          (signed_max_of_width (bit_width t))
          (Int128.add (as_int128_of t x) (as_int128_of t y))
        ≡ leaves_range (8 * size_of_type t) x y
  unfolding is_outside as_int128_of size_of_type signed_min_of_width signed_max_of_width bit_width
  addo_flag i8 x y k h h' = ground arith
  addo_flag i16 x y k h h' = ground arith
  addo_flag i32 x y k h h' = ground arith
  addo_flag i64 x y k h h' = ground arith
  addo_flag _ x y k h h' = absurd k

  uaddo_flag :
      (t : ValueType) (x y : ℕ)
      → IsInteger t
      → x < 2 ^ (8 * size_of_type t)
      → y < 2 ^ (8 * size_of_type t)
      → (ltb (unsigned_max_of_width (bit_width t)) (Int128.add x y) || ltb (Int128.add x y) x)
        ≡ leb (2 ^ (8 * size_of_type t)) (x + y)
  unfolding size_of_type unsigned_max_of_width bit_width
  uaddo_flag i8 x y k h h' = ground arith
  uaddo_flag u8 x y k h h' = ground arith
  uaddo_flag i16 x y k h h' = ground arith
  uaddo_flag u16 x y k h h' = ground arith
  uaddo_flag i32 x y k h h' = ground arith
  uaddo_flag u32 x y k h h' = ground arith
  uaddo_flag i64 x y k h h' = ground arith
  uaddo_flag u64 x y k h h' = ground arith
  uaddo_flag i128 x y k h h' = ground arith
  uaddo_flag u128 x y k h h' = ground arith
  uaddo_flag ptr x y k h h' = ground arith
  uaddo_flag _ x y k h h' = absurd k

  wrapped_bits :
      (t : ValueType) (x y : ℕ)
      → IsInteger t
      → x < 2 ^ (8 * size_of_type t)
      → y < 2 ^ (8 * size_of_type t)
      → (from_int128_bits t (Int128.add x y) ≡ (x + y) % 2 ^ (8 * size_of_type t))
        × (from_int128_bits t (Int128.sub x y)
            ≡ (x + 2 ^ (8 * size_of_type t) - y) % 2 ^ (8 * size_of_type t))
  unfolding from_int128_bits size_of_type
  wrapped_bits i8 x y k h h' = (ground arith, ground arith)
  wrapped_bits u8 x y k h h' = (ground arith, ground arith)
  wrapped_bits i16 x y k h h' = (ground arith, ground arith)
  wrapped_bits u16 x y k h h' = (ground arith, ground arith)
  wrapped_bits i32 x y k h h' = (ground arith, ground arith)
  wrapped_bits u32 x y k h h' = (ground arith, ground arith)
  wrapped_bits i64 x y k h h' = (ground arith, ground arith)
  wrapped_bits u64 x y k h h' = (ground arith, ground arith)
  wrapped_bits i128 x y k h h' = (ground arith, ground arith)
  wrapped_bits u128 x y k h h' = (ground arith, ground arith)
  wrapped_bits ptr x y k h h' = (ground arith, ground arith)
  wrapped_bits _ x y k h h' = absurd k

  -- For two values of i8, i16, i32 or i64 whose bits fit the type, the flag of `Addo` is true
  -- exactly if the exact sum of the signed numbers is below the least or above the greatest number
  -- of the type; the result is the wrapped sum.
  pub compute_with_overflow-signed :
      (t : ValueType) (x y : ℕ)
      → IsSigned t
      → FitsType (value t x)
      → FitsType (value t y)
      → (r : ℕ) × (compute_with_overflow Opcode.addo t (value t x) (value t y)
          ≡ ok (leaves_range (8 * size_of_type t) x y, r))
        × (from_int128 t r ≡ value t ((x + y) % 2 ^ (8 * size_of_type t)))
  unfolding compute_with_overflow overflow_of checked as_int128 from_int128
  compute_with_overflow-signed t x y k h h' = (
    Int128.add (as_int128_of t x) (as_int128_of t y),
    rw (addo_flag t x y k h h') refl,
    ap (value t) (add_bits t x y (IsSigned-IsInteger t k) (IsSigned-size t k) h h'),
  )

  -- For two values of an integer or pointer type whose bits fit it, the flag of `Uaddo` is true
  -- exactly if the sum of the unsigned numbers has no room in the type, and that of `Usubo`
  -- exactly if the first is below the second; the results are the wrapped sum and difference.
  pub compute_with_overflow-unsigned :
      (t : ValueType) (x y : ℕ)
      → IsInteger t
      → FitsType (value t x)
      → FitsType (value t y)
      → ((r : ℕ) × (compute_with_overflow Opcode.uaddo t (value t x) (value t y)
            ≡ ok (leb (2 ^ (8 * size_of_type t)) (x + y), r))
          × (from_int128 t r ≡ value t ((x + y) % 2 ^ (8 * size_of_type t))))
        × ((r : ℕ) × (compute_with_overflow Opcode.usubo t (value t x) (value t y)
              ≡ ok (ltb x y, r))
            × (from_int128 t r
                ≡ value t ((x + 2 ^ (8 * size_of_type t) - y) % 2 ^ (8 * size_of_type t))))
  unfolding compute_with_overflow overflow_of from_int128
  compute_with_overflow-unsigned t x y k h h' =
      let (sum, difference) = wrapped_bits t x y k h h' in
      (
        (
          Int128.add x y,
          rw (unsigned_of-value t x k h, unsigned_of-value t y k h', uaddo_flag t x y k h h') refl,
          ap (value t) sum,
        ),
        (
          Int128.sub x y,
          rw (unsigned_of-value t x k h, unsigned_of-value t y k h') refl,
          ap (value t) difference,
        ),
      )
