-- ===== src/Alu/Modular.antt =====
-- The integer arithmetic of src/vm/interpreter.cpp against the numbers of a width.
use uasm.Base.{ℕ, ◌+◌, ◌-◌, ◌*◌, ◌%◌, ◌^◌, ◌<◌, ◌≤◌, ◌≡◌, refl, false, ok, arith}
use uasm.Types.{
  ValueType, i8, u8, i16, u16, i32, u32, i64, u64, i128, u128, ptr, size_of_type, is_float_type,
}
use uasm.Ast.Opcode
use uasm.Value.Int128
use uasm.Value.Float.{FloatOps}
use uasm.Value.Defs.{value, as_int128_of, as_int128, from_int128_bits, from_int128}
use uasm.Value.Conversions.{IsInteger, FitsType}
use uasm.Alu.Arith.{int_arith}
use uasm.Alu.Arith

-- The sum and the difference of two numbers of at most 64 bits fit `Int128`: nothing overflows there.
module _ ⦃fl : FloatOps⦄ where
  pub add_bits :
      (t : ValueType) (x y : ℕ)
      → IsInteger t
      → size_of_type t ≤ 8
      → x < 2 ^ (8 * size_of_type t)
      → y < 2 ^ (8 * size_of_type t)
      → from_int128_bits t (Int128.add (as_int128_of t x) (as_int128_of t y))
        ≡ (x + y) % 2 ^ (8 * size_of_type t)
  unfolding from_int128_bits as_int128_of size_of_type
  add_bits i8 x y k n h h' = ground arith
  add_bits u8 x y k n h h' = ground arith
  add_bits i16 x y k n h h' = ground arith
  add_bits u16 x y k n h h' = ground arith
  add_bits i32 x y k n h h' = ground arith
  add_bits u32 x y k n h h' = ground arith
  add_bits i64 x y k n h h' = ground arith
  add_bits u64 x y k n h h' = ground arith
  add_bits i128 x y k n h h' = ground arith
  add_bits u128 x y k n h h' = ground arith
  add_bits ptr x y k n h h' = ground arith
  add_bits _ x y k n h h' = absurd k

  sub_bits :
      (t : ValueType) (x y : ℕ)
      → IsInteger t
      → size_of_type t ≤ 8
      → x < 2 ^ (8 * size_of_type t)
      → y < 2 ^ (8 * size_of_type t)
      → from_int128_bits t (Int128.sub (as_int128_of t x) (as_int128_of t y))
        ≡ (x + 2 ^ (8 * size_of_type t) - y) % 2 ^ (8 * size_of_type t)
  unfolding from_int128_bits as_int128_of size_of_type
  sub_bits i8 x y k n h h' = ground arith
  sub_bits u8 x y k n h h' = ground arith
  sub_bits i16 x y k n h h' = ground arith
  sub_bits u16 x y k n h h' = ground arith
  sub_bits i32 x y k n h h' = ground arith
  sub_bits u32 x y k n h h' = ground arith
  sub_bits i64 x y k n h h' = ground arith
  sub_bits u64 x y k n h h' = ground arith
  sub_bits i128 x y k n h h' = ground arith
  sub_bits u128 x y k n h h' = ground arith
  sub_bits ptr x y k n h h' = ground arith
  sub_bits _ x y k n h h' = absurd k

  -- Not a float type.
  pub IsInteger-float : (t : ValueType) → IsInteger t → is_float_type t ≡ false
  unfolding is_float_type
  IsInteger-float i8 k = refl
  IsInteger-float u8 k = refl
  IsInteger-float i16 k = refl
  IsInteger-float u16 k = refl
  IsInteger-float i32 k = refl
  IsInteger-float u32 k = refl
  IsInteger-float i64 k = refl
  IsInteger-float u64 k = refl
  IsInteger-float i128 k = refl
  IsInteger-float u128 k = refl
  IsInteger-float ptr k = refl
  IsInteger-float _ k = absurd k

  -- For two values of an integer or pointer type of at most 64 bits whose bits fit it, `Add`
  -- returns the sum and `Sub` the difference of their bits, wrapped to the width of the type.
  pub arith-add_sub :
      (t : ValueType) (x y : ℕ)
      → IsInteger t
      → size_of_type t ≤ 8
      → FitsType (value t x)
      → FitsType (value t y)
      → (Arith.arith Opcode.add t (value t x) (value t y)
          ≡ ok (value t ((x + y) % 2 ^ (8 * size_of_type t))))
        × (Arith.arith Opcode.sub t (value t x) (value t y)
            ≡ ok (value t ((x + 2 ^ (8 * size_of_type t) - y) % 2 ^ (8 * size_of_type t))))
  unfolding Arith.arith int_arith from_int128 as_int128
  arith-add_sub t x y k n h h' = (
    rw (IsInteger-float t k, add_bits t x y k n h h') refl,
    rw (IsInteger-float t k, sub_bits t x y k n h h') refl,
  )
