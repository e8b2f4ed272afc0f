-- ===== src/Value/Conversions.antt =====
-- Conversions to `Int128` and back.
use uasm.Base.{ℕ, ◌*◌, ◌^◌, ◌<◌, ◌≡◌, arith}
use uasm.Types.{ValueType, i8, u8, i16, u16, i32, u32, i64, u64, i128, u128, ptr, size_of_type}
use uasm.Value.Float.{FloatOps}
use uasm.Value.Defs.{Value, as_int128_of, as_int128, from_int128_bits, from_int128}

-- The types that hold a number: the ten integer types and the pointer.
abbrev pub IsInteger : ValueType → Type 0
IsInteger i8 = Unit
IsInteger u8 = Unit
IsInteger i16 = Unit
IsInteger u16 = Unit
IsInteger i32 = Unit
IsInteger u32 = Unit
IsInteger i64 = Unit
IsInteger u64 = Unit
IsInteger i128 = Unit
IsInteger u128 = Unit
IsInteger ptr = Unit
IsInteger _ = ⊥

-- The bits are those that the type has room for.
abbrev pub FitsType : Value → Type 0
FitsType v = v.bits < 2 ^ (8 * size_of_type v.type)

module _ ⦃fl : FloatOps⦄ where
  from_as_of :
      (t : ValueType) (b : ℕ)
      → IsInteger t
      → b < 2 ^ (8 * size_of_type t)
      → from_int128_bits t (as_int128_of t b) ≡ b
  unfolding from_int128_bits as_int128_of size_of_type
  from_as_of i8 b k h = ground arith
  from_as_of u8 b k h = ground arith
  from_as_of i16 b k h = ground arith
  from_as_of u16 b k h = ground arith
  from_as_of i32 b k h = ground arith
  from_as_of u32 b k h = ground arith
  from_as_of i64 b k h = ground arith
  from_as_of u64 b k h = ground arith
  from_as_of i128 b k h = ground arith
  from_as_of u128 b k h = ground arith
  from_as_of ptr b k h = ground arith
  from_as_of _ b k h = absurd k

  -- For a value of an integer or pointer type whose bits fit it, `fromInt128` of its `asInt128`,
  -- at its own type, is the value.
  pub from_int128-as_int128 :
      (v : Value) → IsInteger v.type → FitsType v → from_int128 v.type (as_int128 v) ≡ v
  unfolding from_int128 as_int128
  from_int128-as_int128 v k h = cc (from_as_of v.type v.bits k h)
