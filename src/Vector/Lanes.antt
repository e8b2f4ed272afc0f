-- ===== src/Vector/Lanes.antt =====
-- The lanes of a vector in src/vm/vector_ops.cpp: `isSignedLane` to `laneFromInt`, `laneTruthy`,
-- `laneSignBit`, `vectorLaneCount`, `vectorGetLane` and `vectorSetLane`, and its loops over lanes.
-- The vector is the number of its 64 bytes; an access outside them has its own check at the caller.
use uasm.Base.{
  length, ℕ, zero, suc, ◌+◌, ◌-◌, ◌*◌, ◌/◌, ◌%◌, ◌^◌, Bool, true, false, not, ◌||◌, ltb, leb, ◌==◌,
  List, ok, err, get_elem?, none, some, if◌then◌else◌, ◌>>=◌, ◌>>◌,
}
use uasm.Runtime.{RuntimeError, Run}
use uasm.Types.{
  ValueType, i8, i16, i32, i64, i128, size_of_type, is_vector_type, is_void, vector_bytes,
  is_float_type,
}
use uasm.Value.Int128
use uasm.Value.Float.{FloatOps}
use uasm.Value.Defs.{Value, value, as_int128, as_double, from_int128, from_double}

unfoldable pub is_signed_lane : ValueType → Bool
is_signed_lane i8 = true
is_signed_lane i16 = true
is_signed_lane i32 = true
is_signed_lane i64 = true
is_signed_lane i128 = true
is_signed_lane _ = false

unfoldable pub lane_bits : ValueType → ℕ
lane_bits t = size_of_type t * 8

unfoldable pub lane_mask : ℕ → ℕ
lane_mask bits = if leb 128 bits then 2 ^ 128 - 1 else 2 ^ bits - 1

-- `x & laneMask(bits)`.
unfoldable pub masked : ℕ → ℕ → ℕ
masked x bits = if leb 128 bits then x else x % 2 ^ bits

unfoldable pub lane_signed_min : ℕ → ℕ
lane_signed_min bits = if leb 128 bits then 2 ^ 127 else Int128.neg (2 ^ (bits - 1))

unfoldable pub lane_signed_max : ℕ → ℕ
lane_signed_max bits = if leb 128 bits then 2 ^ 127 - 1 else 2 ^ (bits - 1) - 1

unfoldable pub require_vector : ValueType → Run (Unit {0})
require_vector width =
    if not (is_vector_type width) then err RuntimeError.requires_vector else ok tt

unfoldable pub require_lane : ValueType → Run (Unit {0})
require_lane lane =
    if is_vector_type lane || is_void lane then err RuntimeError.invalid_lane else ok tt

-- `vectorLaneCount`.
unfoldable pub lane_count : ValueType → ValueType → Run ℕ
unfolding require_vector require_lane
lane_count width lane = do
  require_vector width
  require_lane lane
  if size_of_type lane == 0
      then err RuntimeError.invalid_lane
      else ok (vector_bytes width / size_of_type lane)

-- `vectorGetLane` and `vectorSetLane`.
unfoldable pub get_lane : Value → ValueType → ℕ → Value
get_lane v lane index =
    value lane (v.bits / 2 ^ (8 * (index * size_of_type lane)) % 2 ^ (8 * size_of_type lane))

-- The bits with `n` bits from `p` on replaced.
unfoldable pub splice : ℕ → ℕ → ℕ → ℕ → ℕ
splice bits p n x = bits % 2 ^ p + 2 ^ p * (x % 2 ^ n + 2 ^ n * (bits / 2 ^ p / 2 ^ n))

unfoldable pub set_lane : Value → ValueType → ℕ → Value → Value
unfolding splice
set_lane v lane index x =
    value v.type (splice v.bits (8 * (index * size_of_type lane)) (8 * size_of_type lane) x.bits)

-- `Value out; out.type = width;`.
abbrev pub blank : ValueType → Value
blank width = value width 0

-- `args[i]`; past the end, where the source reads out of bounds, it is undefined.
unfoldable pub arg_at : List Value → ℕ → Run Value
arg_at args i = elim (get_elem? args i) [ none ↦ err RuntimeError.undefined | some v ↦ ok v ]

-- `if (argCount < count) throw RuntimeError("…");`.
abbrev pub needs : List Value → ℕ → Run (Unit {0})
needs args count =
    if ltb (length args) count then err RuntimeError.vector_operand_missing else ok tt

-- `for (size_t i = …; rounds are left; ++i) vectorSetLane(out, lane, i, f(i));`.
unfoldable pub set_lanes : ValueType → (ℕ → Run Value) → ℕ → ℕ → Value → Run Value
set_lanes lane f i zero out = ok out
set_lanes lane f i (suc rounds) out = do
  x ← f i
  set_lanes lane f (i + 1) rounds (set_lane out lane i x)

-- The same with a body that changes what the loop has so far.
unfoldable pub for_lanes : {A : Type 0} → (ℕ → A → A) → ℕ → ℕ → A → A
for_lanes f i zero acc = acc
for_lanes f i (suc rounds) acc = for_lanes f (i + 1) rounds (f i acc)

module _ ⦃fl : FloatOps⦄ where
  unfoldable pub lane_unsigned : Value → ValueType → ℕ
  lane_unsigned v lane = masked (as_int128 v) (lane_bits lane)

  unfoldable pub all_ones : ValueType → Value
  all_ones lane = from_int128 lane (2 ^ 128 - 1)

  unfoldable pub all_zero : ValueType → Value
  all_zero lane = from_int128 lane 0

  unfoldable pub lane_truthy : Value → ValueType → Bool
  lane_truthy v lane = not (lane_unsigned v lane == 0)

  unfoldable pub lane_sign_bit : Value → ValueType → Bool
  lane_sign_bit v lane = not (lane_unsigned v lane / 2 ^ (lane_bits lane - 1) % 2 == 0)

  -- `isFloatLane(lane) ? laneFromDouble(lane, v.asDouble()) : laneFromInt(lane, v.asInt128())`.
  unfoldable pub lane_value : ValueType → Value → Value
  lane_value lane v =
      if is_float_type lane then from_double lane (as_double v) else from_int128 lane (as_int128 v)
