-- ===== src/Vector/Memory.antt =====
-- The loops of the vector loads and stores in `Interpreter::call` of src/vm/interpreter.cpp, which
-- move the lanes of a vector one by one, and skip those that a mask does not have.
use uasm.Base.{ℕ, zero, suc, ◌+◌, ◌*◌, ◌%◌, ◌^◌, ◌==◌, Option, none, some, ok, if◌then◌else◌, ◌>>◌}
use uasm.Runtime.{Run}
use uasm.Types.{ValueType, size_of_type}
use uasm.Value.Float.{FloatOps}
use uasm.Value.Defs.{Value, value, as_int128}
use uasm.Memory.Bytes.{Bytes, read_bytes, write_bytes}
use uasm.Memory.Defs.{check_range}
use uasm.Vector.Lanes.{get_lane, set_lane}
use uasm.Vector.Masks.{mask_bit}

-- Where lane `i` lies in the memory, if it is moved; `slot` counts the lanes that were.
abbrev pub Placement : Type 0
Placement = ℕ → ℕ → Option ℕ

-- `lane` after lane from `addr` on, those of a mask.
unfoldable pub masked_place : ValueType → ℕ → ℕ → Placement
masked_place lane addr m i slot =
    if mask_bit m i then some ((addr + i * size_of_type lane) % 2 ^ 64) else none

-- The lanes of a mask, one behind the other.
unfoldable pub packed_place : ValueType → ℕ → ℕ → Placement
packed_place lane addr m i slot =
    if mask_bit m i then some ((addr + slot * size_of_type lane) % 2 ^ 64) else none

module _ ⦃fl : FloatOps⦄ where
  -- Each lane at the index that a vector of indices has for it.
  unfoldable pub indexed_place : ValueType → ℕ → Value → Placement
  indexed_place lane base idx i slot =
      some ((base + as_int128 (get_lane idx lane i) % 2 ^ 64 * size_of_type lane) % 2 ^ 64)

  unfoldable pub masked_index_place : ValueType → ℕ → ℕ → Value → Placement
  unfolding indexed_place
  masked_index_place lane base m idx i slot =
      if mask_bit m i then indexed_place lane base idx i slot else none

  -- The lanes that are not zero in a vector.
  unfoldable pub truthy_place : ValueType → ℕ → Value → Placement
  truthy_place lane addr mask i slot =
      if as_int128 (get_lane mask lane i) == 0
      then none
      else some ((addr + i * size_of_type lane) % 2 ^ 64)

-- The loop of a load, from lane `i`.
unfoldable pub load_lanes : Bytes → ValueType → Placement → ℕ → ℕ → ℕ → Value → Run Value
load_lanes mem lane place i slot zero v = ok v
load_lanes mem lane place i slot (suc rounds) v = elim (place i slot) [
  | none ↦ load_lanes mem lane place (i + 1) slot rounds v
  | some a ↦
      check_range a (size_of_type lane)
      >> load_lanes mem lane place (i + 1) (slot + 1) rounds
          (set_lane v lane i (value lane (read_bytes mem a (size_of_type lane))))
]

-- The loop of a store of the lanes of `v`, from lane `i`.
unfoldable pub store_lanes : Value → ValueType → Placement → ℕ → ℕ → ℕ → Bytes → Run Bytes
store_lanes v lane place i slot zero mem = ok mem
store_lanes v lane place i slot (suc rounds) mem = elim (place i slot) [
  | none ↦ store_lanes v lane place (i + 1) slot rounds mem
  | some a ↦
      check_range a (size_of_type lane)
      >> store_lanes v lane place (i + 1) (slot + 1) rounds
          (write_bytes mem a (size_of_type lane) (get_lane v lane i).bits)
]
