-- ===== src/Vector/Tests.antt =====
-- Runs of src/vm/vector_ops.cpp on small vectors. The C library's functions return 0.
use uasm.Base.{ℕ, ◌+◌, ◌*◌, ◌^◌, ◌<◌, ◌≡◌, refl, false, [], ◌∷◌, ok, if◌then◌else◌, switch, one_of}
use uasm.Types.{v128, i32, i64, size_of_type, is_vector_type, vector_bytes, is_float_type}
use uasm.Ast.Opcode
use uasm.Value.Defs.{Value, value, as_int128, from_int128}
use uasm.Value.Tests.{zero_floats}
use uasm.Interp.Tests.{zero_math}
use uasm.Vector.Lanes.{
  arg_at, set_lanes, set_lane, splice, lane_unsigned, masked, lane_bits, lane_count, get_lane,
  require_vector, require_lane,
}
use uasm.Vector.Masks.{mask_bit}
use uasm.Vector.Compute.{vector_compute, constants, triples, lane_by_lane}
use uasm.Vector.Horizontal.{horizontal}
use uasm.Vector.Shuffles.{shuffles}
use uasm.Vector.Operations.{lane_binary, int_lane_binary}
use uasm.Vector.WideCompute.{vector_compute_wide, vector_compute_masked}
use uasm.Vector.Access.{IsLanewise}
use uasm.Vector.Lanewise.{binary_lane, two_vectors, vector_compute-IsLanewise}
use uasm.Vector.MaskedLanes.{chosen_lane, vector_compute_masked-IsLanewise}
use uasm.Vector.Compaction.{v_expand-v_compress}

-- The lanes 1, 2, 3 and 4, and the lanes 10, 20, 30 and 40.
abbrev ones : Value
ones = value v128 (1 + 2 * 2 ^ 32 + 3 * 2 ^ 64 + 4 * 2 ^ 96)

abbrev tens : Value
tens = value v128 (10 + 20 * 2 ^ 32 + 30 * 2 ^ 64 + 40 * 2 ^ 96)

-- The mask of the second and the last lane.
abbrev two_lanes : Value
two_lanes = value i64 10

four_lanes : lane_count v128 i32 ≡ ok 4
unfolding lane_count require_vector require_lane is_vector_type vector_bytes size_of_type
four_lanes = refl

vector_compute-IsLanewise_example :
    IsLanewise
      (binary_lane ⦃fl = zero_floats⦄ ⦃ml = zero_math⦄ v128 i32 4 ones tens Opcode.v_add)
      4
      v128
      i32
      (vector_compute ⦃fl = zero_floats⦄ ⦃ml = zero_math⦄ Opcode.v_add v128 i32 (ones ∷ tens ∷ []))
unfolding one_of
vector_compute-IsLanewise_example =
    vector_compute-IsLanewise ⦃fl = zero_floats⦄ ⦃ml = zero_math⦄ v128 i32 4 ones tens Opcode.v_add
      (ones ∷ tens ∷ []) _ four_lanes (two_vectors refl)

vector_compute_masked-IsLanewise_example :
    IsLanewise
      (chosen_lane ⦃fl = zero_floats⦄ ⦃ml = zero_math⦄ Opcode.v_add i32 false
        (as_int128 ⦃fl = zero_floats⦄ two_lanes)
        ones
        (tens ∷ []))
      4
      v128
      i32
      (vector_compute_masked ⦃fl = zero_floats⦄ ⦃ml = zero_math⦄ Opcode.v_add v128 i32
        (two_lanes ∷ ones ∷ tens ∷ [])
        false)
vector_compute_masked-IsLanewise_example =
    vector_compute_masked-IsLanewise ⦃fl = zero_floats⦄ ⦃ml = zero_math⦄ Opcode.v_add v128 i32 4
      false two_lanes ones (tens ∷ []) four_lanes

v_expand-v_compress_example :
    (c e : Value) × (vector_compute_wide ⦃fl = zero_floats⦄ ⦃ml = zero_math⦄ Opcode.v_compress v128
        i32
        (tens ∷ two_lanes ∷ [])
      ≡ ok c)
    × (vector_compute_wide ⦃fl = zero_floats⦄ ⦃ml = zero_math⦄ Opcode.v_expand v128 i32
          (c ∷ two_lanes ∷ [])
        ≡ ok e)
    × ((j : ℕ)
        → j < 4
        → get_lane e i32 j ≡ (
            if mask_bit (as_int128 ⦃fl = zero_floats⦄ two_lanes) j
            then get_lane tens i32 j
            else value i32 0))
v_expand-v_compress_example =
    v_expand-v_compress ⦃fl = zero_floats⦄ ⦃ml = zero_math⦄ v128 i32 4 tens two_lanes four_lanes

-- The sum of the lanes of the two vectors.
added :
    vector_compute ⦃fl = zero_floats⦄ ⦃ml = zero_math⦄ Opcode.v_add v128 i32 (ones ∷ tens ∷ [])
    ≡ ok (value v128 (11 + 22 * 2 ^ 32 + 33 * 2 ^ 64 + 44 * 2 ^ 96))
unfolding vector_compute lane_count require_vector require_lane constants horizontal shuffles
    triples lane_by_lane switch one_of arg_at set_lanes set_lane get_lane splice lane_binary
    int_lane_binary lane_unsigned masked lane_bits as_int128 from_int128 is_vector_type vector_bytes
    size_of_type is_float_type
added = refl
