-- ===== src/Vector/Horizontal.antt =====
-- The cases of `vectorCompute` in src/vm/vector_ops.cpp that test, count and reduce the lanes of a
-- vector, and those that read or write a lane by its index.
use uasm.Base.{
  ℕ, ◌-◌, ◌%◌, ◌^◌, true, false, ◌&&◌, ◌||◌, leb, ◌==◌, List, [], ◌∷◌, ok, err, if◌then◌else◌,
  switch, one_of, ◌>>=◌, ◌>>◌,
}
use Prim.Native.Nat.{bit_and, bit_or, bit_xor}
use uasm.Runtime.{RuntimeError, Run}
use uasm.Types.{ValueType, i32, is_float_type}
use uasm.Ast.{Opcode}
use uasm.Ast.Opcode
use uasm.Value.Int128
use uasm.Value.Float.{FloatOps}
use uasm.Value.Defs.{Value, value, as_int128, as_double, from_int128, from_double}
use uasm.Vector.Lanes.{
  get_lane, set_lane, blank, arg_at, needs, set_lanes, for_lanes, all_ones, all_zero, lane_truthy,
  lane_sign_bit, lane_value,
}

-- `static_cast<size_t>(idx)` of an index that the source checks.
unfoldable pub lane_index : ℕ → ℕ → Run ℕ
lane_index idx n =
    if Int128.is_neg idx || leb n (idx % 2 ^ 64)
    then err RuntimeError.lane_index_out_of_range
    else ok (idx % 2 ^ 64)

module _ ⦃fl : FloatOps⦄ where
  -- One round of a reduction, on `double`s and on integers.
  unfoldable pub reduce_double : Opcode → ℕ → ℕ → ℕ
  reduce_double op v acc =
      if op == Opcode.v_reducemul
      then fl.mul acc v
      else if op == Opcode.v_reducemin
      then (if fl.lt v acc then v else acc)
      else if op == Opcode.v_reducemax
      then (if fl.lt acc v then v else acc)
      else fl.add acc v

  unfoldable pub reduce_int : Opcode → ℕ → ℕ → ℕ
  reduce_int op v acc =
      switch op
        ((Opcode.v_reducemul ∷ [], Int128.mul acc v)
          ∷ (Opcode.v_reducemin ∷ [], if Int128.lt_signed v acc then v else acc)
          ∷ (Opcode.v_reducemax ∷ [], if Int128.lt_signed acc v then v else acc)
          ∷ (Opcode.v_reduceand ∷ [], bit_and acc v)
          ∷ (Opcode.v_reduceor ∷ [], bit_or acc v)
          ∷ (Opcode.v_reducexor ∷ [], bit_xor acc v)
          ∷ [])
        (Int128.add acc v)

  unfoldable pub reduce : Opcode → ValueType → ℕ → Value → Value
  reduce op lane n a =
      if is_float_type lane
        && one_of op (
            Opcode.v_reduceadd ∷ Opcode.v_reducemul ∷ Opcode.v_reducemin ∷ Opcode.v_reducemax
            ∷ Opcode.v_sum ∷ Opcode.v_sum2 ∷ [])
      then from_double lane (
          for_lanes (λ i acc. reduce_double op (as_double (get_lane a lane i)) acc) 1 (n - 1)
            (as_double (get_lane a lane 0)))
      else from_int128 lane (
          for_lanes (λ i acc. reduce_int op (as_int128 (get_lane a lane i)) acc) 1 (n - 1)
            (as_int128 (get_lane a lane 0)))

  -- `VDot`.
  unfoldable pub dot : ValueType → ℕ → Value → Value → Value
  dot lane n a b =
      if is_float_type lane
      then from_double lane (
          for_lanes
            (λ i acc.
              fl.add acc (fl.mul (as_double (get_lane a lane i)) (as_double (get_lane b lane i))))
            0 n fl.zero)
      else from_int128 lane (
          for_lanes
            (λ i acc.
              Int128.add acc
                (Int128.mul (as_int128 (get_lane a lane i)) (as_int128 (get_lane b lane i))))
            0 n 0)

  -- `VAnytrue`, `VAlltrue` and `VTestz`.
  unfoldable pub truth : Opcode → ValueType → ℕ → Value → ℕ
  truth op lane n a =
      let any =
        for_lanes (λ i acc. if lane_truthy (get_lane a lane i) lane then true else acc) 0 n false in
      let all =
        for_lanes (λ i acc. if lane_truthy (get_lane a lane i) lane then acc else false) 0 n true in
      if op == Opcode.v_anytrue
      then (if any then 1 else 0)
      else if op == Opcode.v_alltrue
      then (if all then 1 else 0)
      else if any
      then 0
      else 1

  -- `VBitmask` and `VCountones`.
  unfoldable pub sign_mask : ValueType → ℕ → Value → ℕ
  sign_mask lane n a =
      for_lanes
        (λ i mask.
          if lane_sign_bit (get_lane a lane i) lane then bit_or mask (Int128.shl 1 i) else mask)
        0 n 0

  unfoldable pub count_truthy : ValueType → ℕ → Value → ℕ
  count_truthy lane n a =
      for_lanes (λ i c. if lane_truthy (get_lane a lane i) lane then Int128.add c 1 else c) 0 n 0

  unfoldable pub horizontal :
      Opcode → ValueType → ValueType → ℕ → List Value → Run Value → Run Value
  horizontal op width lane n args others =
      switch op
        ((
          Opcode.v_splat ∷ Opcode.v_broadcast ∷ [],
          (do a ← arg_at args 0; set_lanes lane (λ i. ok (lane_value lane a)) 0 n (blank width)),
        )
          ∷ (
            Opcode.v_extract ∷ [],
            (do
              needs args 2
              a ← arg_at args 0
              b ← arg_at args 1
              i ← lane_index (as_int128 b) n
              ok (get_lane a lane i)),
          )
          ∷ (
            Opcode.v_insert ∷ [],
            (do
              needs args 3
              a ← arg_at args 0
              b ← arg_at args 1
              i ← lane_index (as_int128 b) n
              c ← arg_at args 2
              ok (set_lane (value width a.bits) lane i (lane_value lane c))),
          )
          ∷ (
            Opcode.v_dupelem ∷ [],
            (do
              needs args 2
              a ← arg_at args 0
              b ← arg_at args 1
              k ← lane_index (as_int128 b) n
              set_lanes lane (λ i. ok (get_lane a lane k)) 0 n (blank width)),
          )
          ∷ (
            Opcode.v_anytrue ∷ Opcode.v_alltrue ∷ Opcode.v_testz ∷ [],
            (do a ← arg_at args 0; ok (from_int128 i32 (truth op lane n a))),
          )
          ∷ (
            Opcode.v_bitmask ∷ [],
            (do a ← arg_at args 0; ok (from_int128 i32 (sign_mask lane n a))),
          )
          ∷ (
            Opcode.v_countones ∷ [],
            (do a ← arg_at args 0; ok (from_int128 i32 (count_truthy lane n a))),
          )
          ∷ (
            Opcode.v_isnan ∷ [],
            (do
              a ← arg_at args 0
              set_lanes lane
                  (λ i. ok (
                    if fl.equal (as_double (get_lane a lane i)) (as_double (get_lane a lane i))
                    then all_zero lane
                    else all_ones lane))
                  0 n (blank width)),
          )
          ∷ (
            Opcode.v_signbit ∷ [],
            (do
              a ← arg_at args 0
              set_lanes lane
                  (λ i. ok (
                    if lane_sign_bit (get_lane a lane i) lane
                    then all_ones lane
                    else all_zero lane))
                  0 n (blank width)),
          )
          ∷ (
            Opcode.v_reduceadd ∷ Opcode.v_reducemul ∷ Opcode.v_reducemin ∷ Opcode.v_reducemax
                ∷ Opcode.v_reduceand ∷ Opcode.v_reduceor ∷ Opcode.v_reducexor ∷ Opcode.v_sum
                ∷ Opcode.v_sum2 ∷ [],
            (do a ← arg_at args 0; ok (reduce op lane n a)),
          )
          ∷ (
            Opcode.v_dot ∷ [],
            (do needs args 2; a ← arg_at args 0; b ← arg_at args 1; ok (dot lane n a b)),
          )
          ∷ [])
        others
