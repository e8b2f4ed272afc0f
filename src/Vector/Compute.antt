-- ===== src/Vector/Compute.antt =====
-- `vectorCompute` of src/vm/vector_ops.cpp, with its cases on three vectors, on comparisons and those
-- that work lane by lane.
use uasm.Base.{ℕ, leb, ◌==◌, List, [], ◌∷◌, length, ok, if◌then◌else◌, switch, one_of, ◌>>=◌, ◌>>◌}
use uasm.Runtime.{Run}
use uasm.Types.{ValueType, i32, is_float_type}
use uasm.Ast.{Opcode}
use uasm.Ast.Opcode
use uasm.Value.Int128
use uasm.Value.Float.{FloatOps, MathLib}
use uasm.Value.Defs.{Value, as_int128, as_double, from_int128, from_double}
use uasm.Vector.Lanes.{lane_count, get_lane, blank, arg_at, needs, set_lanes, all_ones, all_zero}
use uasm.Vector.Operations.{lane_compare, lane_binary, lane_unary}
use uasm.Vector.Horizontal.{horizontal}
use uasm.Vector.Shuffles.{shuffles}

module _ ⦃fl : FloatOps⦄ where
  -- `x < a ? a : (x > b ? b : x)` in the lane of `VClamp`.
  unfoldable pub clamped_lane : ValueType → Value → Value → Value → Value
  clamped_lane lane v l h =
      let x = as_double v in
      let y = as_int128 v in
      if is_float_type lane
      then from_double lane (
          if fl.lt x (as_double l)
          then as_double l
          else if fl.lt (as_double h) x
          then as_double h
          else x)
      else from_int128 lane (
          if Int128.lt_signed y (as_int128 l)
          then as_int128 l
          else if Int128.lt_signed (as_int128 h) y
          then as_int128 h
          else y)

  -- The lane of `VLerp`.
  unfoldable pub lerp_lane : ValueType → ℕ → ℕ → ℕ → Value
  lerp_lane lane a b t = from_double lane (fl.add a (fl.mul t (fl.sub b a)))

  -- The lane of `VMla`, `VMadd`, `VMls` and `VMsub`.
  unfoldable pub multiply_add_lane : Opcode → ValueType → Value → Value → Value → Value
  multiply_add_lane op lane a b c =
      let adds = one_of op (Opcode.v_mla ∷ Opcode.v_madd ∷ []) in
      let p = fl.mul (as_double a) (as_double b) in
      let q = Int128.mul (as_int128 a) (as_int128 b) in
      if is_float_type lane
      then from_double lane (if adds then fl.add p (as_double c) else fl.sub (as_double c) p)
      else from_int128 lane
          (if adds then Int128.add q (as_int128 c) else Int128.sub (as_int128 c) q)

  -- One round of `VMin3` and `VMax3`.
  unfoldable pub extreme : Opcode → ValueType → Value → Value → Value
  extreme op lane r v =
      let below =
        if is_float_type lane
        then fl.lt (as_double v) (as_double r)
        else Int128.lt_signed (as_int128 v) (as_int128 r) in
      let above =
        if is_float_type lane
        then fl.lt (as_double r) (as_double v)
        else Int128.lt_signed (as_int128 r) (as_int128 v) in
      if (if op == Opcode.v_min3 then below else above) then v else r

  unfoldable pub triples : Opcode → ValueType → ValueType → ℕ → List Value → Run Value → Run Value
  triples op width lane n args others =
      switch op
        ((
          Opcode.v_clamp ∷ [],
          (do
            needs args 3
            a ← arg_at args 0
            b ← arg_at args 1
            c ← arg_at args 2
            set_lanes lane
                (λ i.
                  ok
                    (clamped_lane lane (get_lane a lane i) (get_lane b lane i) (get_lane c lane i)))
                0 n (blank width)),
        )
          ∷ (
            Opcode.v_lerp ∷ [],
            (do
              needs args 3
              a ← arg_at args 0
              b ← arg_at args 1
              c ← arg_at args 2
              set_lanes lane
                  (λ i. ok (
                    lerp_lane lane (as_double (get_lane a lane i)) (as_double (get_lane b lane i))
                      (as_double (get_lane c lane i))))
                  0 n (blank width)),
          )
          ∷ (
            Opcode.v_mla ∷ Opcode.v_mls ∷ Opcode.v_madd ∷ Opcode.v_msub ∷ [],
            (do
              needs args 3
              a ← arg_at args 0
              b ← arg_at args 1
              c ← arg_at args 2
              set_lanes lane
                  (λ i. ok (
                    multiply_add_lane op lane (get_lane a lane i) (get_lane b lane i)
                      (get_lane c lane i)))
                  0 n (blank width)),
          )
          ∷ (
            Opcode.v_min3 ∷ Opcode.v_max3 ∷ [],
            (do
              needs args 3
              a ← arg_at args 0
              b ← arg_at args 1
              c ← arg_at args 2
              set_lanes lane
                  (λ i. ok (
                    extreme op lane (extreme op lane (get_lane a lane i) (get_lane b lane i))
                      (get_lane c lane i)))
                  0 n (blank width)),
          )
          ∷ (
            Opcode.v_cmpeq ∷ Opcode.v_cmpne ∷ Opcode.v_cmplt ∷ Opcode.v_cmpgt ∷ Opcode.v_cmple
                ∷ Opcode.v_cmpge ∷ Opcode.v_ucmplt ∷ Opcode.v_ucmpgt ∷ Opcode.v_ucmple
                ∷ Opcode.v_ucmpge ∷ Opcode.v_cmpord ∷ Opcode.v_cmpuno ∷ [],
            (do
              needs args 2
              a ← arg_at args 0
              b ← arg_at args 1
              set_lanes lane
                  (λ i. lane_compare op lane (get_lane a lane i) (get_lane b lane i) >>= λ t.
                    ok (if t then all_ones lane else all_zero lane))
                  0 n (blank width)),
          )
          ∷ [])
        others

  -- The first `switch` of `vectorCompute`, on the instructions without operands.
  unfoldable pub constants : Opcode → ValueType → ValueType → ℕ → List Value → Run Value → Run Value
  constants op width lane n args others =
      switch op
        ((Opcode.v_zero ∷ [], ok (blank width))
          ∷ (Opcode.v_ones ∷ [], set_lanes lane (λ i. ok (all_ones lane)) 0 n (blank width))
          ∷ (
            Opcode.v_iota ∷ [],
            set_lanes lane
                (λ i. ok (
                  if is_float_type lane
                  then from_double lane (fl.of_int128 i)
                  else from_int128 lane i))
                0 n (blank width),
          )
          ∷ (Opcode.v_len ∷ [], ok (from_int128 i32 n))
          ∷ [])
        others

  module _ ⦃ml : MathLib⦄ where
    -- What `vectorCompute` does behind its cases: `laneBinary` or `laneUnary` on each lane.
    unfoldable pub lane_by_lane : Opcode → ValueType → ValueType → ℕ → List Value → Run Value
    lane_by_lane op width lane n args =
        if leb 2 (length args)
        then (do
          a ← arg_at args 0
          b ← arg_at args 1
          set_lanes lane (λ i. lane_binary op lane (get_lane a lane i) (get_lane b lane i)) 0 n
              (blank width))
        else (do
          a ← arg_at args 0
          set_lanes lane (λ i. lane_unary op lane (get_lane a lane i)) 0 n (blank width))

    -- `vectorCompute`.
    unfoldable pub vector_compute : Opcode → ValueType → ValueType → List Value → Run Value
    vector_compute op width lane args = do
      n ← lane_count width lane
      constants op width lane n args (
          needs args 1
          >> horizontal op width lane n args (
              shuffles op width lane n args
                (triples op width lane n args (lane_by_lane op width lane n args))))
