-- ===== src/Vector/Shuffles.antt =====
-- The cases of `vectorCompute` in src/vm/vector_ops.cpp that choose and move lanes, from VSelect to
-- VConvert.
use uasm.Base.{
  ℕ, zero, suc, ◌+◌, ◌-◌, ◌*◌, ◌/◌, ◌%◌, ◌^◌, Bool, ◌&&◌, ltb, leb, ◌==◌, List, [], ◌∷◌, length, ok,
  if◌then◌else◌, switch, ◌>>=◌, ◌>>◌,
}
use Prim.Native.Nat.{bit_and, bit_or}
use uasm.Runtime.{Run}
use uasm.Types.{ValueType}
use uasm.Ast.{Opcode}
use uasm.Ast.Opcode
use uasm.Value.Int128
use uasm.Value.Float.{FloatOps}
use uasm.Value.Defs.{Value, as_int128, as_double, from_int128, from_double}
use uasm.Vector.Lanes.{
  lane_bits, lane_signed_min, lane_signed_max, get_lane, set_lane, blank, arg_at, needs, set_lanes,
  for_lanes, lane_unsigned, all_zero, lane_truthy, lane_value,
}
use uasm.Vector.Operations.{clamp_signed}

module _ ⦃fl : FloatOps⦄ where
  -- The lane `i` of `VBitselect`.
  unfoldable pub bit_select : ValueType → Value → Value → Value → Value
  bit_select lane a b m =
      let x = lane_unsigned a lane in
      let y = lane_unsigned b lane in
      let z = lane_unsigned m lane in
      from_int128 lane (bit_or (bit_and x z) (bit_and y (Int128.complement z)))

  -- The lane of `VShuffle` and `VSwizzle` for the index `k`, with the second source where there are
  -- two.
  unfoldable pub shuffled : Bool → ValueType → ℕ → Value → Value → ℕ → Value
  shuffled two_source lane n src second k =
      let kk = k % 2 ^ 64 in
      if Int128.is_neg k
      then all_zero lane
      else if ltb kk n
      then get_lane src lane kk
      else if two_source && ltb kk (2 * n)
      then get_lane second lane (kk - n)
      else all_zero lane

  -- The lane that `VRotate` moves to lane `i`.
  unfoldable pub rotated_from : ℕ → ℕ → ℕ → ℕ
  rotated_from n k i =
      let from = Int128.mod_signed (Int128.add i k) n in
      (if Int128.is_neg from then Int128.add from n else from) % 2 ^ 64

  -- The loop of `VShiftout`, with the lanes up to `i` left.
  unfoldable pub shift_out : ValueType → Value → ℕ → Value → Value
  shift_out lane a zero out = out
  shift_out lane a (suc i) out = shift_out lane a i (set_lane out lane (suc i) (get_lane a lane i))

  -- The lane that `VNarrow`, `VPacks` and `VPacku` make of a lane.
  unfoldable pub packed : Opcode → ValueType → Value → Value
  packed op lane v =
      if op == Opcode.v_packs
      then from_int128 lane (
          clamp_signed (as_int128 v) (lane_signed_min (lane_bits lane))
            (lane_signed_max (lane_bits lane)))
      else if op == Opcode.v_packu
      then from_int128 lane (if Int128.is_neg (as_int128 v) then 0 else as_int128 v)
      else v

  unfoldable pub narrowed : Opcode → ValueType → ℕ → Value → Value → ℕ → Value
  narrowed op lane n first second i =
      let h = n / 2 in
      let si = if ltb i h then i * 2 else (i - h) * 2 in
      packed op lane
        (get_lane (if ltb i h then first else second) lane (if leb n si then n - 1 else si))

  -- The lane of `VConvert`, `VCvtfp` and `VCvtint`.
  unfoldable pub converted : Opcode → ValueType → Value → Value
  converted op lane v =
      if op == Opcode.v_cvtfp
      then from_double lane (as_double v)
      else if op == Opcode.v_cvtint
      then from_int128 lane (as_int128 v)
      else v

  unfoldable pub shuffles : Opcode → ValueType → ValueType → ℕ → List Value → Run Value → Run Value
  shuffles op width lane n args others =
      switch op
        ((
          Opcode.v_select ∷ Opcode.v_blend ∷ [],
          (do
            needs args 3
            a ← arg_at args 0
            b ← arg_at args 1
            c ← arg_at args 2
            set_lanes lane
                (λ i. ok (get_lane (if lane_truthy (get_lane a lane i) lane then b else c) lane i))
                0 n (blank width)),
        )
          ∷ (
            Opcode.v_bitselect ∷ [],
            (do
              needs args 3
              a ← arg_at args 0
              b ← arg_at args 1
              c ← arg_at args 2
              set_lanes lane
                  (λ i.
                    ok
                      (bit_select lane (get_lane a lane i) (get_lane b lane i) (get_lane c lane i)))
                  0 n (blank width)),
          )
          ∷ (
            Opcode.v_shuffle ∷ Opcode.v_swizzle ∷ [],
            (do
              needs args 2
              a ← arg_at args 0
              b ← arg_at args 1
              idx ← arg_at args (length args - 1)
              set_lanes lane
                  (λ i. ok (
                    shuffled (op == Opcode.v_shuffle && leb 3 (length args)) lane n a b
                      (as_int128 (get_lane idx lane i))))
                  0 n (blank width)),
          )
          ∷ (
            Opcode.v_reverse ∷ [],
            (do
              a ← arg_at args 0
              set_lanes lane (λ i. ok (get_lane a lane (n - 1 - i))) 0 n (blank width)),
          )
          ∷ (
            Opcode.v_rotate ∷ [],
            (do
              needs args 2
              a ← arg_at args 0
              b ← arg_at args 1
              set_lanes lane (λ i. ok (get_lane a lane (rotated_from n (as_int128 b) i))) 0 n
                  (blank width)),
          )
          ∷ (
            Opcode.v_shiftin ∷ [],
            (do
              needs args 2
              a ← arg_at args 0
              b ← arg_at args 1
              out ← set_lanes lane (λ i. ok (get_lane a lane (i + 1))) 0 (n - 1) (blank width)
              ok (set_lane out lane (n - 1) (lane_value lane b))),
          )
          ∷ (
            Opcode.v_shiftout ∷ [],
            (do
              a ← arg_at args 0
              ok (set_lane (shift_out lane a (n - 1) (blank width)) lane 0 (all_zero lane))),
          )
          ∷ (
            Opcode.v_zip ∷ Opcode.v_unpacklo ∷ Opcode.v_unpackhi ∷ [],
            (do
              needs args 2
              a ← arg_at args 0
              b ← arg_at args 1
              base ← ok (if op == Opcode.v_unpackhi then n / 2 else 0)
              ok (
                  for_lanes
                    (λ i out.
                      set_lane (set_lane out lane (i * 2) (get_lane a lane (base + i))) lane
                        (i * 2 + 1) (get_lane b lane (base + i)))
                    0 (n / 2) (blank width))),
          )
          ∷ (
            Opcode.v_unzip ∷ [],
            (do
              needs args 2
              a ← arg_at args 0
              b ← arg_at args 1
              ok (
                  for_lanes
                    (λ i out.
                      set_lane (set_lane out lane i (get_lane a lane (i * 2))) lane (n / 2 + i)
                        (get_lane b lane (i * 2)))
                    0 (n / 2) (blank width))),
          )
          ∷ (
            Opcode.v_concat ∷ [],
            (do
              needs args 2
              a ← arg_at args 0
              b ← arg_at args 1
              ok (
                  for_lanes
                    (λ i out.
                      set_lane (set_lane out lane i (get_lane a lane i)) lane (n / 2 + i)
                        (get_lane b lane i))
                    0 (n / 2) (blank width))),
          )
          ∷ (
            Opcode.v_widenlo ∷ Opcode.v_widenhi ∷ Opcode.v_extend ∷ [],
            (do
              a ← arg_at args 0
              base ← ok (if op == Opcode.v_widenhi then n / 2 else 0)
              set_lanes lane
                  (λ i. ok (get_lane a lane (if ltb (base + i / 2) n then base + i / 2 else n - 1)))
                  0 n (blank width)),
          )
          ∷ (
            Opcode.v_narrow ∷ Opcode.v_packs ∷ Opcode.v_packu ∷ [],
            (do
              a ← arg_at args 0
              b ← arg_at args (if ltb (length args) 2 then 0 else 1)
              set_lanes lane (λ i. ok (narrowed op lane n a b i)) 0 n (blank width)),
          )
          ∷ (
            Opcode.v_convert ∷ Opcode.v_cvtfp ∷ Opcode.v_cvtint ∷ [],
            (do
              a ← arg_at args 0
              set_lanes lane (λ i. ok (converted op lane (get_lane a lane i))) 0 n (blank width)),
          )
          ∷ [])
        others
