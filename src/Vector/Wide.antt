-- ===== src/Vector/Wide.antt =====
-- The cases of `vectorComputeWide` in src/vm/vector_ops.cpp from VLohalf to VPermvar, and the loops
-- of others that move lanes.
use uasm.Base.{
  ℕ, ◌+◌, ◌-◌, ◌*◌, ◌/◌, ◌%◌, ◌^◌, ◌||◌, ltb, leb, ◌==◌, List, [], ◌∷◌, ok, err, if◌then◌else◌,
  switch, ◌>>=◌, ◌>>◌,
}
use uasm.Runtime.{RuntimeError, Run}
use uasm.Types.{ValueType, v128, size_of_type}
use uasm.Ast.{Opcode}
use uasm.Ast.Opcode
use uasm.Value.Int128
use uasm.Value.Float.{FloatOps}
use uasm.Value.Defs.{Value, value, as_int128}
use uasm.Vector.Lanes.{get_lane, set_lane, blank, arg_at, needs, set_lanes, for_lanes}
use uasm.Vector.Masks.{mask_bit}

-- The lane of the 128-bit group that an operand names: `static_cast<size_t>(k) * per`, checked.
unfoldable pub group_start : ℕ → ℕ → ℕ → Run ℕ
group_start k per n =
    if Int128.is_neg k || leb n (k % 2 ^ 64 * per % 2 ^ 64)
    then err RuntimeError.lane_128_out_of_range
    else ok (k % 2 ^ 64 * per % 2 ^ 64)

-- The number of lanes in 128 bits.
abbrev pub per_group : ValueType → ℕ
per_group lane = 16 / size_of_type lane

-- `halfVector`.
unfoldable pub half_vector : Value → ValueType → ℕ → ℕ → Run Value
half_vector src lane n half =
    set_lanes lane (λ i. ok (get_lane src lane (half * (n / 2) + i))) 0 (n / 2) (blank v128)

-- `VPerm128`, on the selector `sel`.
unfoldable pub perm128 : ValueType → ValueType → ℕ → Value → ℕ → Value
perm128 width lane n a sel =
    let per = per_group lane in
    let groups = n / per in
    for_lanes
      (λ g out.
        let k = Int128.shr_signed sel (g * 4) % 2 ^ 4 in
        let src = if leb groups k then groups - 1 else k in
        for_lanes (λ i out. set_lane out lane (g * per + i) (get_lane a lane (src * per + i))) 0 per
          out)
      0 groups (blank width)

-- `VInterleave128` and `VDeinterleave128`: the lane for lane `i`.
unfoldable pub interleaved : ValueType → Value → Value → ℕ → Value
interleaved lane a b i =
    let per = per_group lane in
    let g = i / per in get_lane (if g % 2 == 0 then a else b) lane (g / 2 * per + i % per)

-- The loops of `VCompress` and `VExpand`, which count the lanes that the mask has.
unfoldable pub compressed : ValueType → ValueType → ℕ → Value → ℕ → Value
compressed width lane n a m =
    (for_lanes
      (λ i (acc : ℕ × Value).
        if mask_bit m i then (acc.0 + 1, set_lane acc.1 lane acc.0 (get_lane a lane i)) else acc)
      0 n (0, blank width)).1

unfoldable pub expanded : ValueType → ValueType → ℕ → Value → ℕ → Value
expanded width lane n a m =
    (for_lanes
      (λ i (acc : ℕ × Value).
        if mask_bit m i then (acc.0 + 1, set_lane acc.1 lane i (get_lane a lane acc.0)) else acc)
      0 n (0, blank width)).1

-- The lane of `VAlign` for lane `i`; a negative sum becomes a `size_t` far behind the vectors.
unfoldable pub aligned : ValueType → ℕ → Value → Value → ℕ → ℕ → Run Value
aligned lane n a b k i =
    let idx = Int128.mod_signed (Int128.add i k) (2 * n) in
    if Int128.is_neg idx
    then err RuntimeError.undefined
    else ok (if ltb idx n then get_lane a lane idx else get_lane b lane (idx - n))

module _ ⦃fl : FloatOps⦄ where
  unfoldable pub wide_moves :
      Opcode → ValueType → ValueType → ℕ → List Value → Run Value → Run Value
  wide_moves op width lane n args others =
      switch op
        ((Opcode.v_lohalf ∷ [], (do a ← arg_at args 0; half_vector a lane n 0))
          ∷ (Opcode.v_hihalf ∷ [], (do a ← arg_at args 0; half_vector a lane n 1))
          ∷ (
            Opcode.v_swaphalves ∷ [],
            (do
              a ← arg_at args 0
              ok (
                  for_lanes
                    (λ i out.
                      set_lane (set_lane out lane i (get_lane a lane (n / 2 + i))) lane (n / 2 + i)
                        (get_lane a lane i))
                    0 (n / 2) (blank width))),
          )
          ∷ (
            Opcode.v_combine ∷ [],
            (do
              needs args 2
              a ← arg_at args 0
              b ← arg_at args 1
              ok (
                  for_lanes
                    (λ i out.
                      set_lane (set_lane out lane i (get_lane a lane i)) lane (n / 2 + i)
                        (get_lane b lane i))
                    0 (n / 2) (blank width))),
          )
          ∷ (
            Opcode.v_extract128 ∷ [],
            (do
              needs args 2
              a ← arg_at args 0
              b ← arg_at args 1
              s ← group_start (as_int128 b) (per_group lane) n
              set_lanes lane (λ i. ok (get_lane a lane (s + i))) 0 (per_group lane) (blank v128)),
          )
          ∷ (
            Opcode.v_insert128 ∷ [],
            (do
              needs args 3
              a ← arg_at args 0
              b ← arg_at args 1
              c ← arg_at args 2
              s ← group_start (as_int128 b) (per_group lane) n
              ok (
                  for_lanes (λ i out. set_lane out lane (s + i) (get_lane c lane i)) 0
                    (per_group lane) (value width a.bits))),
          )
          ∷ (
            Opcode.v_broadcast128 ∷ [],
            (do
              a ← arg_at args 0
              set_lanes lane (λ i. ok (get_lane a lane (i % per_group lane))) 0 n (blank width)),
          )
          ∷ (
            Opcode.v_perm128 ∷ [],
            (do
              needs args 2
              a ← arg_at args 0
              b ← arg_at args 1
              ok (perm128 width lane n a (as_int128 b))),
          )
          ∷ (
            Opcode.v_permvar ∷ Opcode.v_permi64 ∷ Opcode.v_permi32 ∷ Opcode.v_permb ∷ Opcode.v_permw
                ∷ [],
            (do
              needs args 2
              a ← arg_at args 0
              b ← arg_at args 1
              set_lanes lane
                  (λ i. ok (get_lane a lane (as_int128 (get_lane b lane i) % 2 ^ 64 % n))) 0 n
                  (blank width)),
          )
          ∷ [])
        others
