-- ===== src/Vector/WideArith.antt =====
-- The cases of `vectorComputeWide` in src/vm/vector_ops.cpp from VShlv to VPopcntv.
use uasm.Base.{
  ℕ, ◌+◌, ◌-◌, ◌*◌, ◌/◌, ◌%◌, ◌^◌, ◌||◌, leb, ◌==◌, List, [], ◌∷◌, length, ok, err, if◌then◌else◌,
  switch, ◌>>=◌, ◌>>◌,
}
use Prim.Native.Nat.{bit_or}
use uasm.Runtime.{RuntimeError, Run}
use uasm.Types.{ValueType, is_float_type}
use uasm.Ast.{Opcode}
use uasm.Ast.Opcode
use uasm.Value.Int128
use uasm.Value.Float.{FloatOps, MathLib}
use uasm.Value.Defs.{Value, as_int128, as_double, from_int128, from_double}
use uasm.Vector.Lanes.{
  lane_bits, masked, get_lane, set_lane, blank, arg_at, needs, set_lanes, for_lanes, lane_unsigned,
  lane_sign_bit,
}
use uasm.Vector.Operations.{lane_unary}
use uasm.Vector.Wide.{compressed, expanded, aligned}

-- The shifts and rotations of a lane by a lane of bits, on its pattern and its low bits.
unfoldable pub shift_variable : Opcode → ℕ → ℕ → ℕ → ℕ → ℕ
shift_variable op bits sx x s =
    if op == Opcode.v_shlv
    then masked (Int128.shl x s) bits
    else if op == Opcode.v_shrv
    then x / 2 ^ s
    else if op == Opcode.v_sarv
    then Int128.shr_signed sx s
    else if s == 0
    then x
    else if op == Opcode.v_rotlv
    then masked (bit_or (Int128.shl x s) (x / 2 ^ (bits - s))) bits
    else masked (bit_or (x / 2 ^ s) (Int128.shl x (bits - s))) bits

-- The bits of `VTernlog`: `imm` is the table of a function of three bits.
unfoldable pub ternary_bits : ℕ → ℕ → ℕ → ℕ → ℕ → ℕ
ternary_bits imm bits a b c =
    for_lanes
      (λ i r.
        let idx = a / 2 ^ i % 2 * 4 + b / 2 ^ i % 2 * 2 + c / 2 ^ i % 2 in
        if imm / 2 ^ idx % 2 == 1 then bit_or r (Int128.shl 1 i) else r)
      0 bits 0

module _ ⦃fl : FloatOps⦄ where
  unfoldable pub shift_by_lane : Opcode → ValueType → Value → Value → Run Value
  shift_by_lane op lane a b =
      let k = as_int128 b in
      if Int128.is_neg k || leb (lane_bits lane) (k % 2 ^ 64)
      then err RuntimeError.vector_shift_out_of_range
      else ok (
          from_int128 lane
            (shift_variable op (lane_bits lane) (as_int128 a) (lane_unsigned a lane) (k % 2 ^ 64)))

  -- The lane `i` of `VConflict`: which of the lanes before it are equal to it.
  unfoldable pub conflicts : ValueType → Value → ℕ → ℕ
  conflicts lane a i =
      for_lanes
        (λ j m.
          if as_int128 (get_lane a lane j) == as_int128 (get_lane a lane i)
          then bit_or m (Int128.shl 1 j)
          else m)
        0 i 0

  -- The product of two lanes, with a lane of a third vector added where there is one.
  unfoldable pub multiply_wide : ValueType → Value → Value → ℕ → ℕ
  multiply_wide lane a b i =
      Int128.mul (as_int128 (get_lane a lane i)) (as_int128 (get_lane b lane i))

  unfoldable pub third_lane : ValueType → List Value → ℕ → Run ℕ
  third_lane lane args i =
      if leb 3 (length args)
      then (arg_at args 2 >>= λ c. ok (as_int128 (get_lane c lane i)))
      else ok 0

  -- The sum of `VSad` and `VMpsad`.
  unfoldable pub sum_differences : ValueType → ℕ → Value → Value → ℕ
  sum_differences lane n a b =
      for_lanes
        (λ i acc.
          let x = as_int128 (get_lane a lane i) in
          let y = as_int128 (get_lane b lane i) in
          Int128.add acc (if Int128.lt_signed y x then Int128.sub x y else Int128.sub y x))
        0 n 0

  -- The lane `r` of `VReduce2` and `VReduce4`: the sum of the `group` lanes from `r * group` on.
  unfoldable pub group_sum : ValueType → ℕ → Value → ℕ → Value
  group_sum lane group a r =
      if is_float_type lane
      then from_double lane (
          for_lanes (λ j acc. fl.add acc (as_double (get_lane a lane (r * group + j)))) 0 group
            fl.zero)
      else from_int128 lane (
          for_lanes (λ j acc. Int128.add acc (as_int128 (get_lane a lane (r * group + j)))) 0 group
            0)

  unfoldable pub wide_lanes :
      Opcode → ValueType → ValueType → ℕ → List Value → Run Value → Run Value
  wide_lanes op width lane n args others =
      switch op
        ((
          Opcode.v_shlv ∷ Opcode.v_shrv ∷ Opcode.v_sarv ∷ Opcode.v_rotlv ∷ Opcode.v_rotrv ∷ [],
          (do
            needs args 2
            a ← arg_at args 0
            b ← arg_at args 1
            set_lanes lane (λ i. shift_by_lane op lane (get_lane a lane i) (get_lane b lane i)) 0 n
                (blank width)),
        )
          ∷ (
            Opcode.v_align ∷ Opcode.v_alignd ∷ Opcode.v_alignq ∷ [],
            (do
              needs args 3
              a ← arg_at args 0
              b ← arg_at args 1
              c ← arg_at args 2
              set_lanes lane (λ i. aligned lane n a b (as_int128 c) i) 0 n (blank width)),
          )
          ∷ (
            Opcode.v_compress ∷ Opcode.v_compressk ∷ [],
            (do
              needs args 2
              a ← arg_at args 0
              b ← arg_at args 1
              ok (compressed width lane n a (as_int128 b))),
          )
          ∷ (
            Opcode.v_expand ∷ Opcode.v_expandk ∷ [],
            (do
              needs args 2
              a ← arg_at args 0
              b ← arg_at args 1
              ok (expanded width lane n a (as_int128 b))),
          )
          ∷ [])
        others

  module _ ⦃ml : MathLib⦄ where
    unfoldable pub wide_integers :
        Opcode → ValueType → ValueType → ℕ → List Value → Run Value → Run Value
    wide_integers op width lane n args others =
        switch op
          ((
            Opcode.v_conflict ∷ Opcode.v_conflictd ∷ Opcode.v_conflictq ∷ [],
            (do
              a ← arg_at args 0
              set_lanes lane (λ i. ok (from_int128 lane (conflicts lane a i))) 0 n (blank width)),
          )
            ∷ (
              Opcode.v_mulwide ∷ [],
              (do
                needs args 2
                a ← arg_at args 0
                b ← arg_at args 1
                set_lanes lane (λ i. ok (from_int128 lane (multiply_wide lane a b i))) 0 n
                    (blank width)),
            )
            ∷ (
              Opcode.v_maddwide ∷ Opcode.v_dpbusd ∷ Opcode.v_dpwssd ∷ [],
              (do
                needs args 2
                a ← arg_at args 0
                b ← arg_at args 1
                set_lanes lane
                    (λ i. third_lane lane args i >>= λ c.
                      ok (from_int128 lane (Int128.add (multiply_wide lane a b i) c)))
                    0 n (blank width)),
            )
            ∷ (
              Opcode.v_sad ∷ Opcode.v_mpsad ∷ [],
              (do
                needs args 2
                a ← arg_at args 0
                b ← arg_at args 1
                ok (set_lane (blank width) lane 0 (from_int128 lane (sum_differences lane n a b)))),
            )
            ∷ (
              Opcode.v_reduce2 ∷ Opcode.v_reduce4 ∷ [],
              (do
                a ← arg_at args 0
                group ← ok (if op == Opcode.v_reduce2 then 2 else 4)
                set_lanes lane (λ i. ok (group_sum lane group a i)) 0 (n / group) (blank width)),
            )
            ∷ (
              Opcode.v_ternlog ∷ Opcode.v_ternlogq ∷ Opcode.v_ternlogd ∷ [],
              (do
                needs args 4
                a ← arg_at args 0
                b ← arg_at args 1
                c ← arg_at args 2
                d ← arg_at args 3
                set_lanes lane
                    (λ i. ok (
                      from_int128 lane (
                        ternary_bits (as_int128 d % 2 ^ 8) (lane_bits lane)
                          (lane_unsigned (get_lane a lane i) lane)
                          (lane_unsigned (get_lane b lane i) lane)
                          (lane_unsigned (get_lane c lane i) lane))))
                    0 n (blank width)),
            )
            ∷ (
              Opcode.v_signselect ∷ Opcode.v_blendlane ∷ [],
              (do
                needs args 3
                a ← arg_at args 0
                b ← arg_at args 1
                c ← arg_at args 2
                set_lanes lane
                    (λ i.
                      ok
                        (get_lane (if lane_sign_bit (get_lane c lane i) lane then b else a) lane i))
                    0 n (blank width)),
            )
            ∷ (
              Opcode.v_lzcntv ∷ Opcode.v_lzcntd ∷ Opcode.v_lzcntq ∷ [],
              (do
                a ← arg_at args 0
                set_lanes lane (λ i. lane_unary Opcode.v_clz lane (get_lane a lane i)) 0 n
                    (blank width)),
            )
            ∷ (
              Opcode.v_popcntv ∷ Opcode.v_popcntd ∷ Opcode.v_popcntq ∷ Opcode.v_popcntb
                  ∷ Opcode.v_popcntw ∷ [],
              (do
                a ← arg_at args 0
                set_lanes lane (λ i. lane_unary Opcode.v_popcount lane (get_lane a lane i)) 0 n
                    (blank width)),
            )
            ∷ [])
          others
