-- ===== src/Vector/Operations.antt =====
-- The operations on one lane in src/vm/vector_ops.cpp: `laneCompare`, `laneBinary` and `laneUnary`.
use uasm.Base.{
  ℕ, ◌+◌, ◌-◌, ◌/◌, ◌%◌, ◌^◌, Bool, not, ◌&&◌, ◌||◌, ltb, leb, ◌==◌, [], ◌∷◌, ok, err,
  if◌then◌else◌, switch, one_of, ◌>>=◌,
}
use Prim.Native.Nat.{Ordering, bit_and, bit_or, bit_xor}
use uasm.Runtime.{RuntimeError, Run}
use uasm.Types.{ValueType, size_of_type, is_float_type}
use uasm.Ast.{Opcode}
use uasm.Ast.Opcode
use uasm.Value.Int128
use uasm.Value.Float.{FloatOps, MathLib}
use uasm.Value.Defs.{Value, as_int128, as_double, from_int128, from_double}
use uasm.Alu.Arith.{flag_of}
use uasm.Alu.Convert.{is_equal, is_less, is_greater}
use uasm.Alu.Float.{half, one_double, two_double}
use uasm.Alu.Loops.{uisqrt}
use uasm.Alu.Bits.{popcount_generic, clz_generic, ctz_generic, bswap_generic}
use uasm.Vector.Lanes.{
  is_signed_lane, lane_bits, lane_mask, masked, lane_signed_min, lane_signed_max, lane_unsigned,
}

-- The `switch` at the end of `laneCompare`.
unfoldable pub holds_for : Opcode → Ordering → Run Bool
holds_for op flag =
    switch op
      ((Opcode.v_cmpeq ∷ [], ok (is_equal flag))
        ∷ (Opcode.v_cmpne ∷ [], ok (not (is_equal flag)))
        ∷ (Opcode.v_cmplt ∷ Opcode.v_ucmplt ∷ [], ok (is_less flag))
        ∷ (Opcode.v_cmpgt ∷ Opcode.v_ucmpgt ∷ [], ok (is_greater flag))
        ∷ (Opcode.v_cmple ∷ Opcode.v_ucmple ∷ [], ok (not (is_greater flag)))
        ∷ (Opcode.v_cmpge ∷ Opcode.v_ucmpge ∷ [], ok (not (is_less flag)))
        ∷ [])
      (err RuntimeError.not_vector_comparison)

-- `if (r > hi) r = hi; if (r < lo) r = lo;`.
unfoldable pub clamp_signed : ℕ → ℕ → ℕ → ℕ
clamp_signed r lo hi =
    let r' = if Int128.lt_signed hi r then hi else r in if Int128.lt_signed r' lo then lo else r'

-- The shifts and rotations by `s` bits of a lane with the pattern `x` and its low bits `ux`.
unfoldable pub shift_lane : Opcode → ℕ → ℕ → ℕ → ℕ → ℕ
shift_lane op bits x ux s =
    if op == Opcode.v_shl
    then masked (Int128.shl ux s) bits
    else if op == Opcode.v_shr
    then ux / 2 ^ s
    else if op == Opcode.v_sar
    then Int128.shr_signed x s
    else if s == 0
    then ux
    else if op == Opcode.v_rotl
    then masked (bit_or (Int128.shl ux s) (ux / 2 ^ (bits - s))) bits
    else masked (bit_or (ux / 2 ^ s) (Int128.shl ux (bits - s))) bits

module _ ⦃fl : FloatOps⦄ where
  -- The flag of the comparison of two unsigned and of two signed numbers.
  abbrev unsigned_flag : ℕ → ℕ → Ordering
  unsigned_flag x y = flag_of (ltb x y) (ltb y x)

  abbrev signed_flag : ℕ → ℕ → Ordering
  signed_flag x y = flag_of (Int128.lt_signed x y) (Int128.lt_signed y x)

  -- `laneCompare`.
  unfoldable pub lane_compare : Opcode → ValueType → Value → Value → Run Bool
  lane_compare op lane a b =
      let unordered =
        not (fl.equal (as_double a) (as_double a)) || not (fl.equal (as_double b) (as_double b)) in
      if one_of op (Opcode.v_cmpord ∷ Opcode.v_cmpuno ∷ [])
      then ok (if op == Opcode.v_cmpuno then unordered else not unordered)
      else if one_of op (Opcode.v_ucmplt ∷ Opcode.v_ucmpgt ∷ Opcode.v_ucmple ∷ Opcode.v_ucmpge ∷ [])
      then holds_for op (unsigned_flag (lane_unsigned a lane) (lane_unsigned b lane))
      else if is_float_type lane
      then (if unordered
          then ok (op == Opcode.v_cmpne)
          else holds_for op
              (flag_of (fl.lt (as_double a) (as_double b)) (fl.lt (as_double b) (as_double a))))
      else holds_for op (signed_flag (as_int128 a) (as_int128 b))

  -- The first `switch` of `laneBinary`, on two `double`s, with what follows it.
  unfoldable pub float_lane_binary : Opcode → ValueType → ℕ → ℕ → Run Value → Run Value
  float_lane_binary op lane x y others =
      let smaller = if fl.lt x y then x else y in
      let greater = if fl.lt y x then x else y in
      switch op
        ((Opcode.v_add ∷ Opcode.v_hadd ∷ [], ok (from_double lane (fl.add x y)))
          ∷ (Opcode.v_sub ∷ Opcode.v_hsub ∷ [], ok (from_double lane (fl.sub x y)))
          ∷ (Opcode.v_mul ∷ [], ok (from_double lane (fl.mul x y)))
          ∷ (Opcode.v_div ∷ [], ok (from_double lane (fl.div x y)))
          ∷ (Opcode.v_min ∷ [], ok (from_double lane smaller))
          ∷ (Opcode.v_max ∷ [], ok (from_double lane greater))
          ∷ (Opcode.v_fmin ∷ [], ok (from_double lane (number_of x y smaller)))
          ∷ (Opcode.v_fmax ∷ [], ok (from_double lane (number_of x y greater)))
          ∷ (Opcode.v_avg ∷ [], ok (from_double lane (fl.div (fl.add x y) two_double)))
          ∷ (
            Opcode.v_absdiff ∷ [],
            ok (from_double lane (if fl.lt y x then fl.sub x y else fl.sub y x)),
          )
          ∷ (
            Opcode.v_copysign ∷ [],
            ok (from_double lane (if fl.lt y fl.zero then fl.neg (fl.fabs x) else fl.fabs x)),
          )
          ∷ [])
        others
    where
      number_of : ℕ → ℕ → ℕ → ℕ
      number_of x y r = if not (fl.equal x x) then y else if not (fl.equal y y) then x else r

  -- The second `switch` of `laneBinary`, on the patterns of the operands and their low bits.
  unfoldable pub int_lane_binary : Opcode → ValueType → ℕ → ℕ → ℕ → ℕ → Run Value
  int_lane_binary op lane x y ux uy =
      let bits = lane_bits lane in
      let lo = lane_signed_min bits in
      let hi = lane_signed_max bits in
      let smaller = if Int128.lt_signed x y then x else y in
      let greater = if Int128.lt_signed y x then x else y in
      let sum = (ux + uy) % 2 ^ 128 in
      switch op
        ((Opcode.v_add ∷ Opcode.v_hadd ∷ [], ok (from_int128 lane (Int128.add x y)))
          ∷ (Opcode.v_sub ∷ Opcode.v_hsub ∷ [], ok (from_int128 lane (Int128.sub x y)))
          ∷ (Opcode.v_mul ∷ [], ok (from_int128 lane (Int128.mul x y)))
          ∷ (
            Opcode.v_div ∷ [],
            if y == 0
                then err RuntimeError.vector_division_by_zero
                else ok (from_int128 lane (Int128.div_signed x y)),
          )
          ∷ (Opcode.v_min ∷ Opcode.v_fmin ∷ [], ok (from_int128 lane smaller))
          ∷ (Opcode.v_max ∷ Opcode.v_fmax ∷ [], ok (from_int128 lane greater))
          ∷ (Opcode.v_and ∷ [], ok (from_int128 lane (bit_and x y)))
          ∷ (Opcode.v_or ∷ [], ok (from_int128 lane (bit_or x y)))
          ∷ (Opcode.v_xor ∷ [], ok (from_int128 lane (bit_xor x y)))
          ∷ (Opcode.v_andnot ∷ [], ok (from_int128 lane (bit_and x (Int128.complement y))))
          ∷ (
            Opcode.v_avg ∷ [],
            ok (from_int128 lane (Int128.add (bit_and ux uy) (bit_xor ux uy / 2))),
          )
          ∷ (
            Opcode.v_absdiff ∷ [],
            ok (from_int128 lane (if Int128.lt_signed y x then Int128.sub x y else Int128.sub y x)),
          )
          ∷ (
            Opcode.v_shl ∷ Opcode.v_shr ∷ Opcode.v_sar ∷ Opcode.v_rotl ∷ Opcode.v_rotr ∷ [],
            if Int128.is_neg y || leb bits (y % 2 ^ 64)
                then err RuntimeError.vector_shift_out_of_range
                else ok (from_int128 lane (shift_lane op bits x ux (y % 2 ^ 64))),
          )
          ∷ (
            Opcode.v_addsat ∷ [],
            ok (
                from_int128 lane (
                  if not (is_signed_lane lane)
                  then (if ltb (lane_mask bits) sum then lane_mask bits else sum)
                  else clamp_signed (Int128.add x y) lo hi)),
          )
          ∷ (
            Opcode.v_subsat ∷ [],
            ok (
                from_int128 lane (
                  if not (is_signed_lane lane)
                  then (if ltb ux uy then 0 else ux - uy)
                  else clamp_signed (Int128.sub x y) lo hi)),
          )
          ∷ (
            Opcode.v_mulhi ∷ [],
            if ltb 64 bits
                then err RuntimeError.vector_mulhi_128
                else ok (
                    from_int128 lane (
                      if is_signed_lane lane
                      then Int128.shr_signed (Int128.mul x y) bits
                      else Int128.mul ux uy / 2 ^ bits)),
          )
          ∷ [])
        (err RuntimeError.not_vector_binary)

  -- `laneBinary`.
  unfoldable pub lane_binary : Opcode → ValueType → Value → Value → Run Value
  lane_binary op lane a b =
      let ints =
        int_lane_binary op lane (as_int128 a) (as_int128 b) (lane_unsigned a lane)
          (lane_unsigned b lane) in
      if is_float_type lane
      then float_lane_binary op lane (as_double a) (as_double b) ints
      else ints

  -- The second `switch` of `laneUnary`.
  unfoldable pub int_lane_unary : Opcode → ValueType → ℕ → ℕ → Run Value
  int_lane_unary op lane x ux =
      let bits = lane_bits lane in
      switch op
        ((Opcode.v_abs ∷ [], ok (from_int128 lane (if Int128.is_neg x then Int128.neg x else x)))
          ∷ (Opcode.v_neg ∷ [], ok (from_int128 lane (Int128.neg x)))
          ∷ (Opcode.v_not ∷ [], ok (from_int128 lane (Int128.complement x)))
          ∷ (
            Opcode.v_sqrt ∷ [],
            if Int128.is_neg x
                then err RuntimeError.vector_sqrt_negative
                else uisqrt x >>= λ g. ok (from_int128 lane g),
          )
          ∷ (Opcode.v_popcount ∷ [], ok (from_int128 lane (popcount_generic ux bits)))
          ∷ (Opcode.v_clz ∷ [], ok (from_int128 lane (clz_generic ux bits)))
          ∷ (Opcode.v_ctz ∷ [], ok (from_int128 lane (ctz_generic ux bits)))
          ∷ (Opcode.v_bswap ∷ [], ok (from_int128 lane (bswap_generic ux (size_of_type lane))))
          ∷ (
            Opcode.v_floor ∷ Opcode.v_ceil ∷ Opcode.v_round ∷ Opcode.v_trunc ∷ Opcode.v_nearest
                ∷ [],
            ok (from_int128 lane x),
          )
          ∷ [])
        (err RuntimeError.not_vector_unary)

  module _ ⦃ml : MathLib⦄ where
    -- `VNearest`.
    unfoldable pub nearest_double : ℕ → ℕ
    nearest_double x =
        let r = ml.floor (fl.add x half) in
        if fl.equal (fl.sub r x) half && not (fl.is_zero (ml.fmod r two_double))
        then fl.sub r one_double
        else r

    -- The first `switch` of `laneUnary`, with what follows it.
    unfoldable pub float_lane_unary : Opcode → ValueType → ℕ → Run Value → Run Value
    float_lane_unary op lane x others =
        switch op
          ((Opcode.v_abs ∷ [], ok (from_double lane (fl.fabs x)))
            ∷ (Opcode.v_neg ∷ [], ok (from_double lane (fl.neg x)))
            ∷ (Opcode.v_sqrt ∷ [], ok (from_double lane (ml.sqrt x)))
            ∷ (Opcode.v_recip ∷ [], ok (from_double lane (fl.div one_double x)))
            ∷ (Opcode.v_rsqrt ∷ [], ok (from_double lane (fl.div one_double (ml.sqrt x))))
            ∷ (Opcode.v_floor ∷ [], ok (from_double lane (ml.floor x)))
            ∷ (Opcode.v_ceil ∷ [], ok (from_double lane (ml.ceil x)))
            ∷ (Opcode.v_round ∷ [], ok (from_double lane (ml.floor (fl.add x half))))
            ∷ (Opcode.v_trunc ∷ [], ok (from_double lane (ml.trunc x)))
            ∷ (Opcode.v_nearest ∷ [], ok (from_double lane (nearest_double x)))
            ∷ [])
          others

    -- `laneUnary`.
    unfoldable pub lane_unary : Opcode → ValueType → Value → Run Value
    lane_unary op lane a =
        let ints = int_lane_unary op lane (as_int128 a) (lane_unsigned a lane) in
        if is_float_type lane then float_lane_unary op lane (as_double a) ints else ints
