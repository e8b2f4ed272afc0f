-- ===== src/Vector/WideCompute.antt =====
-- `vectorComputeWide` of src/vm/vector_ops.cpp, with its cases from VInterleave128 on,
-- and `vectorComputeMasked`.
use uasm.Base.{
  ℕ, zero, suc, ◌+◌, ◌-◌, ◌*◌, ◌/◌, ◌%◌, ◌^◌, Bool, ltb, ◌==◌, List, [], ◌∷◌, ok, err,
  if◌then◌else◌, switch, ◌>>=◌, ◌>>◌,
}
use uasm.Runtime.{RuntimeError, Run}
use uasm.Types.{ValueType, is_float_type}
use uasm.Ast.{Opcode}
use uasm.Ast.Opcode
use uasm.Value.Int128
use uasm.Value.Float.{FloatOps, MathLib}
use uasm.Value.Defs.{Value, value, as_int128, as_double, from_int128, from_double}
use uasm.Vector.Lanes.{
  lane_mask, lane_count, get_lane, set_lane, blank, arg_at, needs, set_lanes, all_zero,
}
use uasm.Vector.Operations.{lane_binary, lane_unary}
use uasm.Vector.Masks.{mask_bit, mask_value, mask_logic, mask_counts}
use uasm.Vector.Wide.{wide_moves, interleaved}
use uasm.Vector.WideArith.{wide_lanes, wide_integers}

module _ ⦃fl : FloatOps⦄ ⦃ml : MathLib⦄ where
  unfoldable pub wide_rest : Opcode → ValueType → ValueType → ℕ → List Value → Run Value → Run Value
  wide_rest op width lane n args others =
      switch op
        ((
          Opcode.v_interleave128 ∷ Opcode.v_deinterleave128 ∷ [],
          (do
            needs args 2
            a ← arg_at args 0
            b ← arg_at args 1
            set_lanes lane (λ i. ok (interleaved lane a b i)) 0 n (blank width)),
        )
          ∷ (
            Opcode.v_getexp ∷ Opcode.v_getexppd ∷ [],
            (do
              a ← arg_at args 0
              set_lanes lane
                  (λ i. ok (
                    from_double lane
                      (fl.of_int128 (Int128.sub (ml.frexp (as_double (get_lane a lane i))).1 1))))
                  0 n (blank width)),
          )
          ∷ (
            Opcode.v_getmant ∷ Opcode.v_getmantpd ∷ [],
            (do
              a ← arg_at args 0
              set_lanes lane
                  (λ i. ok (from_double lane (ml.frexp (as_double (get_lane a lane i))).0)) 0 n
                  (blank width)),
          )
          ∷ (
            Opcode.v_scalef ∷ Opcode.v_scalefpd ∷ Opcode.v_scalefps ∷ [],
            (do
              needs args 2
              a ← arg_at args 0
              b ← arg_at args 1
              set_lanes lane
                  (λ i. ok (
                    from_double lane (
                      ml.ldexp (as_double (get_lane a lane i))
                        (as_int128 (get_lane b lane i) % 2 ^ 32))))
                  0 n (blank width)),
          )
          ∷ (
            Opcode.v_range ∷ Opcode.v_rangepd ∷ Opcode.v_rangeps ∷ Opcode.v_fixup ∷ [],
            (do
              needs args 2
              a ← arg_at args 0
              b ← arg_at args 1
              set_lanes lane
                  (λ i. ok (
                    from_double lane (
                      if fl.lt (as_double (get_lane a lane i)) (as_double (get_lane b lane i))
                      then as_double (get_lane a lane i)
                      else as_double (get_lane b lane i))))
                  0 n (blank width)),
          )
          ∷ (
            Opcode.v_reducepd ∷ Opcode.v_reduceps ∷ [],
            (do
              a ← arg_at args 0
              set_lanes lane
                  (λ i. ok (
                    from_double lane (
                      fl.sub (as_double (get_lane a lane i))
                        (ml.floor (as_double (get_lane a lane i))))))
                  0 n (blank width)),
          )
          ∷ (
            Opcode.v_cvtpd2ps ∷ Opcode.v_cvtps2pd ∷ Opcode.v_cvtdq2pd ∷ Opcode.v_cvtdq2ps ∷ [],
            (do
              a ← arg_at args 0
              set_lanes lane (λ i. ok (from_double lane (as_double (get_lane a lane i)))) 0 n
                  (blank width)),
          )
          ∷ (
            Opcode.v_cvtpd2dq ∷ Opcode.v_cvtps2dq ∷ [],
            (do
              a ← arg_at args 0
              set_lanes lane
                  (λ i. ok (from_int128 lane (fl.to_int128 (as_double (get_lane a lane i))))) 0 n
                  (blank width)),
          )
          ∷ (
            Opcode.v_widen256 ∷ Opcode.v_narrow256 ∷ [],
            (do
              a ← arg_at args 0
              set_lanes lane
                  (λ i. ok (
                    get_lane a lane (
                      if op == Opcode.v_widen256
                      then i / 2
                      else if ltb (i * 2) n
                      then i * 2
                      else n - 1)))
                  0 n (blank width)),
          )
          ∷ (
            Opcode.v_shufi64 ∷ Opcode.v_shufi32 ∷ [],
            (do
              needs args 3
              a ← arg_at args 0
              b ← arg_at args 1
              c ← arg_at args 2
              set_lanes lane
                  (λ i. ok (
                    get_lane (if ltb i (n / 2) then a else b) lane
                      (Int128.shr_signed (as_int128 c) (i * 2) % 2 ^ 2 % n)))
                  0 n (blank width)),
          )
          ∷ [])
        others

  -- `vectorComputeWide`.
  unfoldable pub vector_compute_wide : Opcode → ValueType → ValueType → List Value → Run Value
  vector_compute_wide op width lane args = do
    n ← lane_count width lane
    switch op
        ((Opcode.kset ∷ [], ok (mask_value (lane_mask n)))
          ∷ (Opcode.kclr ∷ [], ok (mask_value 0))
          ∷ [])
        (needs args 1
          >> mask_logic op width lane n args (
              mask_counts op width lane n args (
                wide_moves op width lane n args (
                  wide_lanes op width lane n args (
                    wide_integers op width lane n args (
                      wide_rest op width lane n args (err RuntimeError.vector_not_implemented)))))))

  -- The result of `vectorComputeMasked` in a lane that the mask has, from at most three operands.
  unfoldable pub masked_lane : Opcode → ValueType → List Value → ℕ → Run Value
  masked_lane op lane [] i = err RuntimeError.undefined
  masked_lane op lane (a ∷ []) i = lane_unary op lane (get_lane a lane i)
  masked_lane op lane (a ∷ b ∷ []) i = lane_binary op lane (get_lane a lane i) (get_lane b lane i)
  masked_lane op lane (a ∷ b ∷ c ∷ rest) i =
      let x = get_lane a lane i in
      let y = get_lane b lane i in
      let z = get_lane c lane i in
      ok (
        if is_float_type lane
        then from_double lane (fl.add (fl.mul (as_double x) (as_double y)) (as_double z))
        else from_int128 lane (Int128.add (Int128.mul (as_int128 x) (as_int128 y)) (as_int128 z)))

  -- The loop of `vectorComputeMasked` from lane `i`.
  unfoldable pub masked_lanes :
      Opcode → ValueType → Bool → ℕ → List Value → ℕ → ℕ → Value → Run Value
  masked_lanes op lane zeroes m operands i zero out = ok out
  masked_lanes op lane zeroes m operands i (suc rounds) out = do
    out' ←
        (if mask_bit m i
          then (masked_lane op lane operands i >>= λ r. ok (set_lane out lane i r))
          else ok (if zeroes then set_lane out lane i (all_zero lane) else out))
    masked_lanes op lane zeroes m operands (i + 1) rounds out'

  -- `vectorComputeMasked`: `args[0]` is the mask, and the lanes that it does not have stay those of
  -- `args[1]`.
  unfoldable pub vector_compute_masked :
      Opcode → ValueType → ValueType → List Value → Bool → Run Value
  vector_compute_masked op width lane [] zeroes =
      lane_count width lane >>= λ n. err RuntimeError.vector_operand_missing
  vector_compute_masked op width lane (mask ∷ []) zeroes =
      lane_count width lane >>= λ n. err RuntimeError.vector_operand_missing
  vector_compute_masked op width lane (mask ∷ first ∷ rest) zeroes = do
    n ← lane_count width lane
    masked_lanes op lane zeroes (as_int128 mask) (first ∷ rest) 0 n
        (if zeroes then blank width else value width first.bits)
