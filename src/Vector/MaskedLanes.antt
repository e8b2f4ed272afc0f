-- ===== src/Vector/MaskedLanes.antt =====
-- `vectorComputeMasked` of src/vm/vector_ops.cpp, lane by lane.
use uasm.Base.{
  ℕ, zero, suc, ◌+◌, ◌≤◌, ◌≡◌, refl, sym, ◌∙◌, ap, arith, Bool, true, false, List, [], ◌∷◌, ok, inl,
  inr, Bool-cases, Result-cases, if◌then◌else◌, subst,
}
use uasm.Runtime.{Run}
use uasm.Types.{ValueType}
use uasm.Ast.{Opcode}
use uasm.Value.Float.{FloatOps, MathLib}
use uasm.Value.Defs.{Value, value, as_int128}
use uasm.Vector.Lanes.{get_lane, set_lane, set_lanes, blank, lane_count, all_zero}
use uasm.Vector.Masks.{mask_bit}
use uasm.Vector.WideCompute.{masked_lane, masked_lanes, vector_compute_masked}
use uasm.Vector.Access.{
  IsLanewise, set_lanes-IsLanewise, set_lane-get_lane, get_lane-set_lane_above,
}
use uasm.Vector.Yields.{Yields, Yields-at, yields_rules, lane_binary-Yields, lane_unary-Yields}

module _ ⦃fl : FloatOps⦄ ⦃ml : MathLib⦄ (op : Opcode) (lane : ValueType) (zeroes : Bool) (m : ℕ)
    (first : Value) (rest : List Value) where
  -- What a lane of the result is: the result of the operation where the mask has the lane, and zero
  -- or the lane of the first operand where it has not.
  abbrev pub chosen_lane : ℕ → Run Value
  chosen_lane i =
      if mask_bit m i
      then masked_lane op lane (first ∷ rest) i
      else ok (if zeroes then all_zero lane else get_lane first lane i)

  masked_lane-Yields :
      (operands : List Value) (i : ℕ) → Yields lane (masked_lane op lane operands i)
  unfolding masked_lane
  masked_lane-Yields [] i = search yields_rules
  masked_lane-Yields (a ∷ []) i = lane_unary-Yields op _
  masked_lane-Yields (a ∷ b ∷ []) i = lane_binary-Yields op _ _
  masked_lane-Yields (a ∷ b ∷ c ∷ operands) i = search yields_rules depth 10

  chosen_lane-Yields : (i : ℕ) → Yields lane (chosen_lane i)
  unfolding all_zero
  chosen_lane-Yields i = search (yields_rules, masked_lane-Yields) depth 10

  -- The lanes from `i` on are still those of the first operand, or will be zero.
  Untouched : ℕ → Value → Type 0
  Untouched i out = zeroes ≡ false → (j : ℕ) → i ≤ j → get_lane out lane j ≡ get_lane first lane j

  Untouched-set_lane :
      (i : ℕ) (out x : Value) → Untouched i out → Untouched (i + 1) (set_lane out lane i x)
  unfolding Untouched
  Untouched-set_lane i out x h e j above =
      get_lane-set_lane_above out lane i x j (omega arith) ∙ h e j (omega arith)

  -- A lane that the mask does not have.
  left_out :
      (i : ℕ) (out : Value)
      → Untouched i out
      → (b : Bool) → zeroes ≡ b
      → set_lane out lane i (if b then all_zero lane else get_lane first lane i)
        ≡ (if b then set_lane out lane i (all_zero lane) else out)
  unfolding Untouched
  left_out i out h true e = refl
  left_out i out h false e =
      ap (set_lane out lane i) (sym (h e i (omega arith))) ∙ set_lane-get_lane out lane i

  masked_lanes-set_lanes :
      (rounds i : ℕ) (out : Value)
      → Untouched i out
      → masked_lanes op lane zeroes m (first ∷ rest) i rounds out
        ≡ set_lanes lane chosen_lane i rounds out
  unfolding masked_lanes set_lanes
  masked_lanes-set_lanes zero i out h = refl
  masked_lanes-set_lanes (suc rounds) i out h = elim (Bool-cases (mask_bit m i)) [
    | inl has ↦ elim (Result-cases (masked_lane op lane (first ∷ rest) i)) [
      | inl (x, e) ↦
          rw (has, e)
            (masked_lanes-set_lanes rounds (i + 1) (set_lane out lane i x)
              (Untouched-set_lane i out x h))
      | inr (thrown, e) ↦ rw (has, e) refl
    ]
    | inr lacks ↦
        let x = if zeroes then all_zero lane else get_lane first lane i in
        rw (lacks, ← left_out i out h zeroes refl)
          (masked_lanes-set_lanes rounds (i + 1) (set_lane out lane i x)
            (Untouched-set_lane i out x h))
  ]

  start-Untouched :
      (width : ValueType) → Untouched 0 (if zeroes then blank width else value width first.bits)
  unfolding Untouched get_lane
  start-Untouched width e j above =
      ap (λ b. get_lane (if b then blank width else value width first.bits) lane j) e

  start-type :
      (width : ValueType) (b : Bool)
      → (if b then blank width else value width first.bits).type ≡ width
  start-type width true = refl
  start-type width false = refl

-- For a width and lane type with n lanes, a mask and at least one vector: where
-- `vectorComputeMasked` returns, the result has the width as its type, and each of its n lanes is
-- the result of the operation on lanes where the mask has the lane, and else zero if it zeroes and
-- the lane of the first vector if it merges; where it throws, the exception is that of the first
-- lane of the mask for which the operation throws.
pub vector_compute_masked-IsLanewise :
    ⦃fl : FloatOps⦄ ⦃ml : MathLib⦄ (op : Opcode) (width lane : ValueType) (n : ℕ) (zeroes : Bool)
    (mask first : Value) (rest : List Value)
    → lane_count width lane ≡ ok n
    → IsLanewise
        (chosen_lane op lane zeroes (as_int128 mask) first rest)
        n
        width
        lane
        (vector_compute_masked op width lane (mask ∷ first ∷ rest) zeroes)
unfolding vector_compute_masked
vector_compute_masked-IsLanewise op width lane n zeroes mask first rest counts =
    let out = if zeroes then blank width else value width first.bits in
    let f = chosen_lane op lane zeroes (as_int128 mask) first rest in
    rw
      (
        counts,
        masked_lanes-set_lanes op lane zeroes (as_int128 mask) first rest n 0 out
            (start-Untouched op lane zeroes (as_int128 mask) first rest width),
      )
      (subst (λ t. IsLanewise f n t lane (set_lanes lane f 0 n out))
        (start-type op lane zeroes (as_int128 mask) first rest width zeroes)
        (set_lanes-IsLanewise f lane
          (λ i x. Yields-at (chosen_lane-Yields op lane zeroes (as_int128 mask) first rest i)) n
          out))
