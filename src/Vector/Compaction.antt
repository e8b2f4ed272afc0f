-- ===== src/Vector/Compaction.antt =====
-- `VCompress` and `VExpand` of src/vm/vector_ops.cpp: the lanes of a mask, moved together and apart.
use uasm.Base.{
  ℕ, zero, suc, ◌+◌, ◌*◌, ◌^◌, ◌%◌, ◌<◌, ◌≤◌, ◌≡◌, refl, sym, ◌∙◌, ap, subst, arith, ◌-◌, true,
  false, [], ◌∷◌, ok, inl, inr, Bool-cases, if◌then◌else◌, switch, one_of,
}
use native.Mathlib.Nat.{zero-div, zero-mod}
use uasm.Types.{ValueType, size_of_type}
use uasm.Ast.Opcode
use uasm.Value.Float.{FloatOps, MathLib}
use uasm.Value.Defs.{Value, value, as_int128}
use uasm.Vector.Lanes.{get_lane, set_lane, for_lanes, blank, lane_count, arg_at}
use uasm.Vector.Masks.{mask_bit, mask_logic, mask_counts}
use uasm.Vector.Wide.{compressed, expanded, wide_moves}
use uasm.Vector.WideArith.{wide_lanes}
use uasm.Vector.WideCompute.{vector_compute_wide}
use uasm.Vector.Access.{
  get_lane-set_lane, get_lane-set_lane_below, get_lane-set_lane_above, first_or_later,
}
use uasm.Vector.Yields.{get_lane-IsLane}

-- How many of the lanes before lane `i` a mask has.
rank : ℕ → ℕ → ℕ
rank m zero = 0
rank m (suc i) = rank m i + (if mask_bit m i then 1 else 0)

rank-next : (m i : ℕ) → mask_bit m i ≡ true → rank m (i + 1) ≡ rank m i + 1
unfolding rank
rank-next m i h =
    let e : i + 1 ≡ suc i = omega arith in rw e (ap (λ b. rank m i + (if b then 1 else 0)) h)

rank-stays : (m i : ℕ) → mask_bit m i ≡ false → rank m (i + 1) ≡ rank m i
unfolding rank
rank-stays m i h =
    let e : i + 1 ≡ suc i = omega arith in
    rw e (ap (λ b. rank m i + (if b then 1 else 0)) h ∙ omega arith)

rank-le : (m i : ℕ) → rank m i ≤ rank m (i + 1)
rank-le m i = elim (Bool-cases (mask_bit m i)) [
  | inl h ↦ omega (arith, rank-next m i h)
  | inr h ↦ omega (arith, rank-stays m i h)
]

rank_monotone : (m i k : ℕ) → rank m i ≤ rank m (i + k)
rank_monotone m i zero =
    let e : rank m (i + 0) ≡ rank m i = ap (rank m) (omega arith) in omega arith
rank_monotone m i (suc k) =
    let e : rank m (i + suc k) ≡ rank m (i + k + 1) = ap (rank m) (omega arith) in
    omega (arith, rank_monotone m i k, rank-le m (i + k))

rank-lt : (m j i : ℕ) → j < i → mask_bit m j ≡ true → rank m j < rank m i
rank-lt m j i h b =
    let e : rank m (j + 1 + (i - (j + 1))) ≡ rank m i = ap (rank m) (omega arith) in
    omega (arith, rank-next m j b, rank_monotone m (j + 1) (i - (j + 1)))

-- What each round of a loop over lanes keeps.
for_lanes-keeps :
    {A : Type 0} (P : ℕ → A → Type 0) (f : ℕ → A → A)
    → ((i : ℕ) (acc : A) → P i acc → P (i + 1) (f i acc))
    → (rounds i : ℕ) (acc : A) → P i acc
    → P (i + rounds) (for_lanes f i rounds acc)
unfolding for_lanes
for_lanes-keeps P f keeps zero i acc h = subst (λ k. P k acc) (omega arith) h
for_lanes-keeps P f keeps (suc rounds) i acc h =
    subst (λ k. P k (for_lanes f (i + 1) rounds (f i acc))) (omega arith)
      (for_lanes-keeps P f keeps rounds (i + 1) (f i acc) (keeps i acc h))

module _ (lane : ValueType) (m : ℕ) (a : Value) where
  -- A lane that is set to a lane of `a`.
  moved :
      (out : Value) (i k : ℕ)
      → get_lane (set_lane out lane k (get_lane a lane i)) lane k ≡ get_lane a lane i
  moved out i k =
      get_lane-set_lane out lane k (get_lane a lane i) ∙ sym (get_lane-IsLane a lane i).same

  record Compressing (i : ℕ) (acc : ℕ × Value) : Type 0 where
    count : acc.0 ≡ rank m i
    lanes :
        (j : ℕ) → j < i → mask_bit m j ≡ true → get_lane acc.1 lane (rank m j) ≡ get_lane a lane j

  compress_round :
      (i : ℕ) (acc : ℕ × Value)
      → Compressing i acc
      → Compressing
          (i + 1)
          (if mask_bit m i then (acc.0 + 1, set_lane acc.1 lane acc.0 (get_lane a lane i)) else acc)
  compress_round i acc h = elim (Bool-cases (mask_bit m i)) [
    | inl has ↦ rw has (record {
      count = omega (arith, h.count, rank-next m i has);
      lanes = λ j below b. elim (first_or_later j i (omega arith)) [
        | inl same ↦ rw (same, ← h.count) (moved acc.1 i acc.0)
        | inr later ↦
            get_lane-set_lane_below acc.1 lane acc.0 _ (rank m j)
              (omega (arith, h.count, rank-lt m j i later b))
            ∙ h.lanes j later b
      ];
    })
    | inr lacks ↦ rw lacks (record {
      count = omega (arith, h.count, rank-stays m i lacks);
      lanes = λ j below b. elim (first_or_later j i (omega arith)) [
        | inl same ↦ absurd (cc)
        | inr later ↦ h.lanes j later b
      ];
    })
  ]

  record Expanding (i : ℕ) (acc : ℕ × Value) : Type 0 where
    count : acc.0 ≡ rank m i
    lanes :
        (j : ℕ)
        → j < i
        → get_lane acc.1 lane j
          ≡ (if mask_bit m j then get_lane a lane (rank m j) else value lane 0)
    empty : (j : ℕ) → i ≤ j → get_lane acc.1 lane j ≡ value lane 0

  expand_round :
      (i : ℕ) (acc : ℕ × Value)
      → Expanding i acc
      → Expanding
          (i + 1)
          (if mask_bit m i then (acc.0 + 1, set_lane acc.1 lane i (get_lane a lane acc.0)) else acc)
  expand_round i acc h = elim (Bool-cases (mask_bit m i)) [
    | inl has ↦ rw has (record {
      count = omega (arith, h.count, rank-next m i has);
      lanes = λ j below. elim (first_or_later j i (omega arith)) [
        | inl same ↦ rw (same, has, ← h.count) (moved acc.1 acc.0 i)
        | inr later ↦ get_lane-set_lane_below acc.1 lane i _ j later ∙ h.lanes j later
      ];
      empty = λ j above.
          get_lane-set_lane_above acc.1 lane i _ j (omega arith) ∙ h.empty j (omega arith);
    })
    | inr lacks ↦ rw lacks (record {
      count = omega (arith, h.count, rank-stays m i lacks);
      lanes = λ j below. elim (first_or_later j i (omega arith)) [
        | inl same ↦ rw (same, lacks) (h.empty i (omega arith))
        | inr later ↦ h.lanes j later
      ];
      empty = λ j above. h.empty j (omega arith);
    })
  ]

blank-get_lane : (width lane : ValueType) (j : ℕ) → get_lane (blank width) lane j ≡ value lane 0
unfolding get_lane
blank-get_lane width lane j = ap (value lane) (
    ap (λ y. y % 2 ^ (8 * size_of_type lane)) (zero-div (2 ^ (8 * (j * size_of_type lane))))
    ∙ zero-mod (2 ^ (8 * size_of_type lane)))

module _ (width lane : ValueType) (n : ℕ) (a : Value) (m : ℕ) where
  compressed-lanes :
      (j : ℕ)
      → j < n
      → mask_bit m j ≡ true
      → get_lane (compressed width lane n a m) lane (rank m j) ≡ get_lane a lane j
  unfolding compressed rank
  compressed-lanes j h b =
      let start : Compressing lane m a 0 (0, blank width) = record {
        count = refl;
        lanes = λ j below b. absurd (omega arith);
      } in
      (for_lanes-keeps (Compressing lane m a) _ (compress_round lane m a) n 0 (0, blank width)
          start).lanes
        j (omega arith) b

  expanded-lanes :
      (j : ℕ)
      → j < n
      → get_lane (expanded width lane n a m) lane j
        ≡ (if mask_bit m j then get_lane a lane (rank m j) else value lane 0)
  unfolding expanded rank
  expanded-lanes j h =
      let start : Expanding lane m a 0 (0, blank width) = record {
        count = refl;
        lanes = λ j below. absurd (omega arith);
        empty = λ j above. blank-get_lane width lane j;
      } in
      (for_lanes-keeps (Expanding lane m a) _ (expand_round lane m a) n 0 (0, blank width)
          start).lanes
        j (omega arith)

expanded-compressed :
    (width lane : ValueType) (n : ℕ) (a : Value) (m j : ℕ)
    → j < n
    → get_lane (expanded width lane n (compressed width lane n a m) m) lane j
      ≡ (if mask_bit m j then get_lane a lane j else value lane 0)
expanded-compressed width lane n a m j h = elim (Bool-cases (mask_bit m j)) [
  | inl has ↦
      expanded-lanes width lane n (compressed width lane n a m) m j h
      ∙ rw has (compressed-lanes width lane n a m j h has)
  | inr lacks ↦ expanded-lanes width lane n (compressed width lane n a m) m j h ∙ rw lacks refl
]

-- For a width and lane type with n lanes, `VCompress` of a vector with a mask returns, and so does
-- `VExpand` of the result with that mask; each of the n lanes is then that of the vector where the
-- mask has it, and zero elsewhere.
pub v_expand-v_compress :
    ⦃fl : FloatOps⦄ ⦃ml : MathLib⦄ (width lane : ValueType) (n : ℕ) (a mask : Value)
    → lane_count width lane ≡ ok n
    → (c e : Value) × (vector_compute_wide Opcode.v_compress width lane (a ∷ mask ∷ []) ≡ ok c)
      × (vector_compute_wide Opcode.v_expand width lane (c ∷ mask ∷ []) ≡ ok e)
      × ((j : ℕ)
          → j < n
          → get_lane e lane j
            ≡ (if mask_bit (as_int128 mask) j then get_lane a lane j else value lane 0))
unfolding vector_compute_wide mask_logic mask_counts wide_moves wide_lanes switch one_of arg_at
v_expand-v_compress width lane n a mask counts =
    let c = compressed width lane n a (as_int128 mask) in
    (
      c,
      expanded width lane n c (as_int128 mask),
      rw counts refl,
      rw counts refl,
      expanded-compressed width lane n a (as_int128 mask),
    )
