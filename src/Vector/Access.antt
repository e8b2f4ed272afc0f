-- ===== src/Vector/Access.antt =====
-- `vectorGetLane` after `vectorSetLane`, and what the loops over lanes in src/vm/vector_ops.cpp leave.
use uasm.Base.{
  subst, Result-cases, ℕ, zero, suc, ◌+◌, ◌*◌, ◌%◌, ◌^◌, ◌<◌, ◌≤◌, ◌≡◌, refl, sym, ◌∙◌, ap, arith,
  ok, err, inl, inr, ◌⊎◌,
}
use uasm.Runtime.{Run}
use uasm.Types.{ValueType, size_of_type}
use uasm.Value.Defs.{Value, value}
use uasm.Vector.Lanes.{get_lane, set_lane, set_lanes}
use uasm.Vector.Splice.{splice_self, splice-inside, splice-below, splice-above}

-- A value of the type of a lane, with no bit outside it.
pub record IsLane (lane : ValueType) (x : Value) : Type 0 where
  pub same : x ≡ value lane (x.bits % 2 ^ (8 * size_of_type lane))

before : (i j s : ℕ) → j < i → 8 * (j * s) + 8 * s ≤ 8 * (i * s)
before i j s h = grind arith

module _ (v : Value) (lane : ValueType) (i : ℕ) (x : Value) where
  pub get_lane-set_lane :
      get_lane (set_lane v lane i x) lane i ≡ value lane (x.bits % 2 ^ (8 * size_of_type lane))
  unfolding get_lane set_lane
  get_lane-set_lane =
      ap (value lane)
        (splice-inside v.bits (8 * (i * size_of_type lane)) (8 * size_of_type lane) x.bits)

  pub get_lane-set_lane_below :
      (j : ℕ) → j < i → get_lane (set_lane v lane i x) lane j ≡ get_lane v lane j
  unfolding get_lane set_lane
  get_lane-set_lane_below j h = ap (value lane) (
      splice-below v.bits (8 * (i * size_of_type lane)) (8 * size_of_type lane) x.bits
        (8 * (j * size_of_type lane)) (8 * size_of_type lane) (before i j (size_of_type lane) h))

  pub get_lane-set_lane_above :
      (j : ℕ) → i < j → get_lane (set_lane v lane i x) lane j ≡ get_lane v lane j
  unfolding get_lane set_lane
  get_lane-set_lane_above j h =
      ap (λ y. value lane (y % 2 ^ (8 * size_of_type lane)))
        (splice-above v.bits (8 * (i * size_of_type lane)) (8 * size_of_type lane) x.bits
          (8 * (j * size_of_type lane)) (before j i (size_of_type lane) h))

-- Every lane of the result is what `f` gives for it, or an error is that of the first lane for which
-- `f` gives one.
pub IsLanewise : (ℕ → Run Value) → ℕ → ValueType → ValueType → Run Value → Type 0
IsLanewise f n width lane (ok v) =
    (v.type ≡ width) × ((i : ℕ) → i < n → f i ≡ ok (get_lane v lane i))
IsLanewise f n width lane (err e) =
    (i : ℕ) × (i < n) × (f i ≡ err e) × ((j : ℕ) → j < i → (x : Value) × (f j ≡ ok x))

-- The same of the lanes from `i` on, and the lanes before it are those of `out`.
FilledFrom : (ℕ → Run Value) → ValueType → ℕ → ℕ → Value → Run Value → Type 0
FilledFrom f lane i rounds out (ok v) =
    (v.type ≡ out.type)
    × ((j : ℕ) → j < i → get_lane v lane j ≡ get_lane out lane j)
    × ((j : ℕ) → i ≤ j → j < i + rounds → f j ≡ ok (get_lane v lane j))
FilledFrom f lane i rounds out (err e) =
    (k : ℕ) × (i ≤ k)
    × (k < i + rounds)
    × (f k ≡ err e)
    × ((j : ℕ) → i ≤ j → j < k → (x : Value) × (f j ≡ ok x))

pub first_or_later : (i j : ℕ) → i ≤ j → (i ≡ j) ⊎ (i < j)
first_or_later i j h = ground arith

module _ (f : ℕ → Run Value) (lane : ValueType)
    (fits : (i : ℕ) (x : Value) → f i ≡ ok x → IsLane lane x) where
  FilledFrom-next :
      (i rounds : ℕ) (out x : Value) (r : Run Value)
      → f i ≡ ok x
      → FilledFrom f lane (i + 1) rounds (set_lane out lane i x) r
      → FilledFrom f lane i (suc rounds) out r
  unfolding FilledFrom set_lane
  FilledFrom-next i rounds out x (ok v) e (type, below, filled) = (
    type,
    λ j h. below j (omega arith) ∙ get_lane-set_lane_below out lane i x j h,
    λ j lo hi. elim (first_or_later i j lo) [
      | inl same ↦
          let here : get_lane v lane i ≡ x =
            below i (omega arith) ∙ get_lane-set_lane out lane i x ∙ sym (fits i x e).same in
          subst (λ k. f k ≡ ok (get_lane v lane k)) same (e ∙ ap ok (sym here))
      | inr later ↦ filled j (omega arith) (omega arith)
    ],
  )
  FilledFrom-next i rounds out x (err thrown) e (k, lo, hi, fails, earlier) = (
    k,
    omega arith,
    omega arith,
    fails,
    λ j above below. elim (first_or_later i j above) [
      | inl same ↦ (x, subst (λ k. f k ≡ ok x) same e)
      | inr later ↦ earlier j (omega arith) below
    ],
  )

  set_lanes-FilledFrom :
      (rounds i : ℕ) (out : Value) → FilledFrom f lane i rounds out (set_lanes lane f i rounds out)
  unfolding set_lanes FilledFrom
  set_lanes-FilledFrom zero i out = (refl, λ j h. refl, λ j lo hi. absurd (omega arith))
  set_lanes-FilledFrom (suc rounds) i out = elim (Result-cases (f i)) [
    | inl (x, e) ↦ rw e (
        FilledFrom-next i rounds out x _ e
          (set_lanes-FilledFrom rounds (i + 1) (set_lane out lane i x)))
    | inr (thrown, e) ↦ rw e (i, omega arith, omega arith, e, λ j lo hi. absurd (omega arith))
  ]

  FilledFrom-IsLanewise :
      (n : ℕ) (out : Value) (r : Run Value)
      → FilledFrom f lane 0 n out r
      → IsLanewise f n out.type lane r
  unfolding FilledFrom IsLanewise
  FilledFrom-IsLanewise n out (ok v) (type, below, filled) =
      (type, λ i h. filled i (omega arith) (omega arith))
  FilledFrom-IsLanewise n out (err thrown) (k, lo, hi, fails, earlier) =
      (k, omega arith, fails, λ j h. earlier j (omega arith) h)

  pub set_lanes-IsLanewise :
      (n : ℕ) (out : Value) → IsLanewise f n out.type lane (set_lanes lane f 0 n out)
  set_lanes-IsLanewise n out = FilledFrom-IsLanewise n out _ (set_lanes-FilledFrom n 0 out)

-- Setting a lane to what it is.
pub set_lane-get_lane :
    (v : Value) (lane : ValueType) (i : ℕ) → set_lane v lane i (get_lane v lane i) ≡ v
unfolding set_lane get_lane
set_lane-get_lane v lane i =
    ap (value v.type) (splice_self v.bits (8 * (i * size_of_type lane)) (8 * size_of_type lane))
