-- ===== src/Vector/Lanewise.antt =====
-- `vectorCompute` of src/vm/vector_ops.cpp on the opcodes that work lane by lane.
use uasm.Base.{
  sym, ap, ◌∙◌, subst, ℕ, ◌≡◌, ◌==◌, true, List, [], ◌∷◌, ok, if◌then◌else◌, one_of, switch,
  Bool-cases, inl, inr, ==_iff, ◌>>=◌,
}
use uasm.Runtime.{Run}
use uasm.Types.{ValueType}
use uasm.Ast.{Opcode}
use uasm.Ast.Opcode
use uasm.Value.Float.{FloatOps, MathLib}
use uasm.Value.Defs.{Value}
use uasm.Vector.Lanes.{get_lane, set_lanes, blank, lane_count, arg_at, all_ones, all_zero}
use uasm.Vector.Operations.{lane_binary, lane_compare, lane_unary}
use uasm.Vector.Horizontal.{horizontal}
use uasm.Vector.Shuffles.{shuffles}
use uasm.Vector.Compute.{constants, triples, lane_by_lane, vector_compute}
use uasm.Vector.Access.{IsLanewise, set_lanes-IsLanewise}
use uasm.Vector.Yields.{Yields, Yields-at, yields_rules, lane_binary-Yields, lane_unary-Yields}

abbrev pub binary_ops : List Opcode
binary_ops =
    Opcode.v_add ∷ Opcode.v_sub ∷ Opcode.v_mul ∷ Opcode.v_div ∷ Opcode.v_min ∷ Opcode.v_max
    ∷ Opcode.v_fmin ∷ Opcode.v_fmax ∷ Opcode.v_and ∷ Opcode.v_or ∷ Opcode.v_xor ∷ Opcode.v_andnot
    ∷ Opcode.v_avg ∷ Opcode.v_absdiff ∷ Opcode.v_copysign ∷ Opcode.v_hadd ∷ Opcode.v_hsub
    ∷ Opcode.v_shl ∷ Opcode.v_shr ∷ Opcode.v_sar ∷ Opcode.v_rotl ∷ Opcode.v_rotr ∷ Opcode.v_addsat
    ∷ Opcode.v_subsat ∷ Opcode.v_mulhi ∷ []

abbrev pub comparison_ops : List Opcode
comparison_ops =
    Opcode.v_cmpeq ∷ Opcode.v_cmpne ∷ Opcode.v_cmplt ∷ Opcode.v_cmpgt ∷ Opcode.v_cmple
    ∷ Opcode.v_cmpge ∷ Opcode.v_ucmplt ∷ Opcode.v_ucmpgt ∷ Opcode.v_ucmple ∷ Opcode.v_ucmpge
    ∷ Opcode.v_cmpord ∷ Opcode.v_cmpuno ∷ []

abbrev pub unary_ops : List Opcode
unary_ops =
    Opcode.v_abs ∷ Opcode.v_neg ∷ Opcode.v_sqrt ∷ Opcode.v_recip ∷ Opcode.v_rsqrt ∷ Opcode.v_not
    ∷ Opcode.v_popcount ∷ Opcode.v_clz ∷ Opcode.v_ctz ∷ Opcode.v_bswap ∷ Opcode.v_floor
    ∷ Opcode.v_ceil ∷ Opcode.v_round ∷ Opcode.v_trunc ∷ Opcode.v_nearest ∷ []

pub data Each (P : Opcode → Type 0) : List Opcode → Type 0 where
  no_more : Each P []
  one_more : {op : Opcode} {ops : List Opcode} → P op → Each P ops → Each P (op ∷ ops)

-- What holds of each opcode of a list holds of one that is in it.
one_of-Each :
    (P : Opcode → Type 0) (op : Opcode) (ops : List Opcode)
    → Each P ops
    → one_of op ops ≡ true
    → P op
unfolding one_of
one_of-Each P op [] no_more e = absurd (cc)
one_of-Each P op (l ∷ ops) (one_more h hs) e = elim (Bool-cases (op == l)) [
  | inl same ↦ subst P (sym ((==_iff op l).0 same)) h
  | inr other ↦ one_of-Each P op ops hs (rw other at e)
]

module _ ⦃fl : FloatOps⦄ ⦃ml : MathLib⦄ (width lane : ValueType) (n : ℕ) (a b : Value) where
  abbrev pub binary_lane : Opcode → ℕ → Run Value
  binary_lane op i = lane_binary op lane (get_lane a lane i) (get_lane b lane i)

  -- All ones where the comparison holds, and zero where it does not.
  abbrev pub comparison_lane : Opcode → ℕ → Run Value
  comparison_lane op i = lane_compare op lane (get_lane a lane i) (get_lane b lane i) >>= λ t.
      ok (if t then all_ones lane else all_zero lane)

  abbrev pub unary_lane : Opcode → ℕ → Run Value
  unary_lane op i = lane_unary op lane (get_lane a lane i)

  each-IsLanewise :
      (f : ℕ → Run Value) (r : Run Value)
      → ((i : ℕ) → Yields lane (f i))
      → r ≡ set_lanes lane f 0 n (blank width)
      → IsLanewise f n width lane r
  each-IsLanewise f r y e =
      subst (IsLanewise f n width lane) (sym e)
        (set_lanes-IsLanewise f lane (λ i x. Yields-at (y i)) n (blank width))

  comparison_lane-Yields : (op : Opcode) (i : ℕ) → Yields lane (comparison_lane op i)
  unfolding all_ones all_zero
  comparison_lane-Yields op i = search yields_rules depth 20

  -- What `vectorCompute` runs on `args` with the opcodes of `ops`.
  abbrev Runs : (Opcode → ℕ → Run Value) → List Value → List Opcode → Type 0
  Runs f args ops =
      Each
        (λ op.
          vector_compute op width lane args
          ≡ (lane_count width lane >>= λ n. set_lanes lane (f op) 0 n (blank width)))
        ops

  binary_lane-Runs : Runs binary_lane (a ∷ b ∷ []) binary_ops
  unfolding vector_compute constants horizontal shuffles triples lane_by_lane switch one_of arg_at
  binary_lane-Runs = search (no_more, one_more) depth 40 fits 5000

  comparison_lane-Runs : Runs comparison_lane (a ∷ b ∷ []) comparison_ops
  unfolding vector_compute constants horizontal shuffles triples switch one_of arg_at
  comparison_lane-Runs = search (no_more, one_more) depth 40 fits 5000

  unary_lane-Runs : Runs unary_lane (a ∷ []) unary_ops
  unfolding vector_compute constants horizontal shuffles triples lane_by_lane switch one_of arg_at
  unary_lane-Runs = search (no_more, one_more) depth 40 fits 5000

  module _ (op : Opcode) (counts : lane_count width lane ≡ ok n) where
    Runs-IsLanewise :
        (f : Opcode → ℕ → Run Value) (args : List Value) (ops : List Opcode)
        → ((i : ℕ) → Yields lane (f op i))
        → Runs f args ops
        → one_of op ops ≡ true
        → IsLanewise (f op) n width lane (vector_compute op width lane args)
    Runs-IsLanewise f args ops y runs e = each-IsLanewise (f op) _ y (
        one_of-Each _ op ops runs e
        ∙ ap (λ r. r >>= λ n. set_lanes lane (f op) 0 n (blank width)) counts)

  -- An opcode with the vectors that it takes, and what it makes of their lanes `i`.
  pub data WorksOn (op : Opcode) : List Value → (ℕ → Run Value) → Type 0 where
    two_vectors : one_of op binary_ops ≡ true → WorksOn op (a ∷ b ∷ []) (binary_lane op)
    compared : one_of op comparison_ops ≡ true → WorksOn op (a ∷ b ∷ []) (comparison_lane op)
    one_vector : one_of op unary_ops ≡ true → WorksOn op (a ∷ []) (unary_lane op)

  -- For a width and lane type with n lanes, and an opcode of the lists above with as many vectors
  -- as it takes: where `vectorCompute` returns, the result has the width as its type, and each of
  -- its n lanes is what the operation on lanes returns for the lanes at that place; where it
  -- throws, the exception is that of the first lane for which the operation throws.
  pub vector_compute-IsLanewise :
      (op : Opcode) (args : List Value) (f : ℕ → Run Value)
      → lane_count width lane ≡ ok n
      → WorksOn op args f
      → IsLanewise f n width lane (vector_compute op width lane args)
  vector_compute-IsLanewise op args f counts (two_vectors e) =
      Runs-IsLanewise op counts binary_lane _ binary_ops (λ i. lane_binary-Yields op _ _)
        binary_lane-Runs e
  vector_compute-IsLanewise op args f counts (compared e) =
      Runs-IsLanewise op counts comparison_lane _ comparison_ops (comparison_lane-Yields op)
        comparison_lane-Runs e
  vector_compute-IsLanewise op args f counts (one_vector e) =
      Runs-IsLanewise op counts unary_lane _ unary_ops (λ i. lane_unary-Yields op _) unary_lane-Runs
        e
