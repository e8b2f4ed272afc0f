-- ===== src/Vector/Yields.antt =====
-- The operations on one lane in src/vm/vector_ops.cpp give values of the type of the lane, one rule for
-- each way to build a result.
use uasm.Base.{
  refl, subst, ℕ, ◌*◌, ◌%◌, ◌^◌, ◌≡◌, sym, ap, arith, Bool, true, false, List, [], ◌∷◌, ok, err,
  if◌then◌else◌, switch, one_of, Ensures, ◌>>=◌,
}
use native.Mathlib.Nat.{mod-mod}
use uasm.Runtime.{RuntimeError, Run}
use uasm.Types.{
  ValueType, i8, u8, i16, u16, i32, u32, i64, u64, i128, u128, f32, f64, ptr, size_of_type,
}
use uasm.Ast.{Opcode}
use uasm.Value.Float.{FloatOps, MathLib}
use uasm.Value.Defs.{Value, value, from_int128, from_double, from_int128_bits, from_double_bits}
use uasm.Vector.Lanes.{get_lane}
use uasm.Vector.Operations.{
  float_lane_binary, int_lane_binary, lane_binary, float_lane_unary, int_lane_unary, lane_unary,
}
use uasm.Vector.Access.{IsLane}

pub record Yields (lane : ValueType) (r : Run Value) : Type 0 where
  pub at : Ensures (IsLane lane) r

pub data YieldsRows (lane : ValueType) : List (List ℕ × Run Value) → Type 0 where
  end_of_rows : YieldsRows lane []
  row :
      {labels : List ℕ} {body : Run Value} {rest : List (List ℕ × Run Value)}
      → Yields lane body
      → YieldsRows lane rest
      → YieldsRows lane ((labels, body) ∷ rest)

pub Yields-at :
    {lane : ValueType} {r : Run Value} {x : Value} → Yields lane r → r ≡ ok x → IsLane lane x
Yields-at {lane} y e = subst (Ensures (IsLane lane)) e y.at

module _ {lane : ValueType} where
  pub Yields-err : (e : RuntimeError) → Yields lane (err e)
  Yields-err e = record { at = tt }

  pub Yields-ok : (x : Value) → IsLane lane x → Yields lane (ok x)
  Yields-ok x h = record { at = h }

  pub Yields-if :
      (b : Bool) (x y : Run Value)
      → Yields lane x
      → Yields lane y
      → Yields lane (if b then x else y)
  Yields-if true x y h k = h
  Yields-if false x y h k = k

  pub Yields-bind :
      {A : Type 0} (r : Run A) (next : A → Run Value)
      → ((a : A) → Yields lane (next a))
      → Yields lane (r >>= next)
  Yields-bind (err e) next k = Yields-err e
  Yields-bind (ok a) next k = k a

  pub Yields-switch :
      (label : ℕ) (rows : List (List ℕ × Run Value)) (default : Run Value)
      → YieldsRows lane rows
      → Yields lane default
      → Yields lane (switch label rows default)
  unfolding switch
  Yields-switch label [] default k kd = kd
  Yields-switch label ((labels, body) ∷ rest) default (row k ks) kd =
      Yields-if (one_of label labels) body (switch label rest default) k
        (Yields-switch label rest default ks kd)

  pub IsLane-if :
      (b : Bool) (x y : Value) → IsLane lane x → IsLane lane y → IsLane lane (if b then x else y)
  IsLane-if true x y h k = h
  IsLane-if false x y h k = k

pub get_lane-IsLane : (v : Value) (lane : ValueType) (i : ℕ) → IsLane lane (get_lane v lane i)
unfolding get_lane
get_lane-IsLane v lane i = record {
  same = ap (value lane) (sym (mod-mod _ (2 ^ (8 * size_of_type lane))));
}

module _ ⦃fl : FloatOps⦄ where
  int_bits :
      (t : ValueType) (v : ℕ)
      → from_int128_bits t v ≡ from_int128_bits t v % 2 ^ (8 * size_of_type t)
  unfolding from_int128_bits size_of_type
  int_bits i8 v = omega arith
  int_bits u8 v = omega arith
  int_bits i16 v = omega arith
  int_bits u16 v = omega arith
  int_bits i32 v = omega arith
  int_bits u32 v = omega arith
  int_bits i64 v = omega arith
  int_bits u64 v = omega arith
  int_bits i128 v = omega arith
  int_bits u128 v = omega arith
  int_bits f32 v = omega arith
  int_bits f64 v = omega arith
  int_bits ptr v = omega arith
  int_bits _ v = refl

  double_bits :
      (t : ValueType) (v : ℕ)
      → from_double_bits t v ≡ from_double_bits t v % 2 ^ (8 * size_of_type t)
  unfolding from_double_bits size_of_type
  double_bits i8 v = omega arith
  double_bits u8 v = omega arith
  double_bits i16 v = omega arith
  double_bits u16 v = omega arith
  double_bits i32 v = omega arith
  double_bits u32 v = omega arith
  double_bits i64 v = omega arith
  double_bits u64 v = omega arith
  double_bits i128 v = omega arith
  double_bits u128 v = omega arith
  double_bits f32 v = omega arith
  double_bits f64 v = omega arith
  double_bits ptr v = omega arith
  double_bits _ v = refl

  module _ {lane : ValueType} where
    pub from_int128-IsLane : (v : ℕ) → IsLane lane (from_int128 lane v)
    unfolding from_int128
    from_int128-IsLane v = record { same = ap (value lane) (int_bits lane v) }

    pub from_double-IsLane : (v : ℕ) → IsLane lane (from_double lane v)
    unfolding from_double
    from_double-IsLane v = record { same = ap (value lane) (double_bits lane v) }

    pub ruleset yields_rules = (
      Yields-err, Yields-ok, Yields-if, Yields-bind, Yields-switch, row, end_of_rows, IsLane-if,
      get_lane-IsLane, from_int128-IsLane, from_double-IsLane,
    )

    int_lane_binary-Yields :
        (op : Opcode) (x y ux uy : ℕ) → Yields lane (int_lane_binary op lane x y ux uy)
    unfolding int_lane_binary
    int_lane_binary-Yields op x y ux uy = search yields_rules depth 40 fits 5000

    pub lane_binary-Yields : (op : Opcode) (a b : Value) → Yields lane (lane_binary op lane a b)
    unfolding lane_binary float_lane_binary
    lane_binary-Yields op a b = search (yields_rules, int_lane_binary-Yields) depth 40 fits 5000

    int_lane_unary-Yields : (op : Opcode) (x ux : ℕ) → Yields lane (int_lane_unary op lane x ux)
    unfolding int_lane_unary
    int_lane_unary-Yields op x ux = search yields_rules depth 40 fits 5000

    pub lane_unary-Yields :
        ⦃ml : MathLib⦄ (op : Opcode) (a : Value) → Yields lane (lane_unary op lane a)
    unfolding lane_unary float_lane_unary
    lane_unary-Yields op a = search (yields_rules, int_lane_unary-Yields) depth 40 fits 5000
