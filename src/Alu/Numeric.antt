-- ===== src/Alu/Numeric.antt =====
-- Results on `gcd`, `nextPow2` and the logarithms of src/vm/interpreter.cpp.
use uasm.Base.{
  ℕ, zero, suc, ◌+◌, ◌*◌, ◌/◌, ◌%◌, ◌^◌, ◌≤◌, ◌<◌, ◌≡◌, refl, sym, subst, ◌∙◌, inl, inr, true,
  false, leb, ltb, ltb→lt, Bool-cases, ok, err, arith,
}
use native.Mathlib.Nat.{
  mod-lt, zero-lt-suc, eq-or-lt_of_le, mul-le-mul_right, add-mul, mul_assoc, div-add-mod', le_dest,
  le_of_lt, pow-suc, pow-le-pow_right,
}
use uasm.Value.Int128
use uasm.Runtime.{RuntimeError}
use uasm.Types.{ValueType, is_float_type}
use uasm.Ast.Opcode
use uasm.Value.Float.{FloatOps}
use uasm.Value.Defs.{Value, from_int128}
use uasm.Alu.Bits.{unsigned_of}
use uasm.Alu.Integer.{returning, int_binary_wide, int_binary_rest, int_binary_ext}
use uasm.Alu.Loops.{next_pow2_loop, next_pow2, gcd_loop}

-- `d` divides `n`.
abbrev pub Divides : ℕ → ℕ → Type 0
Divides d n = (k : ℕ) × (n ≡ k * d)

-- `g` is a greatest common divisor of `p` and `q`.
pub record IsGcd (g p q : ℕ) : Type 0 where
  pub left : Divides g p
  pub right : Divides g q
  pub greatest : (d : ℕ) → Divides d p → Divides d q → Divides d g

Divides-add : (d a b : ℕ) → Divides d a → Divides d b → Divides d (a + b)
Divides-add d a b (k, e) (l, f) = (k + l, cc (e, f, add-mul k l d))

Divides-mul : (d m n : ℕ) → Divides d n → Divides d (m * n)
Divides-mul d m n (k, e) = (m * k, cc (e, mul_assoc m k d))

Divides-add_cancel : (d a b : ℕ) → Divides d (a + b) → Divides d a → Divides d b
Divides-add_cancel d a b (k, e) (l, f) = elim (Bool-cases (ltb l k)) [
  | inr h ↦
      (let below : k ≤ l = ground arith in let big = mul-le-mul_right d below in (0, omega arith))
  | inl h ↦
      (let (m, e') = le_dest (le_of_lt (ltb→lt l k h)) in
        (let e'' : k * d ≡ l * d + m * d = cc (e', add-mul l m d) in (m, omega arith)))
]

gcd_loop-zero : (fuel p : ℕ) → gcd_loop fuel p 0 ≡ ok p
unfolding gcd_loop
gcd_loop-zero zero p = refl
gcd_loop-zero (suc fuel) p = refl

gcd_loop-suc : (fuel p q : ℕ) → gcd_loop (suc fuel) p (suc q) ≡ gcd_loop fuel (suc q) (p % suc q)
unfolding gcd_loop
gcd_loop-suc fuel p q = ground arith

gcd_loop-IsGcd : (fuel p q : ℕ) → q ≤ fuel → (g : ℕ) × (gcd_loop fuel p q ≡ ok g) × IsGcd g p q
unfolding gcd_loop
gcd_loop-IsGcd fuel p zero h = (
  p,
  gcd_loop-zero fuel p,
  record { left = (1, omega arith); right = (0, omega arith); greatest = λ d dp dq. dp },
)
gcd_loop-IsGcd zero p (suc q) h = absurd (omega arith)
gcd_loop-IsGcd (suc fuel) p (suc q) h =
    let small = mod-lt p (zero-lt-suc q) in
    let below : p % suc q ≤ fuel = omega arith in
    let (g, run, gcd) = gcd_loop-IsGcd fuel (suc q) (p % suc q) (below) in
    let split : p / suc q * suc q + p % suc q ≡ p = div-add-mod' p (suc q) in
    (
      g,
      gcd_loop-suc fuel p q ∙ run,
      record {
        left = subst (Divides g) split (
            Divides-add g (p / suc q * suc q) (p % suc q)
              (Divides-mul g (p / suc q) (suc q) gcd.left) gcd.right);
        right = gcd.left;
        greatest = λ d dp dq. gcd.greatest d dq (
            Divides-add_cancel d (p / suc q * suc q) (p % suc q) (subst (Divides d) (sym split) dp)
              (Divides-mul d (p / suc q) (suc q) dq));
      },
    )

double : (j : ℕ) → 2 ^ suc j ≡ 2 ^ j + 2 ^ j
double j = let e = pow-suc 2 j in omega arith

two_pos : 0 < 2
two_pos = omega arith

shl-pow : (j : ℕ) → suc j ≤ 127 → Int128.shl (2 ^ j) 1 ≡ 2 ^ suc j
shl-pow j h =
    let bound : 2 ^ suc j ≤ 2 ^ 127 = pow-le-pow_right (two_pos) h in
    (let twice = double j in omega arith)

next_pow2_loop-least :
    (fuel j v : ℕ)
    → v ≤ 2 ^ (j + fuel)
    → j + fuel ≤ 127
    → 2 ^ j < v + v
    → (k : ℕ) × (next_pow2_loop fuel v (2 ^ j) ≡ ok (2 ^ k)) × (v ≤ 2 ^ k) × (2 ^ k < v + v)
unfolding next_pow2_loop
next_pow2_loop-least zero j v bound top half =
    let bound' : v ≤ 2 ^ j = subst (λ k. v ≤ 2 ^ k) (omega arith) bound in
    (j, ground arith, bound', half)
next_pow2_loop-least (suc fuel) j v bound top half = elim (Bool-cases (ltb (2 ^ j) v)) [
  | inl e ↦
      (let (k, run, up, low) =
          next_pow2_loop-least fuel (suc j) v (subst (λ n. v ≤ 2 ^ n) (omega arith) bound)
            (omega arith) (let twice = double j in let less = ltb→lt (2 ^ j) v e in omega arith) in
        (k, rw (e, shl-pow j (omega arith)) run, up, low))
  | inr e ↦ (j, rw e refl, ground arith, half)
]

-- The loop never passes `r < v` for a `v` above 2 ^ 127, from a power of 2 or from 0.
next_pow2_loop-zero :
    (fuel v : ℕ) → 2 ^ 127 < v → next_pow2_loop fuel v 0 ≡ err RuntimeError.undefined
unfolding next_pow2_loop
next_pow2_loop-zero zero v h = ground arith
next_pow2_loop-zero (suc fuel) v h = let rest = next_pow2_loop-zero fuel v h in ground arith

next_pow2-loop : (v : ℕ) → leb v 1 ≡ false → next_pow2 v ≡ next_pow2_loop 127 v 1
unfolding next_pow2
next_pow2-loop v e = rw e refl

-- For a v from 1 to 2 ^ 127, `nextPow2` returns a power of two that is at least v and below 2 v.
pub next_pow2-least :
    (v : ℕ)
    → 0 < v
    → v ≤ 2 ^ 127
    → (k : ℕ) × (next_pow2 v ≡ ok (2 ^ k)) × (v ≤ 2 ^ k) × (2 ^ k < v + v)
unfolding next_pow2
next_pow2-least v pos bound = elim (Bool-cases (leb v 1)) [
  | inl e ↦ (0, rw e refl, ground arith, ground arith)
  | inr e ↦
      (let (k, run, up, low) = next_pow2_loop-least 127 0 v bound (omega arith) (omega arith) in
        (k, next_pow2-loop v e ∙ run, up, low))
]

top_below : (v : ℕ) → 2 ^ 127 < v → ltb (2 ^ 127) v ≡ true
top_below v h = ground arith

next_pow2_loop-endless :
    (fuel j v : ℕ)
    → j ≤ 127
    → 2 ^ 127 < v
    → next_pow2_loop fuel v (2 ^ j) ≡ err RuntimeError.undefined
unfolding next_pow2_loop
next_pow2_loop-endless zero j v h big =
    let bound : 2 ^ j ≤ 2 ^ 127 = pow-le-pow_right two_pos h in ground arith
next_pow2_loop-endless (suc fuel) j v h big =
    let bound : 2 ^ j ≤ 2 ^ 127 = pow-le-pow_right two_pos h in
    let below : ltb (2 ^ j) v ≡ true = ground arith in
    elim (eq-or-lt_of_le h) [
      | inl e ↦
          subst (λ i. next_pow2_loop (suc fuel) v (2 ^ i) ≡ err RuntimeError.undefined) (sym e)
            (rw (top_below v big) (next_pow2_loop-zero fuel v big))
      | inr more ↦ rw (below, shl-pow j more) (next_pow2_loop-endless fuel (suc j) v more big)
    ]

-- For a v above 2 ^ 127, the loop of `nextPow2` from 1 has not ended after any number of rounds.
pub next_pow2-endless :
    (fuel v : ℕ) → 2 ^ 127 < v → next_pow2_loop fuel v 1 ≡ err RuntimeError.undefined
next_pow2-endless fuel v big = next_pow2_loop-endless fuel 0 v (omega arith) big

module _ ⦃fl : FloatOps⦄ where
  -- `Gcd` at a type that is no float type returns a greatest common divisor of the two operands,
  -- read as unsigned numbers of the type's width; the loop ends.
  pub int_binary_ext-gcd :
      (type : ValueType) (a b : Value)
      → is_float_type type ≡ false
      → (g : ℕ) × (int_binary_ext Opcode.gcd type a b ≡ ok (from_int128 type g))
        × IsGcd g (unsigned_of a type) (unsigned_of b type)
  unfolding int_binary_ext int_binary_wide int_binary_rest returning
  int_binary_ext-gcd type a b h =
      let (g, run, gcd) =
        gcd_loop-IsGcd (unsigned_of b type + 1) (unsigned_of a type) (unsigned_of b type)
          (omega arith) in
      (g, rw (h, run) refl, gcd)
