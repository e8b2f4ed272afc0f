-- ===== src/Alu/Root.antt =====
-- Results on `uisqrt` of src/vm/interpreter.cpp.
use uasm.Base.{
  ℕ, zero, suc, ◌+◌, ◌*◌, ◌/◌, ◌^◌, ◌≤◌, ◌<◌, ◌≡◌, refl, ap, subst, ◌∙◌, inl, inr, ltb, ltb→lt,
  Bool-cases, ok, arith,
}
use native.Mathlib.Nat.{
  mul-div-le, lt-mul-div-succ, mul-le-mul, mul-le-mul_left, le_dest, le_of_lt, mod-eq_of_lt,
  div-le_self, le-div_iff_mul-le, add-mul, mul-add, mul_comm, mul_assoc, add_comm, div_self,
  zero-lt-suc, le-mul_of_pos_right, le_trans,
}
use uasm.Value.Int128
use uasm.Alu.Loops.{uisqrt_loop, uisqrt}

square_gap : (a d : ℕ) → 4 * (a * (a + d)) ≤ (a + (a + d)) * (a + (a + d))
square_gap a d = omega (
  arith,
  mul-add a a d,
  add-mul a (a + d) (a + (a + d)),
  mul-add a a (a + d),
  add-mul a d (a + (a + d)),
  mul-add d a (a + d),
  mul-add d a d,
  mul_comm d a,
)

four_mul-ordered : (a b : ℕ) → a ≤ b → 4 * (a * b) ≤ (a + b) * (a + b)
four_mul-ordered a b h =
    let (d, split) = le_dest h in
    subst (λ c. 4 * (a * c) ≤ (a + c) * (a + c)) split (square_gap a d)

four_mul-le : (a b : ℕ) → 4 * (a * b) ≤ (a + b) * (a + b)
four_mul-le a b = elim (Bool-cases (ltb a b)) [
  | inl e ↦ four_mul-ordered a b (le_of_lt (ltb→lt a b e))
  | inr e ↦ rw (mul_comm a b, add_comm a b) (four_mul-ordered b a (ground arith))
]

double_square : (y : ℕ) → 2 * y * (2 * y) ≡ 4 * (y * y)
double_square y =
    omega (arith, mul_assoc 2 y (2 * y), mul_assoc y 2 y, mul_comm y (2 * y), mul_assoc 2 y y)

-- One round of Newton's method.
abbrev next : ℕ → ℕ → ℕ
next n x = (x + n / x) / 2

newton : (n x : ℕ) → 0 < x → n < suc (next n x) * suc (next n x)
newton n x h =
    let above : n < x * (n / x + 1) = lt-mul-div-succ n h in
    let mean = four_mul-le x (n / x + 1) in
    let half : x + (n / x + 1) ≤ 2 * suc (next n x) = omega arith in
    let squares = mul-le-mul half half in omega (arith, double_square (suc (next n x)))

newton_stop : (n x : ℕ) → 0 < x → x ≤ next n x → x * x ≤ n
newton_stop n x pos h =
    let below : x ≤ n / x = omega arith in le_trans (mul-le-mul_left x below) (mul-div-le n x)

newton_pos : (n x : ℕ) → 0 < x → x ≤ n → 0 < next n x
newton_pos n x pos h = let one : 1 ≤ n / x = (le-div_iff_mul-le pos).1 (omega arith) in omega arith

next-add : (n x : ℕ) → x ≤ n → n < 2 ^ 127 → Int128.add x (n / x) / 2 ≡ next n x
next-add n x small bound =
    let below : n / x ≤ n = div-le_self n x in
    let sum : x + n / x < 2 ^ 128 = omega arith in ap (λ z. z / 2) (mod-eq_of_lt sum)

-- `r` is the integer square root of `n`.
abbrev pub IsRoot : ℕ → ℕ → Type 0
IsRoot r n = (r * r ≤ n) × (n < suc r * suc r)

uisqrt_loop-IsRoot :
    (fuel n x : ℕ)
    → x ≤ suc fuel
    → 0 < x
    → x ≤ n
    → n < 2 ^ 127
    → n < suc x * suc x
    → (r : ℕ) × (uisqrt_loop fuel n x (next n x) ≡ ok r) × IsRoot r n
unfolding uisqrt_loop
uisqrt_loop-IsRoot zero n x fits pos small bound above =
    let stays = newton_pos n x pos small in
    let stop : x ≤ next n x = omega arith in (x, ground arith, (newton_stop n x pos stop, above))
uisqrt_loop-IsRoot (suc fuel) n x fits pos small bound above =
    elim (Bool-cases (ltb (next n x) x)) [
      | inl e ↦
          (let less = ltb→lt (next n x) x e in
            let (r, run, root) =
              uisqrt_loop-IsRoot fuel n (next n x) (omega arith) (newton_pos n x pos small)
                (omega arith) bound (newton n x pos) in
            (r, rw (e, next-add n (next n x) (omega arith) bound) run, root))
      | inr e ↦
          (let stop : x ≤ next n x = ground arith in
            (x, rw e refl, (newton_stop n x pos stop, above)))
    ]

uisqrt-loop :
    (n : ℕ)
    → suc n < 2 ^ 127
    → uisqrt (suc n) ≡ uisqrt_loop (suc n) (suc n) (suc n) (next (suc n) (suc n))
unfolding uisqrt
uisqrt-loop n bound =
    let one : suc n / suc n ≡ 1 = div_self (zero-lt-suc n) in
    let first : Int128.add (suc n) 1 / 2 ≡ next (suc n) (suc n) =
      rw (one, mod-eq_of_lt {n = suc n + 1} {m = 2 ^ 128} (omega arith)) refl in
    rw first (ground arith)

-- For every n below 2 ^ 127, `uisqrt` returns, and it returns the r with r * r ≤ n < (r + 1) * (r
-- + 1).
pub uisqrt-IsRoot : (n : ℕ) → n < 2 ^ 127 → (r : ℕ) × (uisqrt n ≡ ok r) × IsRoot r n
unfolding uisqrt
uisqrt-IsRoot zero bound = (0, refl, (omega arith, omega arith))
uisqrt-IsRoot (suc n) bound =
    let square = le-mul_of_pos_right {m = suc (suc n)} (suc (suc n)) (zero-lt-suc (suc n)) in
    let (r, run, root) =
      uisqrt_loop-IsRoot (suc n) (suc n) (suc n) (omega arith) (omega arith) (omega arith) bound
        square in
    (r, uisqrt-loop n bound ∙ run, root)
