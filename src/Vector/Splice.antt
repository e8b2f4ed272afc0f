-- ===== src/Vector/Splice.antt =====
-- The bits of a lane that `vectorSetLane` of src/vm/vector_ops.cpp replaces, and those around it.
use uasm.Base.{
  ℕ, zero, suc, ◌+◌, ◌-◌, ◌*◌, ◌/◌, ◌%◌, ◌^◌, ◌<◌, ◌≤◌, ◌≡◌, sym, ◌∙◌, ap, subst, arith,
}
use native.Mathlib.Nat.{
  one-le-pow, add-mul-div_left, add-mul-mod_self_left, div-eq_of_lt, mod-eq_of_lt, mod-lt, mod-mod,
  mod-add-div, pow-suc, mul_assoc, div-add-mod, div-div-eq-div-mul, lt-mul-div-succ,
}
use uasm.Vector.Lanes.{splice}

pos : (p : ℕ) → 0 < 2 ^ p
pos p = omega (arith, one-le-pow p 2 (omega arith))

low_lt : (x p : ℕ) → x % 2 ^ p < 2 ^ p
low_lt x p = mod-lt x (pos p)

-- The high and the low part of a number that is put together.
high_part : (lo p hi : ℕ) → lo < 2 ^ p → (lo + 2 ^ p * hi) / 2 ^ p ≡ hi
high_part lo p hi h = add-mul-div_left lo hi (pos p) ∙ omega (arith, div-eq_of_lt h)

low_part : (lo p hi : ℕ) → lo < 2 ^ p → (lo + 2 ^ p * hi) % 2 ^ p ≡ lo
low_part lo p hi h = add-mul-mod_self_left lo (2 ^ p) hi ∙ mod-eq_of_lt h

pow_sum : (a b : ℕ) → 2 ^ (a + b) ≡ 2 ^ a * 2 ^ b
pow_sum a zero = let e : 2 ^ (a + 0) ≡ 2 ^ a = ap (λ n. 2 ^ n) (omega arith) in omega (arith, e)
pow_sum a (suc b) =
    ap (λ n. 2 ^ n) (omega arith)
    ∙ pow-suc 2 (a + b)
    ∙ rw (pow_sum a b) (mul_assoc (2 ^ a) (2 ^ b) 2)
    ∙ ap (λ x. 2 ^ a * x) (sym (pow-suc 2 b))

-- A number by its bits below `q + n` and the rest.
split_at : (a q n : ℕ) → a ≡ a % 2 ^ (q + n) + 2 ^ q * (2 ^ n * (a / 2 ^ (q + n)))
split_at a q n =
    let e : 2 ^ (q + n) * (a / 2 ^ (q + n)) ≡ 2 ^ q * (2 ^ n * (a / 2 ^ (q + n))) =
      ap (λ x. x * (a / 2 ^ (q + n))) (pow_sum q n) ∙ mul_assoc (2 ^ q) (2 ^ n) (a / 2 ^ (q + n)) in
    omega (arith, div-add-mod a (2 ^ (q + n)), e)

-- Bits below a place do not see those above it.
field_of_low_sum : (a q m r : ℕ) → a / 2 ^ q % 2 ^ m ≡ a % 2 ^ (q + (m + r)) / 2 ^ q % 2 ^ m
field_of_low_sum a q m r =
    let low = a % 2 ^ (q + (m + r)) in
    let rest = a / 2 ^ (q + (m + r)) in
    let e : 2 ^ (m + r) * rest ≡ 2 ^ m * (2 ^ r * rest) =
      ap (λ x. x * rest) (pow_sum m r) ∙ mul_assoc (2 ^ m) (2 ^ r) rest in
    ap (λ x. x / 2 ^ q % 2 ^ m) (split_at a q (m + r))
    ∙ ap (λ x. x % 2 ^ m) (add-mul-div_left low (2 ^ (m + r) * rest) (pos q))
    ∙ ap (λ x. (low / 2 ^ q + x) % 2 ^ m) e
    ∙ add-mul-mod_self_left (low / 2 ^ q) (2 ^ m) (2 ^ r * rest)

field_of_low : (a p q m : ℕ) → q + m ≤ p → a / 2 ^ q % 2 ^ m ≡ a % 2 ^ p / 2 ^ q % 2 ^ m
field_of_low a p q m h =
    let e : q + (m + (p - q - m)) ≡ p = omega arith in
    subst (λ k. a / 2 ^ q % 2 ^ m ≡ a % 2 ^ k / 2 ^ q % 2 ^ m) e
      (field_of_low_sum a q m (p - q - m))

module _ (b p n x : ℕ) where
  splice-div : splice b p n x / 2 ^ p ≡ x % 2 ^ n + 2 ^ n * (b / 2 ^ p / 2 ^ n)
  unfolding splice
  splice-div = high_part (b % 2 ^ p) p _ (low_lt b p)

  -- The bits that are replaced.
  pub splice-inside : splice b p n x / 2 ^ p % 2 ^ n ≡ x % 2 ^ n
  splice-inside = rw splice-div (low_part (x % 2 ^ n) n (b / 2 ^ p / 2 ^ n) (low_lt x n))

  -- The bits below and above them.
  pub splice-below : (q m : ℕ) → q + m ≤ p → splice b p n x / 2 ^ q % 2 ^ m ≡ b / 2 ^ q % 2 ^ m
  unfolding splice
  splice-below q m h =
      field_of_low (splice b p n x) p q m h
      ∙ ap (λ y. y / 2 ^ q % 2 ^ m) (low_part (b % 2 ^ p) p _ (low_lt b p))
      ∙ sym (field_of_low b p q m h)

  splice-high : splice b p n x / 2 ^ (p + n) ≡ b / 2 ^ (p + n)
  splice-high =
      let e : (c : ℕ) → c / 2 ^ (p + n) ≡ c / 2 ^ p / 2 ^ n =
        λ c. ap (λ y. c / y) (pow_sum p n) ∙ sym (div-div-eq-div-mul c (2 ^ p) (2 ^ n)) in
      e (splice b p n x)
      ∙ ap (λ y. y / 2 ^ n) splice-div
      ∙ high_part (x % 2 ^ n) n (b / 2 ^ p / 2 ^ n) (low_lt x n)
      ∙ sym (e b)

  pub splice-above : (q : ℕ) → p + n ≤ q → splice b p n x / 2 ^ q ≡ b / 2 ^ q
  splice-above q h =
      let w : p + n + (q - (p + n)) ≡ q = omega arith in
      let e : (c : ℕ) → c / 2 ^ q ≡ c / 2 ^ (p + n) / 2 ^ (q - (p + n)) = λ c.
        ap (λ k. c / 2 ^ k) (sym w)
        ∙ ap (λ y. c / y) (pow_sum (p + n) (q - (p + n)))
        ∙ sym (div-div-eq-div-mul c (2 ^ (p + n)) (2 ^ (q - (p + n)))) in
      e (splice b p n x) ∙ ap (λ y. y / 2 ^ (q - (p + n))) splice-high ∙ sym (e b)

  -- The bits that a number does not have, it does not get.
  pub splice-lt : (w : ℕ) → b < 2 ^ w → p + n ≤ w → splice b p n x < 2 ^ w
  splice-lt w small h = omega (
    arith,
    lt-mul-div-succ (splice b p n x) (pos w),
    ap (λ y. 2 ^ w * (y + 1)) (splice-above w h ∙ div-eq_of_lt small),
  )

-- Replacing bits by themselves.
pub splice_self : (b p n : ℕ) → splice b p n (b / 2 ^ p % 2 ^ n) ≡ b
unfolding splice
splice_self b p n =
    let h = b / 2 ^ p in
    ap (λ y. b % 2 ^ p + 2 ^ p * y)
      (ap (λ y. y + 2 ^ n * (h / 2 ^ n)) (mod-mod h (2 ^ n)) ∙ mod-add-div h (2 ^ n))
    ∙ mod-add-div b (2 ^ p)
