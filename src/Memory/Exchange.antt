-- ===== src/Memory/Exchange.antt =====
-- What the loop of the case Memswap of src/vm/interpreter.cpp computes.
use uasm.Base.{ℕ, zero, suc, ◌+◌, ◌<◌, ◌≤◌, ◌≡◌, ◌≢◌, ◌⊎◌, inl, inr, refl, ◌∙◌, ap, arith}
use uasm.Memory.Bytes.{Bytes}
use uasm.Memory.Scan.{swap_at, swap_ranges}
use uasm.Memory.Reversal.{swap_at-first, swap_at-second, swap_at-other}

-- The address lies outside the `n` bytes from `a`.
abbrev pub Outside : ℕ → ℕ → ℕ → Type 0
Outside a n x = (x < a) ⊎ (a + n ≤ x)

-- The two ranges have no byte in common.
abbrev pub Disjoint : ℕ → ℕ → ℕ → Type 0
Disjoint a b n = (a + n ≤ b) ⊎ (b + n ≤ a)

swap_ranges-Outside :
    (mem : Bytes) (a b n x : ℕ) → Outside a n x → Outside b n x → swap_ranges mem a b n x ≡ mem x
unfolding swap_ranges
swap_ranges-Outside mem a b zero x out_a out_b = refl
swap_ranges-Outside mem a b (suc n) x out_a out_b =
    swap_ranges-Outside (swap_at mem a b) (a + 1) (b + 1) n x (next a out_a) (next b out_b)
    ∙ swap_at-other mem a b x (apart a out_a) (apart b out_b)
  where
    next : (c : ℕ) → Outside c (suc n) x → Outside (c + 1) n x
    next c (inl below) = inl (omega arith)
    next c (inr behind) = inr (omega arith)

    apart : (c : ℕ) → Outside c (suc n) x → x ≢ c
    apart c (inl below) e = omega arith
    apart c (inr behind) e = omega arith

swap_ranges-inside :
    (mem : Bytes) (a b n j : ℕ)
    → Disjoint a b n
    → j < n
    → (swap_ranges mem a b n (a + j) ≡ mem (b + j)) × (swap_ranges mem a b n (b + j) ≡ mem (a + j))
unfolding swap_ranges
swap_ranges-inside mem a b zero j d h = absurd (omega arith)
swap_ranges-inside mem a b (suc n) zero d h = (
  swap_ranges-Outside (swap_at mem a b) (a + 1) (b + 1) n (a + 0) (inl (omega arith)) (other a b d)
      ∙ swap_at-first mem a b (a + 0) (b + 0) (omega arith) (omega arith),
  swap_ranges-Outside (swap_at mem a b) (a + 1) (b + 1) n (b + 0) (other b a (flip d))
        (inl (omega arith))
      ∙ swap_at-second mem a b (b + 0) (a + 0) (omega arith) (omega arith),
)
  where
    flip : Disjoint a b (suc n) → Disjoint b a (suc n)
    flip (inl le) = inr le
    flip (inr le) = inl le

    other : (c e : ℕ) → Disjoint c e (suc n) → Outside (e + 1) n (c + 0)
    other c e (inl le) = inl (omega arith)
    other c e (inr le) = inr (omega arith)
swap_ranges-inside mem a b (suc n) (suc j) d h =
    let (first, second) =
      swap_ranges-inside (swap_at mem a b) (a + 1) (b + 1) n j (next d) (omega arith) in
    (
      at (swap_ranges (swap_at mem a b) (a + 1) (b + 1) n) a (b + suc j) first
          (kept (b + 1 + j) (b + suc j) (omega arith) (apart_b d)),
      at (swap_ranges (swap_at mem a b) (a + 1) (b + 1) n) b (a + suc j) second
          (kept (a + 1 + j) (a + suc j) (omega arith) (apart_a d)),
    )
  where
    next : Disjoint a b (suc n) → Disjoint (a + 1) (b + 1) n
    next (inl le) = inl (omega arith)
    next (inr le) = inr (omega arith)

    apart_b : Disjoint a b (suc n) → (b + 1 + j ≢ a) × (b + 1 + j ≢ b)
    apart_b (inl le) = (λ e. omega arith, λ e. omega arith)
    apart_b (inr le) = (λ e. omega arith, λ e. omega arith)

    apart_a : Disjoint a b (suc n) → (a + 1 + j ≢ a) × (a + 1 + j ≢ b)
    apart_a (inl le) = (λ e. omega arith, λ e. omega arith)
    apart_a (inr le) = (λ e. omega arith, λ e. omega arith)

    kept : (x y : ℕ) → x ≡ y → (x ≢ a) × (x ≢ b) → swap_at mem a b x ≡ mem y
    kept x y same (not_a, not_b) = swap_at-other mem a b x not_a not_b ∙ ap mem same

    at : (f : Bytes) (c y : ℕ) {z : ℕ} → f (c + 1 + j) ≡ z → z ≡ mem y → f (c + suc j) ≡ mem y
    at f c y e e' = let moved : c + suc j ≡ c + 1 + j = omega arith in ap f moved ∙ e ∙ e'

-- If two ranges have no byte in common, then the loop of Memswap exchanges them and leaves every byte
-- outside them.
pub swap_ranges_lem :
    (mem : Bytes) (a b n : ℕ)
    → Disjoint a b n
    → ((j : ℕ)
        → j < n
        → (swap_ranges mem a b n (a + j) ≡ mem (b + j))
          × (swap_ranges mem a b n (b + j) ≡ mem (a + j)))
      × ((x : ℕ) → Outside a n x → Outside b n x → swap_ranges mem a b n x ≡ mem x)
swap_ranges_lem mem a b n d =
    (λ j h. swap_ranges-inside mem a b n j d h, swap_ranges-Outside mem a b n)
