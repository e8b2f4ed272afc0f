-- ===== src/Memory/Reversal.antt =====
-- What the loops over a range of memory compute: the cases Memchr, Memrev and Strrev of
-- src/vm/interpreter.cpp.
use uasm.Base.{
  ℕ, zero, suc, ◌+◌, ◌-◌, ◌/◌, ◌<◌, ◌≤◌, ◌≡◌, ◌≢◌, ◌⊎◌, inl, inr, refl, ◌∙◌, ap, Option, none, some,
  ◌==◌, Bool-cases, arith,
}
use uasm.Memory.Bytes.{Bytes}
use uasm.Memory.Scan.{find_byte, swap_at, reverse_from, reverse_range}

module _ (mem : Bytes) (a b : ℕ) where
  pub swap_at-first : (x y : ℕ) → x ≡ a → y ≡ b → swap_at mem a b x ≡ mem y
  unfolding swap_at
  swap_at-first x y at_a at_b = elim (Bool-cases (x == b)) [
    | inl both ↦ rw both (ap mem (ground arith))
    | inr one ↦ rw (one) (ground (arith, ap mem at_b))
  ]

  pub swap_at-second : (x y : ℕ) → x ≡ b → y ≡ a → swap_at mem a b x ≡ mem y
  unfolding swap_at
  swap_at-second x y at_b at_a = ground (arith, ap mem at_a)

  pub swap_at-other : (x : ℕ) → x ≢ a → x ≢ b → swap_at mem a b x ≡ mem x
  unfolding swap_at
  swap_at-other x not_a not_b = ground arith

module _ (buf len : ℕ) where
  reverse_from-outside :
      (mem : Bytes) (i n a : ℕ)
      → i + n ≤ len / 2
      → (a < buf + i) ⊎ (buf + len ≤ a + i)
      → reverse_from mem buf len i n a ≡ mem a
  unfolding reverse_from swap_at
  reverse_from-outside mem i zero a fits out = refl
  reverse_from-outside mem i (suc n) a fits (inl below) =
      reverse_from-outside (swap_at mem (buf + i) (buf + len - 1 - i)) (i + 1) n a (omega arith)
        (inl (omega arith))
      ∙ ground arith
  reverse_from-outside mem i (suc n) a fits (inr behind) =
      reverse_from-outside (swap_at mem (buf + i) (buf + len - 1 - i)) (i + 1) n a (omega arith)
        (inr (omega arith))
      ∙ ground arith

  reverse_from-inside :
      (mem : Bytes) (i n j : ℕ)
      → i + n ≡ len / 2
      → i ≤ j
      → j + i < len
      → reverse_from mem buf len i n (buf + j) ≡ mem (buf + (len - 1 - j))
  unfolding reverse_from swap_at
  reverse_from-inside mem i zero j fits l h = ap mem (omega arith)
  reverse_from-inside mem i (suc n) j fits l h = elim (Bool-cases (j == i)) [
    | inl first ↦
        reverse_from-outside (swap_at mem (buf + i) (buf + len - 1 - i)) (i + 1) n (buf + j)
          (omega arith) (inl (ground arith))
        ∙ swap_at-first mem _ _ (buf + j) _ (ground arith) (ground arith)
    | inr later ↦ elim (Bool-cases (j + i + 1 == len)) [
      | inl last ↦
          reverse_from-outside (swap_at mem (buf + i) (buf + len - 1 - i)) (i + 1) n (buf + j)
            (omega arith) (inr (ground arith))
          ∙ swap_at-second mem _ _ (buf + j) _ (ground arith) (ground arith)
      | inr middle ↦
          reverse_from-inside (swap_at mem (buf + i) (buf + len - 1 - i)) (i + 1) n j (omega arith)
            (ground arith) (ground arith)
          ∙ swap_at-other mem _ _ _ (λ e. ground arith) (λ e. ground arith)
    ]
  ]

-- Reversing a range puts its bytes in the opposite order and leaves every other byte.
pub reverse_range_lem :
    (mem : Bytes) (buf len : ℕ)
    → ((j : ℕ) → j < len → reverse_range mem buf len (buf + j) ≡ mem (buf + (len - 1 - j)))
      × ((a : ℕ) → (a < buf) ⊎ (buf + len ≤ a) → reverse_range mem buf len a ≡ mem a)
unfolding reverse_range
reverse_range_lem mem buf len = (
  λ j h. reverse_from-inside buf len mem 0 (len / 2) j (omega arith) (omega arith) (omega arith),
  outside,
)
  where
    outside : (a : ℕ) → (a < buf) ⊎ (buf + len ≤ a) → reverse_from mem buf len 0 (len / 2) a ≡ mem a
    outside a (inl below) =
        reverse_from-outside buf len mem 0 (len / 2) a (omega arith) (inl (omega arith))
    outside a (inr behind) =
        reverse_from-outside buf len mem 0 (len / 2) a (omega arith) (inr (omega arith))

-- What a search for the first byte of a range gives.
abbrev pub FindsFirst : Bytes → ℕ → ℕ → ℕ → Option ℕ → Type 0
FindsFirst mem addr c n none = (a : ℕ) → addr ≤ a → a < addr + n → mem a ≢ c
FindsFirst mem addr c n (some x) =
    (addr ≤ x) × (x < addr + n) × (mem x ≡ c) × ((a : ℕ) → addr ≤ a → a < x → mem a ≢ c)

FindsFirst-next :
    (mem : Bytes) (addr c n : ℕ) (r : Option ℕ)
    → mem addr ≢ c
    → FindsFirst mem (addr + 1) c n r
    → FindsFirst mem addr c (suc n) r
FindsFirst-next mem addr c n none ne f = λ a l h e. elim (Bool-cases (a == addr)) [
  | inl here ↦ ne (ap mem (ground arith) ∙ e)
  | inr there ↦ f a (ground arith) (omega arith) e
]
FindsFirst-next mem addr c n (some x) ne (l, h, e, before) = (
  omega arith,
  omega arith,
  e,
  λ a la ha ea. elim (Bool-cases (a == addr)) [
    | inl here ↦ ne (ap mem (ground arith) ∙ ea)
    | inr there ↦ before a (ground arith) ha ea
  ],
)

-- The search for a byte in a range gives the first address in the range that holds it, or none if
-- none does.
pub find_byte-FindsFirst :
    (mem : Bytes) (addr c n : ℕ) → FindsFirst mem addr c n (find_byte mem addr c n)
unfolding find_byte
find_byte-FindsFirst mem addr c zero = λ a l h. absurd (omega arith)
find_byte-FindsFirst mem addr c (suc n) = elim (Bool-cases (mem addr == c)) [
  | inl here ↦
      rw (here, find_byte) (omega arith, omega arith, ground arith, λ a l h. absurd (omega arith))
  | inr there ↦
      rw (there, find_byte)
        (FindsFirst-next mem addr c n _ (λ e. ground arith)
          (find_byte-FindsFirst mem (addr + 1) c n))
]
