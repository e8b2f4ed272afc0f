-- ===== src/Memory/Bytes.antt =====
-- Bytes of a store, which is a function from addresses, and words in it, lowest byte first.
use uasm.Base.{
  ℕ, zero, suc, ◌+◌, ◌*◌, ◌/◌, ◌%◌, ◌^◌, ◌<◌, ◌≤◌, ◌≡◌, refl, ◌==◌, if◌then◌else◌, arith,
}
use native.Mathlib.Nat.{pow-suc}

-- `std::vector<uint8_t>` by address; the addresses in use are below its size.
abbrev pub Bytes : Type 0
Bytes = ℕ → ℕ

abbrev pub update : Bytes → ℕ → ℕ → Bytes
update mem a b x = if x == a then b else mem x

-- `memcpy` of `n` bytes into a word, and of a word into `n` bytes.
unfoldable pub read_bytes : Bytes → ℕ → ℕ → ℕ
read_bytes mem addr zero = 0
read_bytes mem addr (suc n) = mem addr + 2 ^ 8 * read_bytes mem (addr + 1) n

unfoldable pub write_bytes : Bytes → ℕ → ℕ → ℕ → Bytes
write_bytes mem addr zero v = mem
write_bytes mem addr (suc n) v = write_bytes (update mem addr (v % 2 ^ 8)) (addr + 1) n (v / 2 ^ 8)

-- A write leaves the bytes below and behind it.
pub write_bytes-below :
    (mem : Bytes) (addr n v a : ℕ) → a < addr → write_bytes mem addr n v a ≡ mem a
unfolding write_bytes
write_bytes-below mem addr zero v a h = refl
write_bytes-below mem addr (suc n) v a h =
    ground (arith, write_bytes-below (update mem addr (v % 2 ^ 8)) (addr + 1) n (v / 2 ^ 8) a)

pub write_bytes-behind :
    (mem : Bytes) (addr n v a : ℕ) → addr + n ≤ a → write_bytes mem addr n v a ≡ mem a
unfolding write_bytes
write_bytes-behind mem addr zero v a h = refl
write_bytes-behind mem addr (suc n) v a h =
    ground (arith, write_bytes-behind (update mem addr (v % 2 ^ 8)) (addr + 1) n (v / 2 ^ 8) a)

-- Two stores that agree on the bytes of a word hold the same word.
pub read_bytes_congr :
    (mem mem' : Bytes) (addr n : ℕ)
    → ((a : ℕ) → addr ≤ a → a < addr + n → mem a ≡ mem' a)
    → read_bytes mem addr n ≡ read_bytes mem' addr n
unfolding read_bytes
read_bytes_congr mem mem' addr zero h = refl
read_bytes_congr mem mem' addr (suc n) h = ground (
  arith,
  h addr (omega arith) (omega arith),
  read_bytes_congr mem mem' (addr + 1) n (λ a lo hi. h a (omega arith) (omega arith)),
)

-- Reading back a word that fits the bytes.
pub read_bytes-write_bytes :
    (mem : Bytes) (addr n v : ℕ) → v < 256 ^ n → read_bytes (write_bytes mem addr n v) addr n ≡ v
unfolding read_bytes write_bytes
read_bytes-write_bytes mem addr zero v h = omega arith
read_bytes-write_bytes mem addr (suc n) v h = ground (
  arith,
  write_bytes-below (update mem addr (v % 2 ^ 8)) (addr + 1) n (v / 2 ^ 8) addr,
  read_bytes-write_bytes (update mem addr (v % 2 ^ 8)) (addr + 1) n (v / 2 ^ 8)
      (omega (arith, pow-suc 256 n)),
)
