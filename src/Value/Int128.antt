-- ===== src/Value/Int128.antt =====
-- `Int128` and `UInt128` as bit patterns: numbers below 2 ^ 128, in two's complement where the
-- source reads them as signed. Signed overflow, which the source leaves to the compiler, wraps.
use uasm.Base.{ℕ, ◌+◌, ◌-◌, ◌*◌, ◌/◌, ◌%◌, ◌^◌, Bool, ltb, leb, if◌then◌else◌}

abbrev pub m128 : ℕ
m128 = 2 ^ 128

-- x < 0.
abbrev pub is_neg : ℕ → Bool
is_neg x = leb (2 ^ 127) x

abbrev pub add : ℕ → ℕ → ℕ
add x y = (x + y) % 2 ^ 128

abbrev pub sub : ℕ → ℕ → ℕ
sub x y = (x + 2 ^ 128 - y) % 2 ^ 128

abbrev pub mul : ℕ → ℕ → ℕ
mul x y = x * y % 2 ^ 128

abbrev pub neg : ℕ → ℕ
neg x = (2 ^ 128 - x) % 2 ^ 128

-- ~x.
abbrev pub complement : ℕ → ℕ
complement x = 2 ^ 128 - 1 - x

-- Signed x < y: adding 2 ^ 127 turns the signed order into that of the patterns.
abbrev pub lt_signed : ℕ → ℕ → Bool
lt_signed x y = ltb ((x + 2 ^ 127) % 2 ^ 128) ((y + 2 ^ 127) % 2 ^ 128)

-- The magnitude of a signed number.
abbrev pub magnitude : ℕ → ℕ
magnitude x = if is_neg x then 2 ^ 128 - x else x

-- Signed division and remainder, which round to zero; the divisor is not 0.
abbrev pub div_signed : ℕ → ℕ → ℕ
div_signed x y =
    let q = magnitude x / magnitude y in
    if is_neg x then (if is_neg y then q % 2 ^ 128 else neg q) else if is_neg y then neg q else q

abbrev pub mod_signed : ℕ → ℕ → ℕ
mod_signed x y = let r = magnitude x % magnitude y in if is_neg x then neg r else r

-- x << n, and the arithmetic x >> n.
abbrev pub shl : ℕ → ℕ → ℕ
shl x n = x * 2 ^ n % 2 ^ 128

abbrev pub shr_signed : ℕ → ℕ → ℕ
shr_signed x n = if is_neg x then x / 2 ^ n + (2 ^ 128 - 2 ^ 128 / 2 ^ n) else x / 2 ^ n
