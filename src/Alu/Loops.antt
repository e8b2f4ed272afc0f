-- ===== src/Alu/Loops.antt =====
-- The numeric helpers of src/vm/interpreter.cpp with a loop: `ipow`, `uisqrt`, `ulog2`, `ulog10`,
-- `nextPow2`, `prevPow2` and the loop of Euclid in `intBinaryExt`.
-- A loop runs on fuel; out of it, the result is `RuntimeError.undefined`. 128 rounds are enough
-- where every round halves a 128-bit number, 127 doublings reach 2 ^ 127, and a number is enough
-- rounds where every round lowers it.
use uasm.Base.{
  ℕ, zero, suc, ◌+◌, ◌/◌, ◌%◌, ◌&&◌, not, leb, ltb, ◌==◌, if◌then◌else◌, ok, err, ◌>>=◌,
}
use uasm.Runtime.{RuntimeError, Run}
use uasm.Value.Int128

-- The loop of `ipow` from `r`, `base` and `exp`.
unfoldable pub ipow_loop : ℕ → ℕ → ℕ → ℕ → Run ℕ
ipow_loop zero r base exp = if exp == 0 then ok r else err RuntimeError.undefined
ipow_loop (suc fuel) r base exp =
    let rest =
      ipow_loop fuel (if exp % 2 == 1 then Int128.mul r base else r) (Int128.mul base base)
        (exp / 2) in
    if exp == 0 then ok r else rest

unfoldable pub ipow : ℕ → ℕ → Run ℕ
ipow base exp =
    if Int128.is_neg exp then err RuntimeError.negative_exponent else ipow_loop 128 1 base exp

-- The loop of `uisqrt` from `x` and `y`.
unfoldable pub uisqrt_loop : ℕ → ℕ → ℕ → ℕ → Run ℕ
uisqrt_loop zero n x y = if ltb y x then err RuntimeError.undefined else ok x
uisqrt_loop (suc fuel) n x y =
    let rest = uisqrt_loop fuel n y (Int128.add y (n / y) / 2) in if ltb y x then rest else ok x

unfoldable pub uisqrt : ℕ → Run ℕ
uisqrt n = if n == 0 then ok 0 else uisqrt_loop n n n (Int128.add n 1 / 2)

-- The loop of `ulog2` and `ulog10`, which divide by `base`; `rounds` is the source's `r + 1`.
unfoldable pub ulog_loop : ℕ → ℕ → ℕ → ℕ → Run ℕ
ulog_loop base zero rounds v = if v == 0 then ok rounds else err RuntimeError.undefined
ulog_loop base (suc fuel) rounds v =
    let rest = ulog_loop base fuel (rounds + 1) (v / base) in if v == 0 then ok rounds else rest

-- The result is -1 for 0.
unfoldable pub ulog2 : ℕ → Run ℕ
ulog2 v = do rounds ← ulog_loop 2 128 0 v; ok (Int128.sub rounds 1)

unfoldable pub ulog10 : ℕ → Run ℕ
ulog10 v = do rounds ← ulog_loop 10 128 0 v; ok (Int128.sub rounds 1)

-- The loop of `nextPow2` from `r`.
unfoldable pub next_pow2_loop : ℕ → ℕ → ℕ → Run ℕ
next_pow2_loop zero v r = if ltb r v then err RuntimeError.undefined else ok r
next_pow2_loop (suc fuel) v r =
    let rest = next_pow2_loop fuel v (Int128.shl r 1) in if ltb r v then rest else ok r

unfoldable pub next_pow2 : ℕ → Run ℕ
next_pow2 v = if leb v 1 then ok 1 else next_pow2_loop 127 v 1

-- The loop of `prevPow2` from `r`.
unfoldable pub prev_pow2_loop : ℕ → ℕ → ℕ → Run ℕ
prev_pow2_loop zero v r =
    if not (Int128.shl r 1 == 0) && leb (Int128.shl r 1) v then err RuntimeError.undefined else ok r
prev_pow2_loop (suc fuel) v r =
    let rest = prev_pow2_loop fuel v (Int128.shl r 1) in
    if not (Int128.shl r 1 == 0) && leb (Int128.shl r 1) v then rest else ok r

unfoldable pub prev_pow2 : ℕ → Run ℕ
prev_pow2 v = if v == 0 then ok 0 else prev_pow2_loop 128 v 1

-- `while (q != 0)` of Gcd and Lcm, from `p` and `q`.
unfoldable pub gcd_loop : ℕ → ℕ → ℕ → Run ℕ
gcd_loop zero p q = if q == 0 then ok p else err RuntimeError.undefined
gcd_loop (suc fuel) p q = let rest = gcd_loop fuel q (p % q) in if q == 0 then ok p else rest
