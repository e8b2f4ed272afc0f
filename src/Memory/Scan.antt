-- ===== src/Memory/Scan.antt =====
-- The loops over memory of the cases from Memchr to Memcount of `Interpreter::call` in
-- src/vm/interpreter.cpp, on a range that `checkRange` let through.
use uasm.Base.{ℕ, zero, suc, ◌+◌, ◌-◌, ◌/◌, Option, none, some, ◌==◌, if◌then◌else◌}
use uasm.Alu.Convert.{is_equal}
use uasm.Memory.Bytes.{Bytes, update}
use uasm.Memory.Defs.{compare_bytes}

-- The first, and the last, of the `n` bytes from `addr` that is `c`.
unfoldable pub find_byte : Bytes → ℕ → ℕ → ℕ → Option ℕ
find_byte mem addr c zero = none
find_byte mem addr c (suc n) =
    let rest = find_byte mem (addr + 1) c n in if mem addr == c then some addr else rest

unfoldable pub find_last_byte : Bytes → ℕ → ℕ → ℕ → Option ℕ
find_last_byte mem addr c zero = none
find_last_byte mem addr c (suc n) =
    let rest = find_last_byte mem addr c n in if mem (addr + n) == c then some (addr + n) else rest

-- `ok ? found : 0`.
unfoldable pub found_or_null : Option ℕ → ℕ
found_or_null none = 0
found_or_null (some addr) = addr

-- The first of the `n` places from `hay` where the `len` bytes from `needle` stand.
unfoldable pub find_range : Bytes → ℕ → ℕ → ℕ → ℕ → Option ℕ
find_range mem hay needle len zero = none
find_range mem hay needle len (suc n) =
    let rest = find_range mem (hay + 1) needle len n in
    if is_equal (compare_bytes mem hay needle len) then some hay else rest

-- One round of the loops that exchange two bytes.
unfoldable pub swap_at : Bytes → ℕ → ℕ → Bytes
swap_at mem a b = update (update mem a (mem b)) b (mem a)

unfoldable pub swap_ranges : Bytes → ℕ → ℕ → ℕ → Bytes
swap_ranges mem a b zero = mem
swap_ranges mem a b (suc n) = swap_ranges (swap_at mem a b) (a + 1) (b + 1) n

-- From the round `i`, with `n` rounds left.
unfoldable pub reverse_from : Bytes → ℕ → ℕ → ℕ → ℕ → Bytes
reverse_from mem buf len i zero = mem
reverse_from mem buf len i (suc n) =
    reverse_from (swap_at mem (buf + i) (buf + len - 1 - i)) buf len (i + 1) n

-- The loop runs while `i * 2 + 1 < len`.
unfoldable pub reverse_range : Bytes → ℕ → ℕ → Bytes
reverse_range mem buf len = reverse_from mem buf len 0 (len / 2)

unfoldable pub count_byte : Bytes → ℕ → ℕ → ℕ → ℕ
count_byte mem addr c zero = 0
count_byte mem addr c (suc n) =
    let rest = count_byte mem (addr + 1) c n in if mem addr == c then rest + 1 else rest
