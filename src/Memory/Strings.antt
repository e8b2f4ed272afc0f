-- ===== src/Memory/Strings.antt =====
-- The loops over strings of the cases from Strcmp to Strlower of `Interpreter::call` in
-- src/vm/interpreter.cpp. Addresses are `uint64_t` sums, which wrap.
use uasm.Base.{
  ℕ, zero, suc, ◌+◌, ◌-◌, ◌%◌, ◌^◌, Bool, true, false, not, ◌&&◌, ltb, leb, ◌==◌, ok, ◌>>◌,
  if◌then◌else◌,
}
use uasm.Runtime.{Run}
use uasm.Value.Int128
use uasm.Memory.Bytes.{Bytes, update}
use uasm.Memory.Defs.{check_range}

-- 'A' to 'Z' and 'a' to 'z'.
unfoldable pub is_upper : ℕ → Bool
is_upper c = leb 65 c && leb c 90

unfoldable pub is_lower : ℕ → Bool
is_lower c = leb 97 c && leb c 122

unfoldable pub to_lower : ℕ → ℕ
to_lower c = if is_upper c then c + 32 else c

unfoldable pub to_upper : ℕ → ℕ
to_upper c = if is_lower c then c - 32 else c

-- The result of the string comparisons as an `Int128`, from the round `i` on with `n` left.
unfoldable pub string_compare : Bytes → Bool → ℕ → ℕ → ℕ → ℕ → Run ℕ
string_compare mem fold a b i zero = ok 0
string_compare mem fold a b i (suc n) =
    let x = (a + i) % 2 ^ 64 in
    let y = (b + i) % 2 ^ 64 in
    let ca = if fold then to_lower (mem x) else mem x in
    let cb = if fold then to_lower (mem y) else mem y in
    let rest = string_compare mem fold a b (i + 1) n in
    do
      check_range x 1
      check_range y 1
      if not (ca == cb)
          then ok (if ltb ca cb then Int128.neg 1 else 1)
          else if ca == 0
          then ok 0
          else rest

-- The copying loop from the round `i` on, with `n` left, and the terminator behind the last round.
unfoldable pub string_copy : Bytes → ℕ → ℕ → ℕ → ℕ → Run Bytes
string_copy mem src at i zero = let y = (at + i) % 2 ^ 64 in do check_range y 1; ok (update mem y 0)
string_copy mem src at i (suc n) =
    let x = (src + i) % 2 ^ 64 in
    let y = (at + i) % 2 ^ 64 in
    let written = update mem y (mem x) in
    let rest = string_copy written src at (i + 1) n in
    do check_range x 1; check_range y 1; if mem x == 0 then ok written else rest

unfoldable pub in_set : Bytes → ℕ → ℕ → ℕ → Bool
in_set mem c set zero = false
in_set mem c set (suc n) =
    let rest = in_set mem c (set + 1) n in if c == mem set then true else rest

-- How many of the `n` bytes from `s` the loop passes, and whether it stopped at a byte of the set
-- for Strcspn and Strpbrk (`inside` false) or at one outside it for Strspn (`inside` true).
unfoldable pub span : Bytes → Bool → ℕ → ℕ → ℕ → ℕ → ℕ × Bool
span mem inside s set len zero = (0, false)
span mem inside s set len (suc n) =
    let (passed, found) = span mem inside (s + 1) set len n in
    if in_set mem (mem s) set len
    then (if inside then (passed + 1, found) else (0, true))
    else if inside
    then (0, false)
    else (passed + 1, found)

unfoldable pub change_case : (ℕ → ℕ) → Bytes → ℕ → ℕ → Bytes
change_case f mem s zero = mem
change_case f mem s (suc n) = change_case f (update mem s (f (mem s))) (s + 1) n
