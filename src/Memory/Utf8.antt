-- ===== src/Memory/Utf8.antt =====
-- The cases from Utf8Decode to Utf8Valid of `Interpreter::call` in src/vm/interpreter.cpp.
-- A test of the top bits of a byte is a division; `|` of disjoint bits is a sum.
use uasm.Base.{
  ℕ, zero, suc, ◌+◌, ◌-◌, ◌*◌, ◌/◌, ◌%◌, ◌^◌, Bool, true, false, List, [], ◌∷◌, length, Option,
  none, some, ltb, leb, ◌==◌, ok, err, ◌>>◌, if◌then◌else◌,
}
use Prim.Native.Nat.{bit_or}
use uasm.Runtime.{RuntimeError, Run}
use uasm.Memory.Bytes.{Bytes, update}
use uasm.Memory.Defs.{check_range}

-- `extra` for the lead byte `c0`, where it is one.
unfoldable pub extra_bytes : ℕ → Option ℕ
extra_bytes c0 =
    if ltb c0 128
    then some 0
    else if c0 / 2 ^ 5 == 6
    then some 1
    else if c0 / 2 ^ 4 == 14
    then some 2
    else if c0 / 2 ^ 3 == 30
    then some 3
    else none

-- The bits of `cp` that the lead byte holds.
unfoldable pub lead_bits : ℕ → ℕ → ℕ
lead_bits c0 zero = c0
lead_bits c0 (suc extra) = c0 % 2 ^ (5 - extra)

-- `(cc & 0xC0) == 0x80`.
unfoldable pub is_continuation : ℕ → Bool
is_continuation cc = cc / 2 ^ 6 == 2

-- The loop over the `n` continuation bytes from `at`.
unfoldable pub decode_rest : Bytes → ℕ → ℕ → ℕ → Run ℕ
decode_rest mem at cp zero = ok cp
decode_rest mem at cp (suc n) =
    let rest = decode_rest mem (at + 1) (cp * 2 ^ 6 + mem at % 2 ^ 6) n in
    if is_continuation (mem at) then rest else err RuntimeError.utf8_continuation

unfoldable pub decode : Bytes → ℕ → Run ℕ
decode mem p = do
  check_range p 1
  elim (extra_bytes (mem p)) [
    | none ↦ err RuntimeError.utf8_lead
    | some extra ↦ do
      check_range p (extra + 1)
      decode_rest mem (p + 1) (lead_bits (mem p) extra) extra
  ]

-- `0x80 | (x & 0x3F)`.
unfoldable pub continuation : ℕ → ℕ
continuation x = 128 + x % 2 ^ 6

-- `buf` for a code point, a `uint32_t`. The lead byte of four drops what exceeds a byte.
unfoldable pub encoded : ℕ → List ℕ
encoded cp =
    if ltb cp 128
    then cp ∷ []
    else if ltb cp 2048
    then (192 + cp / 2 ^ 6) ∷ continuation cp ∷ []
    else if ltb cp 65536
    then (224 + cp / 2 ^ 12) ∷ continuation (cp / 2 ^ 6) ∷ continuation cp ∷ []
    else (bit_or 240 (cp / 2 ^ 18) % 2 ^ 8)
      ∷ continuation (cp / 2 ^ 12)
      ∷ continuation (cp / 2 ^ 6)
      ∷ continuation cp
      ∷ []

unfoldable pub write_list : Bytes → ℕ → List ℕ → Bytes
write_list mem p [] = mem
write_list mem p (b ∷ rest) = write_list (update mem p b) (p + 1) rest

unfoldable pub encode : Bytes → ℕ → ℕ → Run (ℕ × Bytes)
encode mem p cp =
    let buf = encoded cp in do check_range p (length buf); ok (length buf, write_list mem p buf)

-- The bytes of the `n` from `p` that begin a code point.
unfoldable pub count_leads : Bytes → ℕ → ℕ → ℕ
count_leads mem p zero = 0
count_leads mem p (suc n) =
    let rest = count_leads mem (p + 1) n in if is_continuation (mem p) then rest else rest + 1

unfoldable pub all_continuation : Bytes → ℕ → ℕ → Bool
all_continuation mem p zero = true
all_continuation mem p (suc n) =
    let rest = all_continuation mem (p + 1) n in if is_continuation (mem p) then rest else false

-- The loop of Utf8Valid on the `len` bytes from `p`, in at most `rounds` rounds.
unfoldable pub valid_within : Bytes → ℕ → ℕ → ℕ → Run Bool
valid_within mem p len zero = err RuntimeError.out_of_fuel
valid_within mem p len (suc rounds) = if len == 0 then ok true else elim (extra_bytes (mem p)) [
  | none ↦ ok false
  | some extra ↦
      let rest = valid_within mem (p + extra + 1) (len - extra - 1) rounds in
      if leb len extra
      then ok false
      else if all_continuation mem (p + 1) extra
      then rest
      else ok false
]

unfoldable pub is_valid : Bytes → ℕ → ℕ → Run Bool
is_valid mem p len = valid_within mem p len (len + 1)
