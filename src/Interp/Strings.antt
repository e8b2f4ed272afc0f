-- ===== src/Interp/Strings.antt =====
-- The cases of `Interpreter::call` in src/vm/interpreter.cpp from Strlen to Utf8Valid.
use uasm.Base.{ℕ, ◌+◌, ◌-◌, ◌%◌, ◌^◌, Bool, ltb, ◌==◌, [], ◌∷◌, if◌then◌else◌, switch, one_of}
use uasm.Types.{ValueType}
use uasm.Ast.{Instruction, Opcode}
use uasm.Ast.Opcode
use uasm.Value.Float.{FloatOps}
use uasm.Value.Defs.{Value, from_int128}
use uasm.Memory.Scan.{find_byte, find_last_byte, found_or_null, find_range, reverse_range}
use uasm.Memory.Strings.{string_compare, string_copy, span, change_case, to_lower, to_upper}
use uasm.Memory.Utf8
use uasm.Interp.Buffers.{get_memory, put_memory}
use uasm.Memory.Defs.{string_length, memory_size}
use uasm.Interp.Machine.{
  Exec, ◌>>=◌, ◌>>◌, pure, lift, query, in_range, assign, make_ptr, pointer, word, byte,
}

-- `stringLength(addr, memory_.size())`.
unfoldable pub length_at : ℕ → Exec ℕ
length_at addr = query (λ s. string_length s addr memory_size)

-- The `cap` of Strnlen.
unfoldable pub length_cap : ℕ → ℕ → ℕ
length_cap s m = if ltb ((s + m) % 2 ^ 64) memory_size then (s + m) % 2 ^ 64 else memory_size

-- What Strspn, Strcspn and Strpbrk assign.
unfoldable pub span_result : Opcode → ValueType → ℕ → ℕ × Bool → ⦃fl : FloatOps⦄ → Value
span_result op type s (passed, found) =
    if op == Opcode.strpbrk
    then make_ptr (if found then s + passed else 0)
    else from_int128 type passed

module _ ⦃fl : FloatOps⦄ where
  unfoldable pub strings : Instruction → Exec (Unit {0}) → Exec (Unit {0})
  strings instr others =
      switch instr.opcode
        ((
          Opcode.strlen ∷ Opcode.strnlen ∷ [],
          (do
            s ← pointer instr 0
            cap ←
                (if instr.opcode == Opcode.strnlen
                  then (do m ← word instr 1; pure (length_cap s m))
                  else pure memory_size)
            n ← query (λ st. string_length st s cap)
            assign instr (from_int128 instr.type n)),
        )
          ∷ (
            Opcode.strcmp ∷ Opcode.strncmp ∷ Opcode.strcasecmp ∷ [],
            (do
              a ← pointer instr 0
              b ← pointer instr 1
              n ← (if instr.opcode == Opcode.strncmp then word instr 2 else pure memory_size)
              mem ← get_memory
              r ← lift (string_compare mem (instr.opcode == Opcode.strcasecmp) a b 0 n)
              assign instr (from_int128 instr.type r)),
          )
          ∷ (
            Opcode.strcpy ∷ Opcode.strncpy ∷ Opcode.strcat ∷ Opcode.strncat ∷ [],
            (do
              dst ← pointer instr 0
              src ← pointer instr 1
              n ←
                  (if one_of instr.opcode (Opcode.strncpy ∷ Opcode.strncat ∷ [])
                    then word instr 2
                    else pure memory_size)
              start ←
                  (if one_of instr.opcode (Opcode.strcat ∷ Opcode.strncat ∷ [])
                    then length_at dst
                    else pure 0)
              mem ← get_memory
              mem' ← lift (string_copy mem src ((dst + start) % 2 ^ 64) 0 n)
              put_memory mem'),
          )
          ∷ (
            Opcode.strchr ∷ Opcode.strrchr ∷ [],
            (do
              s ← pointer instr 0
              c ← byte instr 1
              len ← length_at s
              mem ← get_memory
              assign instr (
                  make_ptr (
                    found_or_null (
                      if instr.opcode == Opcode.strchr
                      then find_byte mem s c (len + 1)
                      else find_last_byte mem s c (len + 1))))),
          )
          ∷ (
            Opcode.strstr ∷ [],
            (do
              h ← pointer instr 0
              nd ← pointer instr 1
              hlen ← length_at h
              nlen ← length_at nd
              mem ← get_memory
              assign instr (
                  make_ptr (
                    if nlen == 0
                    then h
                    else found_or_null (find_range mem h nd nlen (hlen + 1 - nlen))))),
          )
          ∷ (
            Opcode.strspn ∷ Opcode.strcspn ∷ Opcode.strpbrk ∷ [],
            (do
              s ← pointer instr 0
              set ← pointer instr 1
              slen ← length_at s
              setlen ← length_at set
              mem ← get_memory
              assign instr (
                  span_result instr.opcode instr.type s
                    (span mem (instr.opcode == Opcode.strspn) s set setlen slen))),
          )
          ∷ (
            Opcode.strrev ∷ Opcode.strupper ∷ Opcode.strlower ∷ [],
            (do
              s ← pointer instr 0
              len ← length_at s
              mem ← get_memory
              put_memory (
                  if instr.opcode == Opcode.strrev
                  then reverse_range mem s len
                  else change_case (if instr.opcode == Opcode.strupper then to_upper else to_lower)
                      mem s len)),
          )
          ∷ [])
        others

module _ ⦃fl : FloatOps⦄ where
  unfoldable pub utf8 : Instruction → Exec (Unit {0}) → Exec (Unit {0})
  utf8 instr others =
      switch instr.opcode
        ((
          Opcode.utf8_decode ∷ [],
          (do
            p ← pointer instr 0
            mem ← get_memory
            cp ← lift (Utf8.decode mem p)
            assign instr (from_int128 instr.type cp)),
        )
          ∷ (
            Opcode.utf8_encode ∷ [],
            (do
              p ← pointer instr 0
              n ← word instr 1
              mem ← get_memory
              (len, mem') ← lift (Utf8.encode mem p (n % 2 ^ 32))
              put_memory mem'
              assign instr (from_int128 instr.type len)),
          )
          ∷ (
            Opcode.utf8_len ∷ [],
            (do
              p ← pointer instr 0
              len ← length_at p
              mem ← get_memory
              assign instr (from_int128 instr.type (Utf8.count_leads mem p len))),
          )
          ∷ (
            Opcode.utf8_valid ∷ [],
            (do
              p ← pointer instr 0
              len ← word instr 1
              in_range p len
              mem ← get_memory
              b ← lift (Utf8.is_valid mem p len)
              assign instr (from_int128 instr.type (if b then 1 else 0))),
          )
          ∷ [])
        others
