-- ===== src/Interp/Buffers.antt =====
-- The cases of `Interpreter::call` in src/vm/interpreter.cpp from Memchr to Memcount.
use uasm.Base.{◌+◌, ◌-◌, ◌==◌, [], ◌∷◌, ok, if◌then◌else◌, switch}
use uasm.Ast.{Instruction}
use uasm.Ast.Opcode
use uasm.Value.Float.{FloatOps}
use uasm.Value.Defs.{from_int128}
use uasm.Alu.Convert.{is_equal}
use uasm.Memory.Scan.{
  find_byte, find_last_byte, found_or_null, find_range, swap_ranges, reverse_range, count_byte,
}
use uasm.Memory.Defs.{mem_set, mem_cmp}
use uasm.Memory.Bytes.{Bytes}
use uasm.Interp.Machine.{
  Exec, ◌>>=◌, ◌>>◌, query, in_range, assign, make_ptr, pointer, word, byte, change,
}

unfoldable pub get_memory : Exec Bytes
get_memory = query (λ s. ok s.memory)

unfoldable pub put_memory : Bytes → Exec (Unit {0})
put_memory mem = change (λ s. ok (record s { memory = mem }))

module _ ⦃fl : FloatOps⦄ where
  unfoldable pub buffers : Instruction → Exec (Unit {0}) → Exec (Unit {0})
  buffers instr others =
      switch instr.opcode
        ((
          Opcode.memchr ∷ Opcode.memrchr ∷ [],
          (do
            buf ← pointer instr 0
            len ← word instr 1
            c ← byte instr 2
            in_range buf len
            mem ← get_memory
            assign instr (
                make_ptr (
                  found_or_null (
                    if instr.opcode == Opcode.memchr
                    then find_byte mem buf c len
                    else find_last_byte mem buf c len)))),
        )
          ∷ (
            Opcode.memfind ∷ [],
            (do
              hay ← pointer instr 0
              hlen ← word instr 1
              nee ← pointer instr 2
              nlen ← word instr 3
              in_range hay hlen
              in_range nee nlen
              mem ← get_memory
              assign instr
                  (make_ptr (found_or_null (find_range mem hay nee nlen (hlen + 1 - nlen))))),
          )
          ∷ (
            Opcode.memswap ∷ [],
            (do
              a ← pointer instr 0
              b ← pointer instr 1
              len ← word instr 2
              in_range a len
              in_range b len
              mem ← get_memory
              put_memory (swap_ranges mem a b len)),
          )
          ∷ (
            Opcode.memrev ∷ [],
            (do
              buf ← pointer instr 0
              len ← word instr 1
              in_range buf len
              mem ← get_memory
              put_memory (reverse_range mem buf len)),
          )
          ∷ (
            Opcode.memzero ∷ [],
            (do buf ← pointer instr 0; len ← word instr 1; change (λ s. mem_set s buf 0 len)),
          )
          ∷ (
            Opcode.memeq ∷ [],
            (do
              a ← pointer instr 0
              b ← pointer instr 1
              len ← word instr 2
              r ← query (λ s. mem_cmp s a b len)
              assign instr (from_int128 instr.type (if is_equal r then 1 else 0))),
          )
          ∷ (
            Opcode.memcount ∷ [],
            (do
              buf ← pointer instr 0
              len ← word instr 1
              c ← byte instr 2
              in_range buf len
              mem ← get_memory
              assign instr (from_int128 instr.type (count_byte mem buf c len))),
          )
          ∷ [])
        others
