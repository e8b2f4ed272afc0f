-- ===== src/Interp/Pointers.antt =====
-- The cases of `Interpreter::call` in src/vm/interpreter.cpp from Getelementptr to Ptralign.
-- An address is an `Int128` sum, of which the low 64 bits are used.
use uasm.Base.{
  ℕ, ◌+◌, ◌-◌, ◌*◌, ◌/◌, ◌%◌, ◌^◌, Bool, not, ◌||◌, ltb, ◌==◌, [], ◌∷◌, length, ok, err,
  if◌then◌else◌, switch,
}
use uasm.Runtime.{RuntimeError, Run}
use uasm.Types.{i64, size_of_type}
use uasm.Ast.{Instruction, Opcode}
use uasm.Ast.Opcode
use uasm.Value.Int128
use uasm.Value.Float.{FloatOps}
use uasm.Value.Defs.{from_int128}
use uasm.Memory.Defs.{load_value}
use uasm.Interp.Basic.{store_at}
use uasm.Interp.Machine.{
  Exec, ◌>>=◌, pure, lift, query, assign, make_bool, make_ptr, arg, pointer, number, word,
}

-- `((a + align - 1) / align) * align` in `uint64_t`.
unfoldable pub align_pointer : ℕ → ℕ → Run ℕ
align_pointer a n =
    let align = n % 2 ^ 64 in
    if n == 0 || Int128.is_neg n
    then err RuntimeError.align_not_positive
    else if align == 0
    then err RuntimeError.undefined
    else ok ((a + align + 2 ^ 64 - 1) % 2 ^ 64 / align * align % 2 ^ 64)

unfoldable pub compare_pointers : Opcode → ℕ → ℕ → Bool
compare_pointers op a b =
    if op == Opcode.ptreq
    then a == b
    else if op == Opcode.ptrne
    then not (a == b)
    else if op == Opcode.ptrlt
    then ltb a b
    else ltb b a

module _ ⦃fl : FloatOps⦄ where
  -- The offset at the operand `i`, or 0 where the instruction has at most `n` operands.
  unfoldable pub offset_behind : Instruction → ℕ → ℕ → Exec ℕ
  offset_behind instr n i = if ltb n (length instr.operands) then number instr i i64 else pure 0

module _ ⦃fl : FloatOps⦄ where
  unfoldable pub pointers : Instruction → Exec (Unit {0}) → Exec (Unit {0})
  pointers instr others =
      switch instr.opcode
        ((
          Opcode.getelementptr ∷ [],
          (do
            base ← pointer instr 0
            index ← number instr 1 i64
            scale ← number instr 2 i64
            offset ← offset_behind instr 3 3
            assign instr (make_ptr (Int128.add (Int128.add base (Int128.mul index scale)) offset))),
        )
          ∷ (
            Opcode.ptradd ∷ Opcode.ptrsub ∷ [],
            (do
              base ← pointer instr 0
              off ← number instr 1 i64
              assign instr (
                  make_ptr (
                    if instr.opcode == Opcode.ptradd
                    then Int128.add base off
                    else Int128.sub base off))),
          )
          ∷ (
            Opcode.ptrdiff ∷ [],
            (do
              a ← pointer instr 0
              b ← pointer instr 1
              assign instr (from_int128 instr.type (Int128.sub a b))),
          )
          ∷ (
            Opcode.fieldload ∷ Opcode.loadv ∷ Opcode.loadu ∷ [],
            (do
              base ← pointer instr 0
              off ← offset_behind instr 1 1
              v ← query (λ s. load_value s (Int128.add base off % 2 ^ 64) instr.type)
              assign instr v),
          )
          ∷ (
            Opcode.fieldstore ∷ Opcode.storev ∷ Opcode.storeu ∷ [],
            (do
              base ← pointer instr 0
              off ← offset_behind instr 2 1
              v ← arg instr (if ltb 2 (length instr.operands) then 2 else 1)
              store_at (Int128.add base off % 2 ^ 64) v),
          )
          ∷ (
            Opcode.arrayload ∷ [],
            (do
              base ← pointer instr 0
              index ← number instr 1 i64
              v ← query (λ s.
                  load_value s
                    (Int128.add base (Int128.mul index (size_of_type instr.type)) % 2 ^ 64)
                    instr.type)
              assign instr v),
          )
          ∷ (
            Opcode.arraystore ∷ [],
            (do
              base ← pointer instr 0
              index ← number instr 1 i64
              v ← arg instr 2
              store_at (Int128.add base (Int128.mul index (size_of_type instr.type)) % 2 ^ 64) v),
          )
          ∷ (
            Opcode.ptrtoint ∷ [],
            (do p ← pointer instr 0; assign instr (from_int128 instr.type p)),
          )
          ∷ (Opcode.inttoptr ∷ [], (do n ← word instr 0; assign instr (make_ptr n)))
          ∷ (
            Opcode.ptreq ∷ Opcode.ptrne ∷ Opcode.ptrlt ∷ Opcode.ptrgt ∷ [],
            (do
              a ← pointer instr 0
              b ← pointer instr 1
              assign instr (make_bool (compare_pointers instr.opcode a b))),
          )
          ∷ (Opcode.ptrisnull ∷ [], (do a ← pointer instr 0; assign instr (make_bool (a == 0))))
          ∷ (
            Opcode.ptralign ∷ [],
            (do
              a ← pointer instr 0
              n ← number instr 1 i64
              p ← lift (align_pointer a n)
              assign instr (make_ptr p)),
          )
          ∷ [])
        others
