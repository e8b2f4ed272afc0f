-- ===== src/Interp/Basic.antt =====
-- The cases of `Interpreter::call` from Mov to Cmp and from Load to MemCmp.
use uasm.Base.{ℕ, ◌==◌, [], ◌∷◌, ok, if◌then◌else◌, switch}
use Prim.Native.Nat.{Ordering}
use uasm.Runtime.{RuntimeError, Run}
use uasm.Types.{ValueType, is_float_type}
use uasm.Ast.{Instruction}
use uasm.Ast.Opcode
use uasm.Value.Float.{FloatOps}
use uasm.Value.Defs.{Value, as_int128, as_double, from_int128, from_double, bitcast}
use uasm.Alu.Arith.{arith, bitwise, bitwise_not, shift, negate, compare}
use uasm.Memory.Bytes.{Bytes}
use uasm.Memory.Defs.{
  load_value, store_value, push_value, pop_value, mem_copy, mem_move, mem_set, mem_cmp,
}
use uasm.Memory.Heap.{heap_alloc, heap_free, heap_realloc}
use uasm.Frame.{flag_byte}
use uasm.Interp.Machine.{
  Exec, ◌>>=◌, lift, throw, get_frame, put_frame, query, assign, make_ptr, arg, pointer, word, byte,
  change, change_with,
}

-- What the code takes from the C library and the operating system: the pattern of the `int` that
-- `memcmp` returns, of which only the sign is fixed, and `platformSyscall`, which may write memory.
pub record Host : Type 0 where
  pub memcmp_result : Ordering → ℕ
  pub syscall : ℕ → ℕ → ℕ → ℕ → Bytes → Run (ℕ × Bytes)

-- `pushValue` and `popValue`.
unfoldable pub push : Value → Exec (Unit {0})
push v = change (λ s. push_value s v)

unfoldable pub pop : ValueType → Exec Value
pop type = change_with (λ s. pop_value s type)

-- `heapAlloc`, `heapFree` and `storeValue`.
unfoldable pub allocate : ℕ → Exec ℕ
allocate size = change_with (λ s. heap_alloc s size)

unfoldable pub store_at : ℕ → Value → Exec (Unit {0})
store_at addr v = change (λ s. store_value s addr v)

unfoldable pub set_cmp_flag : ℕ → Exec (Unit {0})
set_cmp_flag flag = do f ← get_frame; put_frame (record f { cmp_flag = flag })

module _ ⦃fl : FloatOps⦄ where
  -- The cases that read one, two or three operands at `instr.type` and assign a result.
  unfoldable pub unary : Instruction → (Value → Run Value) → Exec (Unit {0})
  unary instr f = do a ← arg instr 0; v ← lift (f a); assign instr v

  unfoldable pub binary : Instruction → (Value → Value → Run Value) → Exec (Unit {0})
  binary instr f = do a ← arg instr 0; b ← arg instr 1; v ← lift (f a b); assign instr v

  unfoldable pub ternary : Instruction → (Value → Value → Value → Run Value) → Exec (Unit {0})
  ternary instr f = do
    a ← arg instr 0
    b ← arg instr 1
    c ← arg instr 2
    v ← lift (f a b c)
    assign instr v

  unfoldable pub basic : Instruction → Exec (Unit {0}) → Exec (Unit {0})
  basic instr others =
      switch instr.opcode
        ((Opcode.opcode_count ∷ [], throw RuntimeError.invalid_opcode)
          ∷ (Opcode.mov ∷ [], unary instr (λ a. ok a))
          ∷ (
            Opcode.add ∷ Opcode.sub ∷ Opcode.mul ∷ Opcode.div ∷ Opcode.modulo ∷ [],
            binary instr (arith instr.opcode instr.type),
          )
          ∷ (
            Opcode.and ∷ Opcode.or ∷ Opcode.xor ∷ [],
            binary instr (bitwise instr.opcode instr.type),
          )
          ∷ (Opcode.not ∷ [], unary instr (bitwise_not instr.type))
          ∷ (Opcode.shl ∷ Opcode.shr ∷ [], binary instr (shift instr.opcode instr.type))
          ∷ (Opcode.neg ∷ [], unary instr (λ a. ok (negate instr.type a)))
          ∷ (Opcode.push ∷ [], (do v ← arg instr 0; push v))
          ∷ (Opcode.pop ∷ [], (do v ← pop instr.type; assign instr v))
          ∷ (
            Opcode.convert ∷ [],
            unary instr (λ src. ok (
                if is_float_type instr.type
                then from_double instr.type (as_double src)
                else from_int128 instr.type (as_int128 src))),
          )
          ∷ (Opcode.cast ∷ [], unary instr (λ src. ok (bitcast instr.type src)))
          ∷ (
            Opcode.cmp ∷ [],
            (do
              a ← arg instr 0
              b ← arg instr 1
              set_cmp_flag (flag_byte (compare instr.type a b))),
          )
          ∷ [])
        others

module _ ⦃fl : FloatOps⦄ ⦃host : Host⦄ where
  unfoldable pub memory : Instruction → Exec (Unit {0}) → Exec (Unit {0})
  memory instr others =
      switch instr.opcode
        ((
          Opcode.load ∷ [],
          (do
            addr ← pointer instr 0
            v ← query (λ s. load_value s addr instr.type)
            assign instr v),
        )
          ∷ (Opcode.store ∷ [], (do addr ← pointer instr 0; v ← arg instr 1; store_at addr v))
          ∷ (
            Opcode.alloc ∷ [],
            (do size ← word instr 0; off ← allocate size; assign instr (make_ptr off)),
          )
          ∷ (Opcode.free ∷ [], (do p ← pointer instr 0; change (λ s. heap_free s p)))
          ∷ (
            Opcode.realloc ∷ [],
            (do
              p ← pointer instr 0
              size ← word instr 1
              off ← change_with (λ s. heap_realloc s p size)
              assign instr (make_ptr off)),
          )
          ∷ (
            Opcode.mem_cpy ∷ Opcode.mem_move ∷ [],
            (do
              dst ← pointer instr 0
              src ← pointer instr 1
              len ← word instr 2
              change (λ s.
                  if instr.opcode == Opcode.mem_cpy
                  then mem_copy s dst src len
                  else mem_move s dst src len)),
          )
          ∷ (
            Opcode.mem_set ∷ [],
            (do
              dst ← pointer instr 0
              v ← byte instr 1
              len ← word instr 2
              change (λ s. mem_set s dst v len)),
          )
          ∷ (
            Opcode.mem_cmp ∷ [],
            (do
              a ← pointer instr 0
              b ← pointer instr 1
              len ← word instr 2
              r ← query (λ s. mem_cmp s a b len)
              assign instr (from_int128 instr.type (host.memcmp_result r))),
          )
          ∷ [])
        others
