-- ===== src/Memory/Stack.antt =====
-- `pushValue` and `popValue`.
use uasm.Base.{ℕ, ◌+◌, ◌-◌, ◌≤◌, ◌≡◌, refl, arith, ok, le→ltb}
use uasm.Types.{ValueType, size_of_type}
use uasm.Value.Defs.{Value}
use uasm.Value.Conversions.{FitsType}
use uasm.Memory.Bytes.{write_bytes, write_bytes-behind}
use uasm.Memory.Defs.{Store, stack_size, push_value, pop_value}
use uasm.Memory.Access.{read_value}

-- The stack pointer stays inside `stack_`.
abbrev pub IsStack : Store → Type 0
IsStack s = s.stack_pointer ≤ stack_size

abbrev pushed : Store → Value → Store
pushed s v = record s {
  stack_pointer = s.stack_pointer - size_of_type v.type;
  stack = write_bytes s.stack (s.stack_pointer - size_of_type v.type) (size_of_type v.type) v.bits;
}

push_value_parts :
    (s s' : Store) (v : Value)
    → push_value s v ≡ ok s'
    → (size_of_type v.type ≤ s.stack_pointer) × (s' ≡ pushed s v)
unfolding push_value
push_value_parts s s' v e = ground arith

pop_pushed :
    (s : Store) (v : Value)
    → IsStack s
    → FitsType v
    → size_of_type v.type ≤ s.stack_pointer
    → pop_value (pushed s v) v.type
      ≡ ok (
        v,
        record (pushed s v) {
          stack_pointer = s.stack_pointer - size_of_type v.type + size_of_type v.type;
        },
      )
unfolding pop_value
pop_pushed s v k h room =
    rw
      (le→ltb stack_size (s.stack_pointer - size_of_type v.type + size_of_type v.type)
        (omega arith))
      (rw (read_value s.stack (s.stack_pointer - size_of_type v.type) v h))

-- With the stack pointer inside the stack, if pushing a value whose bits fit its type succeeds, a
-- pop of that type succeeds and gives the value; the stack pointer, the stack from it on, the
-- memory and the list of heap blocks are as they were.
pub pop_value-push_value :
    (s s' : Store) (v : Value)
    → IsStack s
    → FitsType v
    → push_value s v ≡ ok s'
    → (s'' : Store) × (pop_value s' v.type ≡ ok (v, s''))
      × (s''.stack_pointer ≡ s.stack_pointer)
      × ((a : ℕ) → s.stack_pointer ≤ a → s''.stack a ≡ s.stack a)
      × (s''.memory ≡ s.memory)
      × (s''.heap_blocks ≡ s.heap_blocks)
pop_value-push_value s s' v k h e =
    let (room, same) = push_value_parts s s' v e in
    let sz = size_of_type v.type in
    (
      record (pushed s v) { stack_pointer = s.stack_pointer - sz + sz },
      rw same (pop_pushed s v k h room),
      omega arith,
      λ a le. write_bytes-behind s.stack (s.stack_pointer - sz) sz v.bits a (omega arith),
      refl,
      refl,
    )

-- Both operations keep the pointer inside the stack.
pub push_value-IsStack :
    (s s' : Store) (v : Value) → IsStack s → push_value s v ≡ ok s' → IsStack s'
push_value-IsStack s s' v k e = let (_, same) = push_value_parts s s' v e in rw same (omega arith)

pub pop_value-IsStack :
    (s s' : Store) (t : ValueType) (v : Value) → pop_value s t ≡ ok (v, s') → IsStack s'
unfolding pop_value
pop_value-IsStack s s' t v e = ground arith
