-- ===== src/Interp/Bounded.antt =====
-- The cases of `Interpreter::call` that change the store keep the stack pointer and the heap's bump
-- pointer inside their vectors.
use uasm.Base.{
  ℕ, ◌%◌, ◌^◌, Bool, true, false, ltb, inl, inr, Bool-cases, arith, ◌||◌, if◌then◌else◌,
}
use uasm.Types.{ValueType}
use uasm.Ast.{Instruction}
use uasm.Value.Int128
use uasm.Value.Float.{FloatOps}
use uasm.Value.Defs.{Value}
use uasm.Memory.Bytes.{Bytes}
use uasm.Memory.Defs.{Store, stack_size, mem_copy, mem_move, mem_set}
use uasm.Memory.Heap.{heap_free, heap_realloc}
use uasm.Memory.Within.{
  IsWithin, IsSafe, push_value-IsSafe, pop_value-IsSafe, store_value-IsSafe, mem_set-IsSafe,
  mem_move-IsSafe, mem_copy-IsSafe, heap_alloc-IsSafe, heap_free-IsSafe, heap_realloc-IsSafe,
  free_allocas-IsSafe,
}
use uasm.Interp.Machine.{Exec, change, change_with, get_frame}
use uasm.Interp.Basic.{Host, push, pop, allocate, store_at, basic, memory}
use uasm.Interp.Frames.{release, set_stack_pointer, frames}
use uasm.Interp.Pointers.{pointers}
use uasm.Interp.Buffers.{get_memory, put_memory, buffers}
use uasm.Interp.Strings.{length_at, strings, utf8}
use uasm.Interp.Misc.{misc}
use uasm.Interp.Keeps.{Keeps, Keeps-bind, Keeps-change, Keeps-change_with}
use uasm.Interp.Groups.{case_rules}

pub push-IsWithin : (v : Value) → Keeps IsWithin (push v)
unfolding push
push-IsWithin v = Keeps-change _ (λ s w. push_value-IsSafe s w v)

pub pop-IsWithin : (type : ValueType) → Keeps IsWithin (pop type)
unfolding pop
pop-IsWithin type = Keeps-change_with _ (λ s w. pop_value-IsSafe s w type)

pub allocate-IsWithin : (size : ℕ) → Keeps IsWithin (allocate size)
unfolding allocate
allocate-IsWithin size = Keeps-change_with _ (λ s w. heap_alloc-IsSafe s w size)

pub store_at-IsWithin : (addr : ℕ) (v : Value) → Keeps IsWithin (store_at addr v)
unfolding store_at
store_at-IsWithin addr v = Keeps-change _ (λ s w. store_value-IsSafe s w addr v)

pub free-IsWithin : (p : ℕ) → Keeps IsWithin (change (λ s. heap_free s p))
free-IsWithin p = Keeps-change _ (λ s w. heap_free-IsSafe s w p)

pub realloc-IsWithin : (p size : ℕ) → Keeps IsWithin (change_with (λ s. heap_realloc s p size))
realloc-IsWithin p size = Keeps-change_with _ (λ s w. heap_realloc-IsSafe s w p size)

pub set-IsWithin : (dst v len : ℕ) → Keeps IsWithin (change (λ s. mem_set s dst v len))
set-IsWithin dst v len = Keeps-change _ (λ s w. mem_set-IsSafe s w dst v len)

pub copy-IsWithin :
    (copies : Bool) (dst src len : ℕ)
    → Keeps IsWithin
        (change (λ s. if copies then mem_copy s dst src len else mem_move s dst src len))
copy-IsWithin true dst src len = Keeps-change _ (λ s w. mem_copy-IsSafe s w dst src len)
copy-IsWithin false dst src len = Keeps-change _ (λ s w. mem_move-IsSafe s w dst src len)

pub release-IsWithin : Keeps IsWithin release
unfolding release
release-IsWithin = Keeps-bind get_frame _ (search case_rules) (λ f.
    Keeps-bind (change _) _ (Keeps-change _ (λ s w. free_allocas-IsSafe f.allocas s w))
      (λ _. search case_rules))

set_stack_pointer-IsSafe : (sp : ℕ) (s : Store) → IsWithin s → IsSafe (set_stack_pointer sp s)
unfolding set_stack_pointer
set_stack_pointer-IsSafe sp s w =
    elim (Bool-cases (Int128.is_neg sp || ltb stack_size (sp % 2 ^ 64))) [
      | inl out ↦ rw (out, set_stack_pointer) tt
      | inr inside ↦ rw (inside, set_stack_pointer) (record { stack = ground arith; heap = w.heap })
    ]

pub set_stack_pointer-IsWithin : (sp : ℕ) → Keeps IsWithin (change (set_stack_pointer sp))
set_stack_pointer-IsWithin sp = Keeps-change _ (set_stack_pointer-IsSafe sp)

pub put_memory-IsWithin : (mem : Bytes) → Keeps IsWithin (put_memory mem)
unfolding put_memory
put_memory-IsWithin mem = Keeps-change _ (λ s w. record { stack = w.stack; heap = w.heap })

pub ruleset within_rules = (
  case_rules, push-IsWithin, pop-IsWithin, allocate-IsWithin, store_at-IsWithin, free-IsWithin,
  realloc-IsWithin, set-IsWithin, copy-IsWithin, release-IsWithin, set_stack_pointer-IsWithin,
  put_memory-IsWithin,
)

module _ (instr : Instruction) (others : Exec (Unit {0})) (k : Keeps IsWithin others)
    ⦃fl : FloatOps⦄ where
  pub basic-IsWithin : Keeps IsWithin (basic instr others)
  unfolding basic
  basic-IsWithin = search within_rules depth 40 fits 5000

  pub frames-IsWithin : Keeps IsWithin (frames instr others)
  unfolding frames
  frames-IsWithin = search within_rules depth 40 fits 5000

  pub pointers-IsWithin : Keeps IsWithin (pointers instr others)
  unfolding pointers
  pointers-IsWithin = search within_rules depth 40 fits 5000

  pub buffers-IsWithin : Keeps IsWithin (buffers instr others)
  unfolding buffers get_memory
  buffers-IsWithin = search within_rules depth 40 fits 5000

  pub strings-IsWithin : Keeps IsWithin (strings instr others)
  unfolding strings get_memory length_at
  strings-IsWithin = search within_rules depth 40 fits 5000

  pub utf8-IsWithin : Keeps IsWithin (utf8 instr others)
  unfolding utf8 get_memory length_at
  utf8-IsWithin = search within_rules depth 40 fits 5000

  module _ ⦃host : Host⦄ where
    pub memory-IsWithin : Keeps IsWithin (memory instr others)
    unfolding memory
    memory-IsWithin = search within_rules depth 40 fits 5000

    pub misc-IsWithin : Keeps IsWithin (misc instr others)
    unfolding misc get_memory
    misc-IsWithin = search within_rules depth 40 fits 5000
