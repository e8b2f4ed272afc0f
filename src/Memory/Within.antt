-- ===== src/Memory/Within.antt =====
-- The stack pointer and the heap's bump pointer stay inside their vectors.
use uasm.Base.{
  ℕ, ◌+◌, ◌%◌, ◌^◌, ◌≤◌, not, ◌&&◌, ◌||◌, ltb, List, [], ◌∷◌, Ensures, Ensures-bind, Ensures-after,
  Bool-cases, Option-cases, inl, inr, arith, guard,
}
use uasm.Runtime.{RuntimeError, Run}
use uasm.Types.{ValueType, size_of_type}
use uasm.Value.Defs.{Value}
use uasm.Memory.Defs.{
  Store, stack_size, memory_size, check_bounds, check_range, store_value, push_value, pop_value,
  mem_copy, mem_move, mem_set, overlap,
}
use uasm.Memory.Heap.{
  alloc_in, bump_alloc, at_least_one, heap_alloc, free_in, heap_free, heap_block_size, copy_block,
  realloc_known, heap_realloc, free_allocas,
}

-- `stackPointer_ <= stack_.size()` and `heapBumpPtr_ <= memory_.size()`.
pub record IsWithin (s : Store) : Type 0 where
  pub stack : s.stack_pointer ≤ stack_size
  pub heap : s.heap_bump_ptr ≤ memory_size

-- An operation gives a store within its bounds, if it does not throw.
abbrev pub IsSafe : Run Store → Type 0
IsSafe = Ensures IsWithin

abbrev pub IsSafeWith : {A : Type 0} → Run (A × Store) → Type 0
IsSafeWith = Ensures (λ x. IsWithin x.1)

module _ (s : Store) (w : IsWithin s) where
  pub push_value-IsSafe : (v : Value) → IsSafe (push_value s v)
  unfolding push_value
  push_value-IsSafe v = elim (Bool-cases (ltb s.stack_pointer (size_of_type v.type))) [
    | inl full ↦ rw full tt
    | inr room ↦ rw room (record { stack = omega (arith, w.stack); heap = w.heap })
  ]

  pub pop_value-IsSafe : (type : ValueType) → IsSafeWith (pop_value s type)
  unfolding pop_value
  pop_value-IsSafe type = elim (Bool-cases (ltb stack_size (s.stack_pointer + size_of_type type))) [
    | inl bare ↦ rw bare tt
    | inr held ↦ rw held (record { stack = ground arith; heap = w.heap })
  ]

  pub store_value-IsSafe : (addr : ℕ) (v : Value) → IsSafe (store_value s addr v)
  unfolding store_value
  store_value-IsSafe addr v =
      Ensures-after IsWithin
        (check_bounds RuntimeError.store_out_of_bounds addr (size_of_type v.type)) _
        (λ _. record { stack = w.stack; heap = w.heap })

  pub mem_set-IsSafe : (dst v len : ℕ) → IsSafe (mem_set s dst v len)
  unfolding mem_set
  mem_set-IsSafe dst v len =
      Ensures-after IsWithin (check_range dst len) _
        (λ _. record { stack = w.stack; heap = w.heap })

  pub mem_move-IsSafe : (dst src len : ℕ) → IsSafe (mem_move s dst src len)
  unfolding mem_move
  mem_move-IsSafe dst src len = Ensures-after IsWithin (check_range dst len) _ (λ _.
      Ensures-after IsWithin (check_range src len) _
        (λ _. record { stack = w.stack; heap = w.heap }))

  pub mem_copy-IsSafe : (dst src len : ℕ) → IsSafe (mem_copy s dst src len)
  unfolding mem_copy
  mem_copy-IsSafe dst src len = Ensures-after IsWithin (check_range dst len) _ (λ _.
      Ensures-after IsWithin (check_range src len) _ (λ _.
        Ensures-after IsWithin (guard (not (overlap dst src len)) RuntimeError.undefined) _
          (λ _. record { stack = w.stack; heap = w.heap })))

  bump_alloc-IsSafe : (size : ℕ) → IsSafeWith (bump_alloc s size)
  unfolding bump_alloc
  bump_alloc-IsSafe size = elim (Bool-cases (ltb memory_size ((s.heap_bump_ptr + size) % 2 ^ 64))) [
    | inl full ↦ rw full tt
    | inr room ↦ rw room (record { stack = w.stack; heap = ground arith })
  ]

  pub heap_alloc-IsSafe : (size : ℕ) → IsSafeWith (heap_alloc s size)
  unfolding heap_alloc
  heap_alloc-IsSafe size = elim (Option-cases (alloc_in s.heap_blocks (at_least_one size))) [
    | inl bump ↦ rw (bump, heap_alloc) (bump_alloc-IsSafe (at_least_one size))
    | inr ((o, blocks), reused) ↦
        rw (reused, heap_alloc) (record { stack = w.stack; heap = w.heap })
  ]

  pub heap_free-IsSafe : (offset : ℕ) → IsSafe (heap_free s offset)
  unfolding heap_free
  heap_free-IsSafe offset = elim (Option-cases (free_in s.heap_blocks offset)) [
    | inl missing ↦ rw (missing, heap_free) tt
    | inr (blocks, freed) ↦ rw (freed, heap_free) (record { stack = w.stack; heap = w.heap })
  ]

  pub copy_block-IsSafe : (dst src len : ℕ) → IsSafe (copy_block s dst src len)
  unfolding copy_block
  copy_block-IsSafe dst src len =
      elim (Bool-cases (
        ltb 0 len
        && (ltb memory_size (dst + len) || ltb memory_size (src + len) || overlap dst src len))) [
          | inl undefined ↦ rw undefined tt
          | inr copies ↦ rw copies (record { stack = w.stack; heap = w.heap })
        ]

pub heap_realloc-IsSafe :
    (s : Store) → IsWithin s → (offset size : ℕ) → IsSafeWith (heap_realloc s offset size)
unfolding heap_realloc realloc_known
heap_realloc-IsSafe s w offset size =
    Ensures-after (λ x. IsWithin x.1) (heap_block_size s offset) _
      (λ old.
        Ensures-bind (λ x. IsWithin x.1) (λ x. IsWithin x.1) (heap_alloc s size) _
          (heap_alloc-IsSafe s w size)
          (λ (o, s₁) w₁.
            Ensures-bind IsWithin (λ x. IsWithin x.1) (copy_block s₁ o offset _) _
              (copy_block-IsSafe s₁ w₁ o offset _)
              (λ s₂ w₂.
                Ensures-bind IsWithin (λ x. IsWithin x.1) (heap_free s₂ offset) _
                  (heap_free-IsSafe s₂ w₂ offset) (λ s₃ w₃. w₃))))

pub free_allocas-IsSafe :
    (allocas : List ℕ) (s : Store) → IsWithin s → IsSafe (free_allocas s allocas)
unfolding free_allocas
free_allocas-IsSafe [] s w = w
free_allocas-IsSafe (a ∷ rest) s w =
    Ensures-bind IsWithin IsWithin (free_allocas s rest) _ (free_allocas-IsSafe rest s w)
      (λ s' w'. heap_free-IsSafe s' w' a)
