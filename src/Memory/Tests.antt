-- ===== src/Memory/Tests.antt =====
-- Stores of src/vm/interpreter.cpp after a few operations, and the results on them.
use uasm.Base.{
  ℕ, ◌+◌, ◌-◌, ◌^◌, ◌<◌, ◌≤◌, ◌≡◌, ◌≢◌, refl, true, false, inl, inr, [], ◌∷◌, ok, err, arith,
}
use uasm.Types.{i32, i64, size_of_type}
use uasm.Value.Defs.{value}
use uasm.Runtime.{RuntimeError}
use uasm.Memory.Bytes.{read_bytes, write_bytes}
use uasm.Memory.Defs.{
  Store, initial_store, memory_size, stack_size, load_value, store_value, push_value, pop_value,
  check_bounds, move_bytes, overlap,
}
use uasm.Memory.Heap.{
  alloc_in, bump_alloc, heap_alloc, heap_free, heap_realloc, realloc_known, heap_block_size,
  size_in, is_at, copy_block, free_in,
}
use uasm.Memory.Tiling.{Live}
use uasm.Memory.Access.{load_value_cases, load_value-store_value, load_value-store_value_elsewhere}
use uasm.Memory.Stack.{pop_value-push_value}
use uasm.Memory.HeapSafety.{
  IsHeap, IsAllocated, heap_alloc-IsAllocated, heap_free-allocated, heap_alloc_wraps,
}
use uasm.Memory.Defs.{check_range}
use uasm.Memory.Bytes.{Bytes}
use uasm.Memory.Scan.{find_byte, reverse_range}
use uasm.Memory.Utf8
use uasm.Memory.Coding.{decode-encode, is_valid-ok}
use uasm.Memory.Exchange.{Outside, swap_ranges_lem}
use uasm.Memory.Scan.{swap_ranges}
use uasm.Memory.Reversal.{FindsFirst, find_byte-FindsFirst, reverse_range_lem}
use uasm.Base.{Bool, some, ◌⊎◌}
use uasm.Memory.Realloc.{IsReallocated, heap_realloc-IsReallocated}

-- A block of 16 bytes in use, behind a block of 8 bytes in use.
abbrev two_blocks : Store
two_blocks = record initial_store {
  heap_blocks =
      record { offset = 0; size = 8; free = false }
      ∷ record { offset = 8; size = 16; free = false }
      ∷ [];
  heap_bump_ptr = 24;
}

two_blocks-IsHeap : IsHeap two_blocks
two_blocks-IsHeap = record {
  tiles = (refl, omega arith, (refl, omega arith, refl));
  fits = omega arith;
}

abbrev three_blocks : Store
three_blocks = record two_blocks {
  heap_blocks =
      record { offset = 0; size = 8; free = false }
      ∷ record { offset = 8; size = 16; free = false }
      ∷ record { offset = 24; size = 4; free = false }
      ∷ [];
  heap_bump_ptr = 28;
}

heap_alloc-IsAllocated_example : IsAllocated two_blocks three_blocks 24 4
unfolding heap_alloc bump_alloc alloc_in
heap_alloc-IsAllocated_example =
    heap_alloc-IsAllocated two_blocks three_blocks 24 4 two_blocks-IsHeap (omega arith) refl

heap_free-allocated_example :
    (s' : Store) × (heap_free two_blocks 8 ≡ ok s')
    × IsHeap s'
    × ((o' n' : ℕ) → Live o' n' two_blocks.heap_blocks → o' ≢ 8 → Live o' n' s'.heap_blocks)
    × (heap_free s' 8 ≡ err RuntimeError.free_untracked)
    × (s'.memory ≡ two_blocks.memory)
heap_free-allocated_example =
    heap_free-allocated two_blocks 8 16 two_blocks-IsHeap (inr (inl (refl, refl, refl)))

heap_alloc_wraps_example :
    (s' : Store) × (heap_alloc two_blocks (2 ^ 64 - 8) ≡ ok (24, s')) × (s'.heap_bump_ptr < 24)
unfolding alloc_in
heap_alloc_wraps_example =
    heap_alloc_wraps two_blocks (2 ^ 64 - 8) two_blocks-IsHeap (omega arith) (omega arith) refl

load_value_cases_example :
    (1048570 + size_of_type i64 ≤ memory_size
      → load_value initial_store 1048570 i64
        ≡ ok (value i64 (read_bytes initial_store.memory 1048570 (size_of_type i64))))
    × (memory_size < 1048570 + size_of_type i64
        → 1048570 + size_of_type i64 < 2 ^ 64
        → load_value initial_store 1048570 i64 ≡ err RuntimeError.load_out_of_bounds)
    × (2 ^ 64 ≤ 1048570 + size_of_type i64
        → load_value initial_store 1048570 i64 ≡ err RuntimeError.undefined)
load_value_cases_example = load_value_cases initial_store 1048570 i64 (omega arith)

abbrev stored : Store
stored = record initial_store { memory = write_bytes initial_store.memory 100 4 7 }

load_value-store_value_example : load_value stored 100 i32 ≡ ok (value i32 7)
unfolding store_value check_bounds size_of_type
load_value-store_value_example =
    load_value-store_value initial_store stored 100 (value i32 7) (omega arith) refl

load_value-store_value_elsewhere_example :
    load_value stored 104 i64 ≡ load_value initial_store 104 i64
unfolding store_value check_bounds size_of_type
load_value-store_value_elsewhere_example =
    load_value-store_value_elsewhere initial_store stored 100 104 (value i32 7) i64
      (inl (omega arith)) refl

abbrev pushed_seven : Store
pushed_seven = record initial_store {
  stack_pointer = 65532;
  stack = write_bytes initial_store.stack 65532 4 7;
}

pop_value-push_value_example :
    (s'' : Store) × (pop_value pushed_seven i32 ≡ ok (value i32 7, s''))
    × (s''.stack_pointer ≡ stack_size)
    × ((a : ℕ) → stack_size ≤ a → s''.stack a ≡ initial_store.stack a)
    × (s''.memory ≡ pushed_seven.memory)
    × (s''.heap_blocks ≡ pushed_seven.heap_blocks)
unfolding push_value size_of_type
pop_value-push_value_example =
    pop_value-push_value initial_store pushed_seven (value i32 7) (omega arith) (omega arith) refl

-- The second block grown to 32 bytes.
abbrev grown : Store
grown = record two_blocks {
  memory = move_bytes two_blocks.memory 24 8 16;
  heap_blocks =
      record { offset = 0; size = 8; free = false }
      ∷ record { offset = 8; size = 16; free = true }
      ∷ record { offset = 24; size = 32; free = false }
      ∷ [];
  heap_bump_ptr = 56;
}

heap_realloc-IsReallocated_example : IsReallocated two_blocks grown 8 16 24 32
unfolding heap_realloc realloc_known heap_block_size size_in is_at copy_block overlap heap_alloc
    bump_alloc alloc_in heap_free free_in
heap_realloc-IsReallocated_example =
    heap_realloc-IsReallocated two_blocks grown 8 16 24 32 two_blocks-IsHeap
      (inr (inl (refl, refl, refl))) (omega arith) refl

-- U+20AC at the address 16.
abbrev euro_bytes : Bytes
euro_bytes = Utf8.write_list (λ a. 0) 16 (226 ∷ 130 ∷ 172 ∷ [])

decode-encode_example : Utf8.decode euro_bytes 16 ≡ ok 8364
unfolding Utf8.encode Utf8.encoded Utf8.continuation Utf8.write_list check_range
decode-encode_example = decode-encode (λ a. 0) euro_bytes 16 8364 3 (omega arith) refl

is_valid-ok_example : (b : Bool) × (Utf8.is_valid euro_bytes 16 3 ≡ ok b)
is_valid-ok_example = is_valid-ok euro_bytes 16 3

reverse_range_lem_example :
    ((j : ℕ) → j < 3 → reverse_range euro_bytes 16 3 (16 + j) ≡ euro_bytes (16 + (3 - 1 - j)))
    × ((a : ℕ) → (a < 16) ⊎ (16 + 3 ≤ a) → reverse_range euro_bytes 16 3 a ≡ euro_bytes a)
reverse_range_lem_example = reverse_range_lem euro_bytes 16 3

find_byte-FindsFirst_example : FindsFirst euro_bytes 16 172 3 (some 18)
unfolding find_byte Utf8.write_list
find_byte-FindsFirst_example = find_byte-FindsFirst euro_bytes 16 172 3

swap_ranges_lem_example :
    ((j : ℕ)
      → j < 2
      → (swap_ranges euro_bytes 16 20 2 (16 + j) ≡ euro_bytes (20 + j))
        × (swap_ranges euro_bytes 16 20 2 (20 + j) ≡ euro_bytes (16 + j)))
    × ((x : ℕ) → Outside 16 2 x → Outside 20 2 x → swap_ranges euro_bytes 16 20 2 x ≡ euro_bytes x)
swap_ranges_lem_example = swap_ranges_lem euro_bytes 16 20 2 (inl (omega arith))
