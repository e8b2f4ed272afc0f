-- ===== src/Memory/Heap.antt =====
-- The heap of the class `Interpreter` in src/vm/interpreter.cpp: `heapAlloc`, `heapFree`,
-- `heapBlockSize`, `heapRealloc` and `freeAllocas`.
use uasm.Base.{
  ℕ, ◌+◌, ◌-◌, ◌%◌, ◌^◌, Bool, true, false, not, ◌&&◌, ◌||◌, Option, none, some, List, [], ◌∷◌,
  ◌++◌, leb, ltb, ◌==◌, if◌then◌else◌, ok, err, ◌>>=◌,
}
use uasm.Runtime.{RuntimeError, Run}
use uasm.Memory.Defs.{HeapBlock, Store, memory_size, move_bytes, overlap}

-- The block that `heapAlloc` takes: what is left of it stays free behind it.
unfoldable pub take_block : HeapBlock → ℕ → List HeapBlock → List HeapBlock
take_block b size rest =
    if ltb size b.size
    then record b { free = false; size = size }
      ∷ record { offset = b.offset + size; size = b.size - size; free = true }
      ∷ rest
    else record b { free = false } ∷ rest

-- The loop of `heapAlloc` for the first free block that is large enough.
unfoldable pub alloc_in : List HeapBlock → ℕ → Option (ℕ × List HeapBlock)
alloc_in [] size = none
alloc_in (b ∷ rest) size =
    if b.free && leb size b.size
    then some (b.offset, take_block b size rest)
    else elim (alloc_in rest size) [ none ↦ none | some (o, rest') ↦ some (o, b ∷ rest') ]

-- The end of `heapAlloc`: a new block behind the others.
unfoldable pub bump_alloc : Store → ℕ → Run (ℕ × Store)
bump_alloc s size =
    if ltb memory_size ((s.heap_bump_ptr + size) % 2 ^ 64)
    then err RuntimeError.out_of_memory
    else ok (
      s.heap_bump_ptr,
      record s {
        heap_blocks =
            s.heap_blocks ++ record { offset = s.heap_bump_ptr; size = size; free = false } ∷ [];
        heap_bump_ptr = (s.heap_bump_ptr + size) % 2 ^ 64;
      },
    )

-- `if (size == 0) size = 1;`
abbrev pub at_least_one : ℕ → ℕ
at_least_one size = if size == 0 then 1 else size

unfoldable pub heap_alloc : Store → ℕ → Run (ℕ × Store)
heap_alloc s size = elim (alloc_in s.heap_blocks (at_least_one size)) [
  | some (o, blocks) ↦ ok (o, record s { heap_blocks = blocks })
  | none ↦ bump_alloc s (at_least_one size)
]

-- The first block at the offset that is not free is the one that is meant.
unfoldable pub is_at : ℕ → HeapBlock → Bool
is_at offset b = b.offset == offset && not b.free

unfoldable pub free_in : List HeapBlock → ℕ → Option (List HeapBlock)
free_in [] offset = none
free_in (b ∷ rest) offset =
    if is_at offset b
    then some (record b { free = true } ∷ rest)
    else elim (free_in rest offset) [ none ↦ none | some rest' ↦ some (b ∷ rest') ]

unfoldable pub heap_free : Store → ℕ → Run Store
heap_free s offset = elim (free_in s.heap_blocks offset) [
  | some blocks ↦ ok (record s { heap_blocks = blocks })
  | none ↦ err RuntimeError.free_untracked
]

unfoldable pub size_in : List HeapBlock → ℕ → Option ℕ
size_in [] offset = none
size_in (b ∷ rest) offset = if is_at offset b then some b.size else size_in rest offset

unfoldable pub heap_block_size : Store → ℕ → Run ℕ
heap_block_size s offset = elim (size_in s.heap_blocks offset) [
  | some n ↦ ok n
  | none ↦ err RuntimeError.untracked_pointer
]

-- The `memcpy` in `heapRealloc`, which copies nothing at length 0; outside `memory_` and on ranges
-- that overlap it is undefined.
unfoldable pub copy_block : Store → ℕ → ℕ → ℕ → Run Store
copy_block s dst src len =
    if ltb 0 len
      && (ltb memory_size (dst + len) || ltb memory_size (src + len) || overlap dst src len)
    then err RuntimeError.undefined
    else ok (record s { memory = move_bytes s.memory dst src len })

-- `heapRealloc` from the line that allocates on, with the old size known.
unfoldable pub realloc_known : Store → ℕ → ℕ → ℕ → Run (ℕ × Store)
realloc_known s offset new_size old_size = do
  (new_offset, s₁) ← heap_alloc s new_size
  s₂ ← copy_block s₁ new_offset offset (if ltb old_size new_size then old_size else new_size)
  s₃ ← heap_free s₂ offset
  ok (new_offset, s₃)

unfoldable pub heap_realloc : Store → ℕ → ℕ → Run (ℕ × Store)
heap_realloc s offset new_size = do
  old_size ← heap_block_size s offset
  realloc_known s offset new_size old_size

-- `freeAllocas` on the addresses of a frame, the last one first.
unfoldable pub free_allocas : Store → List ℕ → Run Store
free_allocas s [] = ok s
free_allocas s (a ∷ rest) = do s' ← free_allocas s rest; heap_free s' a
