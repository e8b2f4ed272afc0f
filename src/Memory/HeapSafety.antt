-- ===== src/Memory/HeapSafety.antt =====
-- `heapAlloc`, `heapFree` and `heapRealloc` on a heap whose blocks tile the memory in use.
use uasm.Base.{
  ℕ, ◌+◌, ◌%◌, ◌^◌, ◌<◌, ◌≤◌, ◌≡◌, ◌≢◌, refl, sym, false, inl, inr, ltb, arith, none, List, [], ◌∷◌,
  ◌++◌, Bool-cases, Option-cases, ok, err,
}
use uasm.Runtime.{RuntimeError}
use uasm.Memory.Defs.{HeapBlock, Store, memory_size}
use uasm.Memory.Heap.{alloc_in, bump_alloc, at_least_one, heap_alloc, heap_free}
use uasm.Memory.Tiling.{
  Tiles, Live, Apart, Live-bounds, alloc_in-IsTaken, free_in-IsFreed, free_in-Live,
  free_in-not_Live,
}

-- The blocks tile the memory below the bump pointer, which lies inside the memory.
pub record IsHeap (s : Store) : Type 0 where
  pub tiles : Tiles s.heap_blocks 0 s.heap_bump_ptr
  pub fits : s.heap_bump_ptr ≤ memory_size

Tiles-push :
    (bs : List HeapBlock) (lo hi size : ℕ)
    → Tiles bs lo hi
    → 0 < size
    → Tiles (bs ++ record { offset = hi; size = size; free = false } ∷ []) lo (hi + size)
Tiles-push [] lo hi size t pos = (sym t, pos, omega arith)
Tiles-push (b ∷ rest) lo hi size (e, p, t) pos = (e, p, Tiles-push rest (lo + b.size) hi size t pos)

Live-push : (bs : List HeapBlock) (c : HeapBlock) (o n : ℕ) → Live o n bs → Live o n (bs ++ c ∷ [])
Live-push [] c o n l = absurd l
Live-push (b ∷ rest) c o n (inl x) = inl x
Live-push (b ∷ rest) c o n (inr l) = inr (Live-push rest c o n l)

Live-pushed :
    (bs : List HeapBlock) (o n : ℕ)
    → Live o n (bs ++ record { offset = o; size = n; free = false } ∷ [])
Live-pushed [] o n = inl (refl, refl, refl)
Live-pushed (b ∷ rest) o n = inr (Live-pushed rest o n)

-- What an allocation promises.
pub record IsAllocated (s s' : Store) (o size : ℕ) : Type 0 where
  pub heap : IsHeap s'
  pub live : Live o size s'.heap_blocks
  pub inside : o + size ≤ memory_size
  pub keeps : (o' n : ℕ) → Live o' n s.heap_blocks → Live o' n s'.heap_blocks × Apart o' n o size
  pub memory : s'.memory ≡ s.memory

abbrev bumped : Store → ℕ → Store
bumped s size = record s {
  heap_blocks =
      s.heap_blocks ++ record { offset = s.heap_bump_ptr; size = size; free = false } ∷ [];
  heap_bump_ptr = s.heap_bump_ptr + size;
}

-- Where the sum does not wrap, the new block stands at the bump pointer.
bump_alloc_parts :
    (s s' : Store) (o size : ℕ)
    → s.heap_bump_ptr + size < 2 ^ 64
    → bump_alloc s size ≡ ok (o, s')
    → (o ≡ s.heap_bump_ptr) × (s' ≡ bumped s size) × (s.heap_bump_ptr + size ≤ memory_size)
unfolding bump_alloc
bump_alloc_parts s s' o size h e =
    elim (Bool-cases (ltb memory_size ((s.heap_bump_ptr + size) % 2 ^ 64))) [
      | inl full ↦ absurd (cc (rw full at e))
      | inr room ↦
          let same : (s.heap_bump_ptr + size) % 2 ^ 64 ≡ s.heap_bump_ptr + size = omega arith in
          let e' = rw (room, same) at e in (cc (e'), cc (e'), ground arith)
    ]

bump_alloc-IsAllocated :
    (s s' : Store) (o size : ℕ)
    → IsHeap s
    → 0 < size
    → s.heap_bump_ptr + size < 2 ^ 64
    → bump_alloc s size ≡ ok (o, s')
    → IsAllocated s s' o size
bump_alloc-IsAllocated s s' o size v pos h e =
    let (at_o, same, room) = bump_alloc_parts s s' o size h e in
    rw (at_o, same)
      (record {
        heap = record {
          tiles = Tiles-push s.heap_blocks 0 s.heap_bump_ptr size v.tiles pos;
          fits = room;
        };
        live = Live-pushed s.heap_blocks s.heap_bump_ptr size;
        inside = room;
        keeps = λ o' n l. (
          Live-push s.heap_blocks _ o' n l,
          inl (Live-bounds s.heap_blocks 0 s.heap_bump_ptr o' n v.tiles l).1,
        );
        memory = refl;
      })

-- On a heap whose blocks tile the memory in use, if the bump pointer plus the size does not wrap,
-- an allocation that succeeds gives a block of the size asked for, at least one byte, inside the
-- memory and apart from every allocated block; those stay allocated, the memory is unchanged, and
-- the blocks tile the memory in use again.
pub heap_alloc-IsAllocated :
    (s s' : Store) (o size : ℕ)
    → IsHeap s
    → s.heap_bump_ptr + at_least_one size < 2 ^ 64
    → heap_alloc s size ≡ ok (o, s')
    → IsAllocated s s' o (at_least_one size)
unfolding heap_alloc
heap_alloc-IsAllocated s s' o size v h e =
    elim (Option-cases (alloc_in s.heap_blocks (at_least_one size))) [
      | inl no_block ↦
          bump_alloc-IsAllocated s s' o (at_least_one size) v (ground arith) h
            (rw (no_block, heap_alloc) at e)
      | inr ((o', bs'), found) ↦
          let taken =
            alloc_in-IsTaken s.heap_blocks bs' 0 s.heap_bump_ptr o' (at_least_one size) v.tiles
              (ground arith) found in
          let at_o : o ≡ o' = cc (rw (found, heap_alloc) at e) in
          let same : s' ≡ record s { heap_blocks = bs' } = cc (rw (found, heap_alloc) at e) in
          let (a, c, d) =
            Live-bounds bs' 0 s.heap_bump_ptr o' (at_least_one size) taken.tiles taken.live in
          rw (at_o, same)
            (record {
              heap = record { tiles = taken.tiles; fits = v.fits };
              live = taken.live;
              inside = omega (arith, v.fits);
              keeps = taken.keeps;
              memory = refl;
            })
    ]

-- On a heap whose blocks tile the memory in use, an allocated block can be freed: the blocks tile
-- the memory in use again, every other block stays allocated, a second free of the same address
-- throws, and the memory is unchanged.
pub heap_free-allocated :
    (s : Store) (o n : ℕ)
    → IsHeap s
    → Live o n s.heap_blocks
    → (s' : Store) × (heap_free s o ≡ ok s')
      × IsHeap s'
      × ((o' n' : ℕ) → Live o' n' s.heap_blocks → o' ≢ o → Live o' n' s'.heap_blocks)
      × (heap_free s' o ≡ err RuntimeError.free_untracked)
      × (s'.memory ≡ s.memory)
unfolding heap_free
heap_free-allocated s o n v l =
    let (bs', e) = free_in-Live s.heap_blocks o n l in
    let freed = free_in-IsFreed s.heap_blocks bs' 0 s.heap_bump_ptr o v.tiles e in
    (
      record s { heap_blocks = bs' },
      rw (e, heap_free),
      record { tiles = freed.tiles; fits = v.fits },
      freed.keeps,
      rw (free_in-not_Live bs' o freed.gone, heap_free),
      refl,
    )

-- On a heap whose blocks tile the memory in use, for a size below 2 ^ 64 that no free block serves
-- and that wraps when it is added to the bump pointer, the allocation succeeds at the bump pointer
-- and moves that pointer back.
pub heap_alloc_wraps :
    (s : Store) (size : ℕ)
    → IsHeap s
    → size < 2 ^ 64
    → 2 ^ 64 ≤ s.heap_bump_ptr + size
    → alloc_in s.heap_blocks size ≡ none
    → (s' : Store) × (heap_alloc s size ≡ ok (s.heap_bump_ptr, s'))
      × (s'.heap_bump_ptr < s.heap_bump_ptr)
unfolding heap_alloc bump_alloc
heap_alloc_wraps s size v h w no_block =
    let same : at_least_one size ≡ size = ground (arith, v.fits) in
    let wrapped : ltb memory_size ((s.heap_bump_ptr + size) % 2 ^ 64) ≡ false =
      ground (arith, v.fits) in
    (
      record s {
        heap_blocks =
            s.heap_blocks ++ record { offset = s.heap_bump_ptr; size = size; free = false } ∷ [];
        heap_bump_ptr = (s.heap_bump_ptr + size) % 2 ^ 64;
      },
      rw (same, no_block, heap_alloc) (rw (same, wrapped, bump_alloc)),
      omega (arith, v.fits),
    )
