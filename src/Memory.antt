-- ===== src/Memory.antt =====
-- The interpreter's store: memory, stack and heap (src/vm/interpreter.cpp).
pub mod Scan
pub mod Strings
pub mod Utf8
pub mod Coding
pub mod Reversal
pub mod Exchange
pub mod Bytes
pub mod Defs
pub mod Heap
pub mod Access
pub mod Stack
pub mod Tiling
pub mod HeapSafety
pub mod Within
pub mod Realloc
pub mod Tests
