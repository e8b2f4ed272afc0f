-- ===== src/Vector.antt =====
-- src/vm/vector_ops.cpp: vectors as values of 16, 32 or 64 bytes, and the operations on their lanes.
pub mod Lanes
pub mod Operations
pub mod Horizontal
pub mod Shuffles
pub mod Compute
pub mod Masks
pub mod Wide
pub mod WideArith
pub mod WideCompute
pub mod Memory
pub mod Splice
pub mod Access
pub mod Yields
pub mod Lanewise
pub mod MaskedLanes
pub mod Compaction
pub mod Tests
