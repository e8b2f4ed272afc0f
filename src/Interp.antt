-- ===== src/Interp.antt =====
-- `Interpreter::call` and `run` of src/vm/interpreter.cpp.
pub mod Machine
pub mod Basic
pub mod Numeric
pub mod Checked
pub mod Floats
pub mod Flags
pub mod Frames
pub mod Pointers
pub mod Bitfields
pub mod Buffers
pub mod Strings
pub mod Misc
pub mod Control
pub mod Call
pub mod Vectors
pub mod Keeps
pub mod Operands
pub mod Groups
pub mod Bounded
pub mod Passing
pub mod Invariant
pub mod Vectored
pub mod Tests
pub mod Flagging
pub mod Linked
