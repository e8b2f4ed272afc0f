-- ===== src/Ast/Opcode.antt =====
-- The opcodes of include/uasm/opcodes_core.def and opcodes_simd.def, by their place in the two tables. `modulo` is the source's `Mod`.
pub mod Core
pub mod Bits
pub mod Checked
pub mod Control
pub mod Frames
pub mod Strings
pub mod Lanewise
pub mod Vector
pub mod VectorMemory
pub mod Wide
pub mod Masks
pub mod Masked
pub use Core.*
pub use Bits.*
pub use Checked.*
pub use Control.*
pub use Frames.*
pub use Strings.*
pub use Lanewise.*
pub use Vector.*
pub use VectorMemory.*
pub use Wide.*
pub use Masks.*
pub use Masked.*
use uasm.Base.{ℕ}

-- The number of opcodes of the two tables, and of the first.
abbrev pub opcode_count : ℕ
opcode_count = 611

abbrev pub core_count : ℕ
core_count = 357
