-- ===== src/Alu.antt =====
-- The operations on values of src/vm/interpreter.cpp, in front of its class `Interpreter`.
pub mod Arith
pub mod Bits
pub mod Loops
pub mod Numeric
pub mod Root
pub mod Modular
pub mod Signed
pub mod Saturation
pub mod Overflow
pub mod Counting
pub mod Mirror
pub mod Division
pub mod Integer
pub mod Saturating
pub mod BitManip
pub mod Convert
pub mod Float
pub mod FloatExt
pub mod Tests
