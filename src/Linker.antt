-- ===== src/Linker.antt =====
-- src/linker/linker.cpp: merging objects into a program.
pub mod Defs
pub mod Spec
pub mod Merging
pub mod Correct
pub mod Tests
