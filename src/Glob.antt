-- ===== src/Glob.antt =====
-- src/util/glob.cpp: the file name patterns.
pub mod Defs
pub mod Spec
pub mod Correct
pub mod Rounds
pub mod Expand
pub mod Chosen
pub mod Tests
