-- ===== src/Value.antt =====
-- include/uasm/value.h and src/core/value.cpp: typed values.
pub mod Int128
pub mod Float
pub mod Defs
pub mod Conversions
pub mod Parse
pub mod Tests
