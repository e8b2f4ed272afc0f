-- ===== src/Lexer.antt =====
-- src/frontend/lexer.cpp and include/uasm/lexer.h: the tokens of a source text.
pub mod Chars
pub mod Defs
pub mod Rounds
pub mod Correct
mod Tests
