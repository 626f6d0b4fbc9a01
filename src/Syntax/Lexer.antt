-- ===== src/Syntax/Lexer.antt =====
-- The lexer: crates/ruta-syntax/src/lexer.
-- A method that moves the cursor answers what it returns and the lexer after it. A loop takes as
-- much fuel as the source has bytes left, and would panic if that ran out.
pub mod Cursor
pub mod Long
pub mod Short
pub mod Utf8
pub mod Numeral
pub mod Hexadecimal
pub mod Scan
pub mod Safety
