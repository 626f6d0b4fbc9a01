-- ===== src/Syntax/Lexer/Safety.antt =====
-- What the functions of crates/ruta-syntax/src/lexer ensure of the cursor and of their steps.
pub mod Ensures
pub mod Long
pub mod Escape
pub mod Short
pub mod Word
pub mod Scan
