-- ===== src/Syntax.antt =====
-- Reading source text: crates/ruta-syntax.
pub mod Text
pub mod LineIndex
pub mod Token
pub mod Error
pub mod Lexer
pub mod Keywords
pub mod Lines
mod Tests
