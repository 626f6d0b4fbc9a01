-- ===== src/Bytecode.antt =====
-- The bytecode a chunk compiles to: crates/ruta-bytecode.
pub mod OpCode
pub mod Op
pub mod Encode
pub mod Decode
pub mod Debug
pub mod RoundTrip
pub mod Lines
pub mod Walk
pub mod Prototype
pub mod Patch
mod Tests
