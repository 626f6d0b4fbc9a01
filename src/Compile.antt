-- ===== src/Compile.antt =====
-- From the tree to the bytecode: crates/ruta-compile.
pub mod Pool
mod Tests
