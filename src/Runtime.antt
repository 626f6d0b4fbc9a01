-- ===== src/Runtime.antt =====
-- The virtual machine and its heap: crates/ruta-runtime.
pub mod Float
pub mod Value
pub mod Arith
pub mod Loops
pub mod Table
pub mod Heap
pub mod Stack
pub mod Machine
mod Tests
