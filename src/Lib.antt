-- ===== src/Lib.antt =====
-- ruta, an implementation of Lua 5.5 in Rust: its lexer, its bytecode and the core of its runtime.
--
-- The program compiles a chunk in stages. crates/ruta-syntax reads the text and resolves its
-- names, crates/ruta-compile lowers it, allocates registers and emits the bytecode of
-- crates/ruta-bytecode, and crates/ruta-runtime runs that: the machine of vm/ reads instructions,
-- keeps its registers on a stack, and keeps strings, tables and functions on a heap behind handles.
--
-- Modelled here, with the file of the source for each:
--   Syntax/Text                     crates/ruta-syntax/src/lexer/bytes.rs
--   Syntax/LineIndex                crates/ruta-syntax/src/line_index.rs
--   Syntax/Token, Syntax/Error      crates/ruta-syntax/src/token.rs, error.rs
--   Syntax/Lexer/Cursor             crates/ruta-syntax/src/lexer/cursor.rs
--   Syntax/Lexer/Long               crates/ruta-syntax/src/lexer/long.rs
--   Syntax/Lexer/Short, Utf8        crates/ruta-syntax/src/lexer/string.rs
--   Syntax/Lexer/Numeral, Hexadecimal  crates/ruta-syntax/src/lexer/number.rs
--   Syntax/Lexer/Scan               crates/ruta-syntax/src/lexer/scan.rs
--   Bytecode/OpCode, Bytecode/Op    crates/ruta-bytecode/src/op.rs
--   Bytecode/Encode                 crates/ruta-bytecode/src/encode.rs
--   Bytecode/Decode                 crates/ruta-bytecode/src/decode.rs
--   Bytecode/Debug                  crates/ruta-bytecode/src/debug.rs (line_at)
--   Bytecode/Walk                   crates/ruta-runtime/src/vm/origin.rs (Code::of)
--   Runtime/Value                   crates/ruta-runtime/src/value.rs
--   Runtime/Arith                   crates/ruta-runtime/src/vm/arith.rs
--   Runtime/Arith/Comparison        crates/ruta-runtime/src/vm/arith.rs (equal, compare)
--   Runtime/Loops                   crates/ruta-runtime/src/vm/loops.rs, vm/state.rs (to_number)
--   Runtime/Table                   crates/ruta-runtime/src/heap/table/store.rs
--   Runtime/Table/Size              crates/ruta-runtime/src/heap/table/store.rs (how big each part gets)
--   Runtime/Table/Key               crates/ruta-runtime/src/heap/table/key.rs, heap/string.rs (hash_bytes)
--   Runtime/Table/Access            crates/ruta-runtime/src/heap/table/access.rs
--   Runtime/Heap                    crates/ruta-runtime/src/heap/arena.rs
--   Runtime/Heap/Strings            crates/ruta-runtime/src/heap/string.rs
--   Runtime/Heap/Load               crates/ruta-runtime/src/heap/function.rs, heap/proto.rs
--   Runtime/Stack                   crates/ruta-runtime/src/stack/frame.rs, stack/values.rs
--   Runtime/Machine                 crates/ruta-runtime/src/vm/state.rs
--   Runtime/Machine/Number          crates/ruta-runtime/src/number.rs
--   Runtime/Machine/Text            crates/ruta-runtime/src/vm/text.rs, vm/error.rs
--   Runtime/Machine/Origin, Trace   crates/ruta-runtime/src/vm/origin.rs
--   Runtime/Machine/Raise           crates/ruta-runtime/src/vm/state.rs (throw, fault and the like)
--   Runtime/Machine/Operators       crates/ruta-runtime/src/vm/arith.rs, vm/loops.rs, on the machine
--   Runtime/Machine/Call            crates/ruta-runtime/src/vm/call.rs
--   Runtime/Machine/Perform, Leave, Dispatch  crates/ruta-runtime/src/vm/dispatch.rs (step)
--   Runtime/Machine/Loop            crates/ruta-runtime/src/vm/dispatch.rs (run), vm/state.rs (run)
--   Runtime/Machine/Base, InBase, Library  crates/ruta-runtime/src/vm/base.rs, vm/state.rs (new)
--   Bytecode/Prototype              crates/ruta-bytecode/src/prototype.rs, constant.rs, debug.rs
--   Compile/Pool                    crates/ruta-compile/src/emit/pool.rs
-- The other files hold theorems, named for what they are about. Prelude holds what all share.
--
-- A function of the source is a function of the same name here, and a method takes its object
-- first. A function that changes an object answers the new one. Prelude/Returns has what a fallible
-- function answers: a value, an error, or a panic, which stands for `expect`, `unreachable!`, an
-- index out of range and a division by 0. A sum or difference that overflows is a panic too, as with
-- overflow checks on, where the end of a jump is computed that is patched (`patch_jump`), where the pc
-- moves on (`advance_pc`), where a list's items are counted (`set_items`) and where the lexer's buffer
-- is cut (`shorten`). The `i32` exponent of a hexadecimal float wraps around instead, as in a release
-- build (`wrap_32`).
--
-- Integers: an `i64` is a ℤ in range, and a word is a ℕ. Casts and wrap-around are written out
-- (Prelude/Int). Floats: an `f64` is its 64 bits (Runtime/Float). What the code asks of a float
-- without rounding (comparisons, floor, ceil, whether it is whole) is defined from IEEE 754, as an
-- exact number of units of 2^-1074. What rounds (sums, products, casts to a float) is the record
-- `Rounding`, of which nothing is assumed. Sizes of types are the compiler's, and are the record
-- `Layout`.
--
-- Text is its bytes. What `str::from_utf8` and `parse::<f64>` read, and what `from_utf8_lossy` shows,
-- are arguments (`read_f64`, `lossy`). Positions are cast to `u32`, which wraps around (`as_u32`).
--
-- Loops are recursion on fuel. The lexer's loops have one step more than the bytes left in the
-- source, as each step takes a byte. The walk over the code has the length of the code, as an
-- instruction takes a byte at least. The halving of `array_border` has the length of the array. A
-- counted loop has 2^64 rounds, which its count, a `u64`, does not reach past. A walk along a
-- table's chain has the number of nodes, and answers `endless` on a longer one. A search in the
-- table of short strings has as many steps as slots. The lexer and that search answer a panic
-- where no step is left. Inserting into a table counts how deep rebuilding may nest.
--
-- The machine is the record `Vm` of vm/state.rs, with the bytes written to the standard output
-- beside its fields. What it raises is a value and the machine as it is then. What it takes from
-- elsewhere is the record `Host`: rounding, sizes, the parsing and formatting of floats, lossy UTF-8;
-- nothing is assumed of it. A host function is an address, and `Natives` says what the function at
-- an address does: `base_functions` for the library, and an argument of the theorems. A slot is a
-- ℕ, and a difference of slots below 0 is a panic. The loop of `run` has fuel and answers nothing
-- where it has run out. `trace` has one step more than the pc it starts from, and answers nothing where
-- it has run out, which no answer of the code is.
--
-- Not modelled: the parser, the scopes, the compile crate but for its pool of constants, the command
-- line, and the harness. `debug_assert`s, the write barrier and the failing of a write to the
-- standard output are left out.
pub mod Prelude
pub mod Bytecode
pub mod Runtime
pub mod Syntax
pub mod Compile
