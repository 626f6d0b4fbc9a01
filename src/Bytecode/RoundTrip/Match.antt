-- ===== src/Bytecode/RoundTrip/Match.antt =====
-- The two matches are inverse: `op_of` rebuilds the instruction that `instruction` took apart.
use ruta.Prelude.{
  ℕ, ◌^◌, ◌≤◌, ◌≡◌, refl, ap, ltb→lt, Bool-cases, inl, inr, arith, List, [], ◌∷◌, ◌++◌, some, ltb,
  length, drop,
}
use ruta.Prelude.Int.{of_word-to_word}
use ruta.Bytecode.OpCode.{OpCode, width, byte_of, from_byte, operands}
use ruta.Bytecode.Op.{Op, IsOp}
use ruta.Bytecode.Encode.{instruction}
use ruta.Bytecode.Decode.{op_of}
use ruta.Bytecode.RoundTrip.Operands.{Fits}

pub from_byte-byte_of : (opcode : OpCode) → from_byte (byte_of opcode) ≡ some opcode
unfolding from_byte
from_byte-byte_of OpCode.load_nil = refl
from_byte-byte_of _ = refl

-- What `read_operands` leaves in its four slots.
abbrev pub slots : List ℕ → List ℕ
slots raws = raws ++ drop (length raws) (0 ∷ 0 ∷ 0 ∷ 0 ∷ [])

pub op_of-instruction :
    (op : Op) → IsOp op → op_of (instruction op).0 (slots (instruction op).1) ≡ op
unfolding op_of instruction
op_of-instruction (Op.load_const dest constant) h = ground arith
op_of-instruction (Op.jump offset) h = ap Op.jump (of_word-to_word _ offset h)
op_of-instruction (Op.jump_if_true cond offset) h =
    ground (arith, of_word-to_word (2 ^ 31) offset h.1)
op_of-instruction (Op.jump_if_false cond offset) h =
    ground (arith, of_word-to_word (2 ^ 31) offset h.1)
op_of-instruction (Op.for_prep control offset) h =
    ground (arith, of_word-to_word (2 ^ 31) offset h.1)
op_of-instruction (Op.for_loop control offset) h =
    ground (arith, of_word-to_word (2 ^ 31) offset h.1)
op_of-instruction _ h = ground arith

pub instruction-Fits : (op : Op) → IsOp op → Fits (instruction op).1 (operands (instruction op).0)
unfolding instruction operands width
instruction-Fits (Op.load_const dest constant) h = elim (Bool-cases (ltb constant (2 ^ 16))) [
  | inl e ↦ rw e (omega (arith, ltb→lt _ _ e))
  | inr e ↦ rw e (omega arith)
]
instruction-Fits _ h = ground arith

pub length-instruction : (op : Op) → length (instruction op).1 ≤ 4
unfolding instruction
length-instruction (Op.load_const dest constant) = ground arith
length-instruction _ = omega arith
