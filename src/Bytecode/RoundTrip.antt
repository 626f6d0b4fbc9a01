-- ===== src/Bytecode/RoundTrip.antt =====
-- `decode` (crates/ruta-bytecode/src/decode.rs) reads back what `Encoder::emit` (encode.rs) wrote.
mod Operands
mod Match
pub mod Errors
use mathlib.Core.List.{append_assoc}
use ruta.Prelude.{
  ℕ, zero, suc, ◌+◌, ◌-◌, ◌*◌, ◌/◌, ◌%◌, ◌^◌, ◌<◌, ◌≤◌, ◌≡◌, ◌≢◌, refl, sym, ap, ◌∙◌, arith, List,
  [], ◌∷◌, ◌++◌, Option, none, some, ltb, leb, if◌then◌else◌, length, get_elem?, take, drop,
  length-append, Outcome, ok, err, panic, ◌>>=◌, ok_or, expect,
}
use ruta.Bytecode.OpCode.{OpCode, byte_of, from_byte, operands, total, instruction_len}
use ruta.Bytecode.Op.{Op, IsOp}
use ruta.Bytecode.Encode.{Encoder, pc, operand_bytes, written, instruction, emit}
use ruta.Bytecode.Decode.{read_slots, read_operands, op_of, decode}
use Operands.{Fits, length-operand_bytes, read_slots-operand_bytes}
use Match.{from_byte-byte_of, slots, op_of-instruction, instruction-Fits, length-instruction}

pub instruction_len-byte_of :
    (opcode : OpCode) → instruction_len (byte_of opcode) ≡ some (1 + total (operands opcode))
unfolding instruction_len
instruction_len-byte_of opcode = rw (from_byte-byte_of opcode, instruction_len)

get_elem?-append : (pre post : List ℕ) (b : ℕ) → get_elem? (pre ++ (b ∷ post)) (length pre) ≡ some b
get_elem?-append [] post b = refl
get_elem?-append (x ∷ pre) post b = get_elem?-append pre post b

read_operands-written :
    (pre rest raws : List ℕ) (opcode : OpCode)
    → Fits raws (operands opcode)
    → length raws ≤ 4
    → read_operands (pre ++ (written opcode raws ++ rest)) (length pre + 1) opcode ≡ ok (slots raws)
unfolding read_operands written
read_operands-written pre rest raws opcode fits few =
    let bytes = operand_bytes raws (operands opcode) in
    let front = pre ++ (byte_of opcode ∷ []) in
    let next : length front ≡ length pre + 1 = length-append pre (byte_of opcode ∷ []) in
    rw (← append_assoc pre (byte_of opcode ∷ []) (bytes ++ rest), ← next)
      (read_slots-operand_bytes front rest _ raws (operands opcode) fits few)

decode_known :
    (code raw : List ℕ) (pc byte len : ℕ) (opcode : OpCode)
    → get_elem? code pc ≡ some byte
    → from_byte byte ≡ some opcode
    → instruction_len byte ≡ some len
    → pc + len ≤ length code
    → read_operands code (pc + 1) opcode ≡ ok raw
    → decode code pc ≡ ok (op_of opcode raw, len)
unfolding decode
decode_known code raw pc byte len opcode e f g h r = ground arith

length-written :
    (raws : List ℕ) (opcode : OpCode)
    → Fits raws (operands opcode)
    → length (written opcode raws) ≡ 1 + total (operands opcode)
unfolding written
length-written raws opcode fits = omega (arith, length-operand_bytes raws (operands opcode) fits)

-- An instruction that was written at any place is read back, with its length.
decode-written :
    (pre rest raws : List ℕ) (opcode : OpCode)
    → Fits raws (operands opcode)
    → length raws ≤ 4
    → decode (pre ++ (written opcode raws ++ rest)) (length pre)
      ≡ ok (op_of opcode (slots raws), 1 + total (operands opcode))
decode-written pre rest raws opcode fits few =
    decode_known _ _ (length pre) (byte_of opcode) _ opcode
      (unfold written in get_elem?-append pre _ (byte_of opcode)) (from_byte-byte_of opcode)
      (instruction_len-byte_of opcode)
      (unfold written in
        omega (
          arith,
          length-append pre (written opcode raws ++ rest),
          length-append (operand_bytes raws (operands opcode)) rest,
          length-operand_bytes raws (operands opcode) fits,
        ))
      (read_operands-written pre rest raws opcode fits few)

-- The bytes of one instruction.
unfoldable pub bytes_of : Op → List ℕ
bytes_of op = written (instruction op).0 (instruction op).1

pub bytes_of-pos : (op : Op) → 0 < length (bytes_of op)
unfolding bytes_of written
bytes_of-pos op = omega arith

pub emit-code :
    (enc : Encoder) (op : Op) (line : ℕ) → (emit enc op line).0.code ≡ enc.code ++ bytes_of op
unfolding emit bytes_of
emit-code enc op line = refl

pub emit-pc :
    (enc : Encoder) (op : Op) (line : ℕ)
    → length enc.code < 2 ^ 32
    → (emit enc op line).1 ≡ length enc.code
unfolding emit pc
emit-pc enc op line h = omega arith

pub decode-bytes_of :
    (pre rest : List ℕ) (op : Op)
    → IsOp op
    → decode (pre ++ (bytes_of op ++ rest)) (length pre) ≡ ok (op, length (bytes_of op))
unfolding bytes_of
decode-bytes_of pre rest op h =
    let (code, raws) = instruction op in
    let fits = instruction-Fits op h in
    rw (
      decode-written pre rest _ (instruction op).0 fits (length-instruction op),
      op_of-instruction op h,
      length-written _ _ fits,
    )

-- The instruction that `emit` appended is read back at the pc that `emit` returned, whatever code
-- follows it, and `decode` reports the number of bytes that `emit` appended. The operands must be
-- in the ranges of their types, and the code before it shorter than 2 ^ 32 bytes.
pub decode-emit :
    (enc : Encoder) (op : Op) (line : ℕ) (rest : List ℕ)
    → IsOp op
    → length enc.code < 2 ^ 32
    → decode ((emit enc op line).0.code ++ rest) (emit enc op line).1
      ≡ ok (op, length (emit enc op line).0.code - length enc.code)
decode-emit enc op line rest h short =
    rw
      (
        emit-code,
        emit-pc enc op line short,
        append_assoc,
        decode-bytes_of enc.code rest op h,
        length-append,
      )
      (ap (λ (n : ℕ). ok (op, n)) (omega arith))
