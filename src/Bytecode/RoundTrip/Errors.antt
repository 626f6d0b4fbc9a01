-- ===== src/Bytecode/RoundTrip/Errors.antt =====
-- What `decode` (crates/ruta-bytecode/src/decode.rs) does on any bytes, well formed or not.
use ruta.Prelude.{
  ℕ, zero, suc, ◌+◌, ◌<◌, ◌≤◌, ◌≡◌, ◌⊎◌, inl, inr, refl, arith, List, [], ◌∷◌, none, some,
  Option-cases, Bool-cases, ltb, ltb→lt, length, get_elem?-lt, get_elem?, take, drop, Outcome, ok,
  err,
}
use ruta.Bytecode.OpCode.{Operand, width, OpCode, all, from_byte, operands, total, instruction_len}
use ruta.Bytecode.Op.{Op}
use ruta.Bytecode.Decode.{
  DecodeError, unknown_op_code, truncated, slice, from_le_bytes, read_slots, read_operands, op_of,
  decode,
}

get_elem?-none : {A : Type 0} (xs : List A) (i : ℕ) → get_elem? xs i ≡ none → length xs ≤ i
get_elem?-none [] i e = omega arith
get_elem?-none (x ∷ xs) zero e = absurd cc
get_elem?-none (x ∷ xs) (suc i) e = omega (arith, get_elem?-none xs i e)

from_byte-lt : (byte : ℕ) → byte < 48 → (opcode : OpCode) × (from_byte byte ≡ some opcode)
unfolding from_byte
from_byte-lt byte h =
    let (opcode, e) = get_elem?-lt all byte (unfold all in omega arith) in
    (opcode, ground (arith, e))

from_byte-eq-none : (byte : ℕ) → 48 ≤ byte → from_byte byte ≡ none
unfolding from_byte
from_byte-eq-none byte h = ground arith

slice_total :
    (code : List ℕ) (at n : ℕ)
    → at + n ≤ length code
    → slice code at n ≡ some (take n (drop at code))
unfolding slice
slice_total code at n h = ground arith

-- Where every operand lies inside the code, `read_operands` reads them.
read_slots-total :
    (code : List ℕ) (at : ℕ) (slots : List ℕ) (kinds : List Operand)
    → at + total kinds ≤ length code
    → (raw : List ℕ) × (read_slots code at slots kinds ≡ ok raw)
unfolding total read_slots
read_slots-total code at [] kinds h = ([], refl)
read_slots-total code at (slot ∷ slots) [] h = (slot ∷ slots, refl)
read_slots-total code at (slot ∷ slots) (kind ∷ kinds) h =
    let (raw, e) = read_slots-total code (at + width kind) slots kinds (omega arith) in
    let bytes = take (width kind) (drop at code) in
    (from_le_bytes bytes ∷ raw, rw (slice_total code at (width kind) (omega arith), e))

-- The instruction at a pc runs past the end of the code: no byte of it is there, or its first byte
-- gives a length that reaches further.
abbrev pub RunsOut : List ℕ → ℕ → Type 0
RunsOut code pc =
    (length code ≤ pc)
    ⊎ ((byte : ℕ) × (len : ℕ) × (get_elem? code pc ≡ some byte)
        × (instruction_len byte ≡ some len)
        × (length code < pc + len))

-- The three ways in which `decode` ends.
pub data Ends (code : List ℕ) (pc : ℕ) : Outcome DecodeError (Op × ℕ) → Type 0 where
  cut : RunsOut code pc → Ends code pc (err (truncated pc))
  unknown :
      (byte : ℕ)
      → get_elem? code pc ≡ some byte
      → 48 ≤ byte
      → Ends code pc (err (unknown_op_code pc byte))
  read :
      (op : Op) (len byte : ℕ)
      → get_elem? code pc ≡ some byte
      → instruction_len byte ≡ some len
      → pc + len ≤ length code
      → Ends code pc (ok (op, len))

instruction_len-eq :
    (byte : ℕ) (opcode : OpCode)
    → from_byte byte ≡ some opcode
    → instruction_len byte ≡ some (1 + total (operands opcode))
unfolding instruction_len
instruction_len-eq byte opcode e = rw (e, instruction_len)

decode_known :
    (code : List ℕ) (pc byte : ℕ) (opcode : OpCode)
    → get_elem? code pc ≡ some byte
    → from_byte byte ≡ some opcode
    → Ends code pc (decode code pc)
unfolding decode read_operands
decode_known code pc byte opcode e f =
    let len = 1 + total (operands opcode) in
    let g = instruction_len-eq byte opcode f in
    elim (Bool-cases (ltb (length code) (pc + len))) [
      | inl short ↦ rw (e, f, g, short) (cut (inr (byte, len, e, g, ltb→lt _ _ short)))
      | inr long ↦
          let (raw, r) =
            read_slots-total code (pc + 1) (0 ∷ 0 ∷ 0 ∷ 0 ∷ []) (operands opcode) (ground arith) in
          rw (e, f, g, long, r) (read (op_of opcode raw) len byte e g (ground arith))
    ]

-- On any bytes and any pc, `decode` ends without a panic, in one of three ways: it answers
-- `Truncated` at that pc, where no byte is there or its length reaches past the code's end; it
-- answers `UnknownOpCode` with the byte there, which is 48 or more; or it answers an instruction of
-- the length that its first byte gives, which lies inside the code.
pub decode-Ends : (code : List ℕ) (pc : ℕ) → Ends code pc (decode code pc)
unfolding decode
decode-Ends code pc = elim (Option-cases (get_elem? code pc)) [
  | inl e ↦ rw e (cut (inl (get_elem?-none code pc e)))
  | inr (byte, e) ↦ elim (Bool-cases (ltb byte 48)) [
    | inl known ↦
        let (opcode, f) = from_byte-lt byte (ltb→lt _ _ known) in
        decode_known code pc byte opcode e f
    | inr large ↦
        let h : 48 ≤ byte = ground arith in rw (e, from_byte-eq-none byte h) (unknown byte e h)
  ]
]
