-- ===== src/Bytecode/Decode.antt =====
-- Reading instructions back out of bytes: crates/ruta-bytecode/src/decode.rs.
use ruta.Prelude.{
  ℕ, ◌+◌, ◌*◌, ◌%◌, ◌^◌, List, [], ◌∷◌, Option, none, some, ltb, leb, if◌then◌else◌, length,
  get_elem?, get_or, take, drop, Outcome, ok, err, ◌>>=◌, ok_or, expect,
}
use ruta.Prelude.Int.{of_word}
use ruta.Bytecode.OpCode.{Operand, width, OpCode, from_byte, operands, instruction_len}
use ruta.Bytecode.Op.{Op}

pub data DecodeError : Type 0 where
  unknown_op_code : (at : ℕ) → (byte : ℕ) → DecodeError
  truncated : (at : ℕ) → DecodeError

-- `&code[at..at + width]`, which panics past the end.
unfoldable pub slice : List ℕ → ℕ → ℕ → Option (List ℕ)
slice code at n = if leb (at + n) (length code) then some (take n (drop at code)) else none

-- `u32::from_le_bytes` of the bytes read, zeros above them.
unfoldable pub from_le_bytes : List ℕ → ℕ
from_le_bytes [] = 0
from_le_bytes (byte ∷ bytes) = byte + 256 * from_le_bytes bytes

-- The loop of `read_operands` over the slots of `values`.
unfoldable pub read_slots : List ℕ → ℕ → List ℕ → List Operand → Outcome DecodeError (List ℕ)
unfolding slice from_le_bytes width
read_slots code at [] kinds = ok []
read_slots code at (slot ∷ slots) [] = ok (slot ∷ slots)
read_slots code at (slot ∷ slots) (kind ∷ kinds) = do
  bytes ← expect (slice code at (width kind))
  rest ← read_slots code (at + width kind) slots kinds
  ok (from_le_bytes bytes ∷ rest)

-- `read_operands`
unfoldable pub read_operands : List ℕ → ℕ → OpCode → Outcome DecodeError (List ℕ)
unfolding read_slots operands
read_operands code at opcode = read_slots code at (0 ∷ 0 ∷ 0 ∷ 0 ∷ []) (operands opcode)

-- The `match` of `decode`: `raw[i] as u8` is the word modulo 256.
unfoldable pub op_of : OpCode → List ℕ → Op
op_of OpCode.load_nil raw = Op.load_nil (get_or raw 0 0 % 256)
op_of OpCode.load_true raw = Op.load_true (get_or raw 0 0 % 256)
op_of OpCode.load_false raw = Op.load_false (get_or raw 0 0 % 256)
op_of OpCode.load_const raw = Op.load_const (get_or raw 0 0 % 256) (get_or raw 1 0)
op_of OpCode.load_const_wide raw = Op.load_const (get_or raw 0 0 % 256) (get_or raw 1 0)
op_of OpCode.move raw = Op.move (get_or raw 0 0 % 256) (get_or raw 1 0 % 256)
op_of OpCode.get_upval raw = Op.get_upval (get_or raw 0 0 % 256) (get_or raw 1 0 % 256)
op_of OpCode.set_upval raw = Op.set_upval (get_or raw 0 0 % 256) (get_or raw 1 0 % 256)
op_of OpCode.close_upvals raw = Op.close_upvals (get_or raw 0 0 % 256)
op_of OpCode.closure raw = Op.closure (get_or raw 0 0 % 256) (get_or raw 1 0)
op_of OpCode.vararg raw = Op.vararg (get_or raw 0 0 % 256) (get_or raw 1 0 % 256)
op_of OpCode.new_table raw = Op.new_table (get_or raw 0 0 % 256) (get_or raw 1 0) (get_or raw 2 0)
op_of OpCode.index raw =
    Op.index (get_or raw 0 0 % 256) (get_or raw 1 0 % 256) (get_or raw 2 0 % 256)
op_of OpCode.set_index raw =
    Op.set_index (get_or raw 0 0 % 256) (get_or raw 1 0 % 256) (get_or raw 2 0 % 256)
op_of OpCode.define_global raw =
    Op.define_global (get_or raw 0 0 % 256) (get_or raw 1 0 % 256) (get_or raw 2 0 % 256)
op_of OpCode.set_list raw =
    Op.set_list (get_or raw 0 0 % 256) (get_or raw 1 0 % 256) (get_or raw 2 0 % 256)
      (get_or raw 3 0)
op_of OpCode.set_list_spread raw =
    Op.set_list_spread (get_or raw 0 0 % 256) (get_or raw 1 0 % 256) (get_or raw 2 0)
op_of OpCode.neg raw = Op.neg (get_or raw 0 0 % 256) (get_or raw 1 0 % 256)
op_of OpCode.not raw = Op.not (get_or raw 0 0 % 256) (get_or raw 1 0 % 256)
op_of OpCode.len raw = Op.len (get_or raw 0 0 % 256) (get_or raw 1 0 % 256)
op_of OpCode.b_not raw = Op.b_not (get_or raw 0 0 % 256) (get_or raw 1 0 % 256)
op_of OpCode.add raw = Op.add (get_or raw 0 0 % 256) (get_or raw 1 0 % 256) (get_or raw 2 0 % 256)
op_of OpCode.sub raw = Op.sub (get_or raw 0 0 % 256) (get_or raw 1 0 % 256) (get_or raw 2 0 % 256)
op_of OpCode.mul raw = Op.mul (get_or raw 0 0 % 256) (get_or raw 1 0 % 256) (get_or raw 2 0 % 256)
op_of OpCode.div raw = Op.div (get_or raw 0 0 % 256) (get_or raw 1 0 % 256) (get_or raw 2 0 % 256)
op_of OpCode.i_div raw =
    Op.i_div (get_or raw 0 0 % 256) (get_or raw 1 0 % 256) (get_or raw 2 0 % 256)
op_of OpCode.modulo raw =
    Op.modulo (get_or raw 0 0 % 256) (get_or raw 1 0 % 256) (get_or raw 2 0 % 256)
op_of OpCode.pow raw = Op.pow (get_or raw 0 0 % 256) (get_or raw 1 0 % 256) (get_or raw 2 0 % 256)
op_of OpCode.concat raw =
    Op.concat (get_or raw 0 0 % 256) (get_or raw 1 0 % 256) (get_or raw 2 0 % 256)
op_of OpCode.eq raw = Op.eq (get_or raw 0 0 % 256) (get_or raw 1 0 % 256) (get_or raw 2 0 % 256)
op_of OpCode.ne raw = Op.ne (get_or raw 0 0 % 256) (get_or raw 1 0 % 256) (get_or raw 2 0 % 256)
op_of OpCode.lt raw = Op.lt (get_or raw 0 0 % 256) (get_or raw 1 0 % 256) (get_or raw 2 0 % 256)
op_of OpCode.le raw = Op.le (get_or raw 0 0 % 256) (get_or raw 1 0 % 256) (get_or raw 2 0 % 256)
op_of OpCode.gt raw = Op.gt (get_or raw 0 0 % 256) (get_or raw 1 0 % 256) (get_or raw 2 0 % 256)
op_of OpCode.ge raw = Op.ge (get_or raw 0 0 % 256) (get_or raw 1 0 % 256) (get_or raw 2 0 % 256)
op_of OpCode.b_and raw =
    Op.b_and (get_or raw 0 0 % 256) (get_or raw 1 0 % 256) (get_or raw 2 0 % 256)
op_of OpCode.b_or raw = Op.b_or (get_or raw 0 0 % 256) (get_or raw 1 0 % 256) (get_or raw 2 0 % 256)
op_of OpCode.b_xor raw =
    Op.b_xor (get_or raw 0 0 % 256) (get_or raw 1 0 % 256) (get_or raw 2 0 % 256)
op_of OpCode.shl raw = Op.shl (get_or raw 0 0 % 256) (get_or raw 1 0 % 256) (get_or raw 2 0 % 256)
op_of OpCode.shr raw = Op.shr (get_or raw 0 0 % 256) (get_or raw 1 0 % 256) (get_or raw 2 0 % 256)
op_of OpCode.call raw = Op.call (get_or raw 0 0 % 256) (get_or raw 1 0 % 256) (get_or raw 2 0 % 256)
op_of OpCode.tail_call raw = Op.tail_call (get_or raw 0 0 % 256) (get_or raw 1 0 % 256)
op_of OpCode.return raw = Op.return (get_or raw 0 0 % 256) (get_or raw 1 0 % 256)
op_of OpCode.jump raw = Op.jump (of_word (2 ^ 31) (get_or raw 0 0))
op_of OpCode.jump_if_true raw =
    Op.jump_if_true (get_or raw 0 0 % 256) (of_word (2 ^ 31) (get_or raw 1 0))
op_of OpCode.jump_if_false raw =
    Op.jump_if_false (get_or raw 0 0 % 256) (of_word (2 ^ 31) (get_or raw 1 0))
op_of OpCode.for_prep raw = Op.for_prep (get_or raw 0 0 % 256) (of_word (2 ^ 31) (get_or raw 1 0))
op_of OpCode.for_loop raw = Op.for_loop (get_or raw 0 0 % 256) (of_word (2 ^ 31) (get_or raw 1 0))

-- `decode`
unfoldable pub decode : List ℕ → ℕ → Outcome DecodeError (Op × ℕ)
unfolding from_byte instruction_len read_operands op_of
decode code pc = do
  byte ← ok_or (get_elem? code pc) (truncated pc)
  opcode ← ok_or (from_byte byte) (unknown_op_code pc byte)
  len ← expect (instruction_len byte)
  if ltb (length code) (pc + len)
      then err (truncated pc)
      else do raw ← read_operands code (pc + 1) opcode; ok (op_of opcode raw, len)
