-- ===== src/Bytecode/Encode.antt =====
-- Turning instructions into bytes: crates/ruta-bytecode/src/encode.rs.
-- The `debug_assert`s are left out: they check nothing in a release build.
use ruta.Prelude.{
  checked, ℕ, ◌+◌, ◌-◌, ◌/◌, ◌%◌, ◌^◌, List, [], ◌∷◌, ◌++◌, Option, none, some, ltb, leb, ◌==◌,
  if◌then◌else◌, length, get_elem?, take, drop, Outcome, ok, ◌>>=◌, expect, Bool, false,
}
use ruta.Prelude.Int.{ℤ, pos, negsuc, sub_ℕ, to_word}
use ruta.Bytecode.OpCode.{Operand, width, OpCode, byte_of, operands, instruction_len}
use ruta.Bytecode.Op.{Op}

-- `code` grows at its end; `lines` has one `(pc, line)` for each change of line.
pub record Encoder : Type 0 where
  pub code : List ℕ
  pub lines : List (ℕ × ℕ)

-- `Encoder::new`
abbrev pub new : Encoder
new = record { code = []; lines = [] }

-- `Encoder::pc`
unfoldable pub pc : Encoder → ℕ
pc enc = length enc.code % 2 ^ 32

-- `u32::to_le_bytes`
unfoldable pub to_le_bytes : ℕ → List ℕ
to_le_bytes w = (w % 256) ∷ (w / 2 ^ 8 % 256) ∷ (w / 2 ^ 16 % 256) ∷ (w / 2 ^ 24 % 256) ∷ []

-- The loop of `Encoder::write`.
unfoldable pub operand_bytes : List ℕ → List Operand → List ℕ
unfolding to_le_bytes width
operand_bytes [] kinds = []
operand_bytes (raw ∷ raws) [] = []
operand_bytes (raw ∷ raws) (kind ∷ kinds) =
    take (width kind) (to_le_bytes raw) ++ operand_bytes raws kinds

-- What `Encoder::write` appends.
unfoldable pub written : OpCode → List ℕ → List ℕ
unfolding byte_of operand_bytes operands
written opcode raws = byte_of opcode ∷ operand_bytes raws (operands opcode)

-- The `match` of `Encoder::emit`: the opcode to write, and the operands as words.
unfoldable pub instruction : Op → OpCode × List ℕ
instruction (Op.load_nil dest) = (OpCode.load_nil, dest ∷ [])
instruction (Op.load_true dest) = (OpCode.load_true, dest ∷ [])
instruction (Op.load_false dest) = (OpCode.load_false, dest ∷ [])
instruction (Op.load_const dest constant) =
    if ltb constant (2 ^ 16)
    then (OpCode.load_const, dest ∷ constant ∷ [])
    else (OpCode.load_const_wide, dest ∷ constant ∷ [])
instruction (Op.move dest src) = (OpCode.move, dest ∷ src ∷ [])
instruction (Op.get_upval dest slot) = (OpCode.get_upval, dest ∷ slot ∷ [])
instruction (Op.set_upval slot src) = (OpCode.set_upval, slot ∷ src ∷ [])
instruction (Op.close_upvals from) = (OpCode.close_upvals, from ∷ [])
instruction (Op.closure dest child) = (OpCode.closure, dest ∷ child ∷ [])
instruction (Op.vararg first count) = (OpCode.vararg, first ∷ count ∷ [])
instruction (Op.new_table dest array_hint hash_hint) =
    (OpCode.new_table, dest ∷ array_hint ∷ hash_hint ∷ [])
instruction (Op.index dest object key) = (OpCode.index, dest ∷ object ∷ key ∷ [])
instruction (Op.set_index object key src) = (OpCode.set_index, object ∷ key ∷ src ∷ [])
instruction (Op.define_global env key src) = (OpCode.define_global, env ∷ key ∷ src ∷ [])
instruction (Op.set_list table first count first_index) =
    (OpCode.set_list, table ∷ first ∷ count ∷ first_index ∷ [])
instruction (Op.set_list_spread table first first_index) =
    (OpCode.set_list_spread, table ∷ first ∷ first_index ∷ [])
instruction (Op.neg dest operand) = (OpCode.neg, dest ∷ operand ∷ [])
instruction (Op.not dest operand) = (OpCode.not, dest ∷ operand ∷ [])
instruction (Op.len dest operand) = (OpCode.len, dest ∷ operand ∷ [])
instruction (Op.b_not dest operand) = (OpCode.b_not, dest ∷ operand ∷ [])
instruction (Op.add dest left right) = (OpCode.add, dest ∷ left ∷ right ∷ [])
instruction (Op.sub dest left right) = (OpCode.sub, dest ∷ left ∷ right ∷ [])
instruction (Op.mul dest left right) = (OpCode.mul, dest ∷ left ∷ right ∷ [])
instruction (Op.div dest left right) = (OpCode.div, dest ∷ left ∷ right ∷ [])
instruction (Op.i_div dest left right) = (OpCode.i_div, dest ∷ left ∷ right ∷ [])
instruction (Op.modulo dest left right) = (OpCode.modulo, dest ∷ left ∷ right ∷ [])
instruction (Op.pow dest left right) = (OpCode.pow, dest ∷ left ∷ right ∷ [])
instruction (Op.concat dest left right) = (OpCode.concat, dest ∷ left ∷ right ∷ [])
instruction (Op.eq dest left right) = (OpCode.eq, dest ∷ left ∷ right ∷ [])
instruction (Op.ne dest left right) = (OpCode.ne, dest ∷ left ∷ right ∷ [])
instruction (Op.lt dest left right) = (OpCode.lt, dest ∷ left ∷ right ∷ [])
instruction (Op.le dest left right) = (OpCode.le, dest ∷ left ∷ right ∷ [])
instruction (Op.gt dest left right) = (OpCode.gt, dest ∷ left ∷ right ∷ [])
instruction (Op.ge dest left right) = (OpCode.ge, dest ∷ left ∷ right ∷ [])
instruction (Op.b_and dest left right) = (OpCode.b_and, dest ∷ left ∷ right ∷ [])
instruction (Op.b_or dest left right) = (OpCode.b_or, dest ∷ left ∷ right ∷ [])
instruction (Op.b_xor dest left right) = (OpCode.b_xor, dest ∷ left ∷ right ∷ [])
instruction (Op.shl dest left right) = (OpCode.shl, dest ∷ left ∷ right ∷ [])
instruction (Op.shr dest left right) = (OpCode.shr, dest ∷ left ∷ right ∷ [])
instruction (Op.call callee args results) = (OpCode.call, callee ∷ args ∷ results ∷ [])
instruction (Op.tail_call callee args) = (OpCode.tail_call, callee ∷ args ∷ [])
instruction (Op.return first count) = (OpCode.return, first ∷ count ∷ [])
instruction (Op.jump offset) = (OpCode.jump, to_word (2 ^ 32) offset ∷ [])
instruction (Op.jump_if_true cond offset) =
    (OpCode.jump_if_true, cond ∷ to_word (2 ^ 32) offset ∷ [])
instruction (Op.jump_if_false cond offset) =
    (OpCode.jump_if_false, cond ∷ to_word (2 ^ 32) offset ∷ [])
instruction (Op.for_prep control offset) = (OpCode.for_prep, control ∷ to_word (2 ^ 32) offset ∷ [])
instruction (Op.for_loop control offset) = (OpCode.for_loop, control ∷ to_word (2 ^ 32) offset ∷ [])

-- `self.lines.last()`, as the line it holds.
unfoldable pub last_line : List (ℕ × ℕ) → Option ℕ
last_line [] = none
last_line ((at, line) ∷ []) = some line
last_line (entry ∷ next ∷ rest) = last_line (next ∷ rest)

unfoldable pub is_line : Option ℕ → ℕ → Bool
is_line none line = false
is_line (some held) line = held == line

-- `Encoder::emit`
unfoldable pub emit : Encoder → Op → ℕ → Encoder × ℕ
unfolding pc last_line is_line instruction written
emit enc op line =
    let at = pc enc in
    let lines =
      if is_line (last_line enc.lines) line then enc.lines else enc.lines ++ ((at, line) ∷ []) in
    let (code, raws) = instruction op in
    (record { code = enc.code ++ written code raws; lines = lines }, at)

-- `i32::try_from`
unfoldable pub try_i32 : ℤ → Option ℤ
try_i32 (pos n) = if ltb n (2 ^ 31) then some (pos n) else none
try_i32 (negsuc n) = if ltb n (2 ^ 31) then some (negsuc n) else none

-- `code[slot..slot + 4].copy_from_slice(bytes)` for four bytes; out of range it panics.
unfoldable pub splice : List ℕ → ℕ → List ℕ → Option (List ℕ)
splice code slot bytes =
    if leb (slot + length bytes) (length code)
    then some (take slot code ++ (bytes ++ drop (slot + length bytes) code))
    else none

-- `Encoder::patch_jump`
unfoldable pub patch_jump : Encoder → ℕ → ℕ → Outcome (Unit {0}) Encoder
patch_jump enc at target = do
  byte ← expect (get_elem? enc.code at)
  len ← expect (instruction_len byte)
  next ← expect (checked (2 ^ 32) (at + len))
  offset ← expect (try_i32 (sub_ℕ target next))
  code ← expect (splice enc.code (next - 4) (to_le_bytes (to_word (2 ^ 32) offset)))
  ok (record enc { code = code })
