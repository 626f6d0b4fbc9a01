-- ===== src/Bytecode/OpCode.antt =====
-- Opcodes and how their operands lie in the byte stream: crates/ruta-bytecode/src/op.rs.
use ruta.Prelude.{ℕ, ◌+◌, List, [], ◌∷◌, Option, none, some, leb, get_elem?, if◌then◌else◌}

-- A count operand for "as many as there are".
abbrev pub multi : ℕ
multi = 255

pub data Operand : Type 0 where
  u8 u16 u32 i32 : Operand

-- `Operand::width`
unfoldable pub width : Operand → ℕ
width u8 = 1
width u16 = 2
width u32 = 4
width i32 = 4

pub data OpCode : Type 0 where
  load_nil load_true load_false load_const load_const_wide move get_upval set_upval : OpCode
  close_upvals closure vararg new_table index set_index define_global set_list : OpCode
  set_list_spread neg not len b_not add sub mul : OpCode
  div i_div modulo pow concat eq ne lt : OpCode
  le gt ge b_and b_or b_xor shl shr : OpCode
  call tail_call return jump jump_if_true jump_if_false for_prep for_loop : OpCode

-- `opcode as u8`: the discriminants.
unfoldable pub byte_of : OpCode → ℕ
byte_of load_nil = 0
byte_of load_true = 1
byte_of load_false = 2
byte_of load_const = 3
byte_of load_const_wide = 4
byte_of move = 5
byte_of get_upval = 6
byte_of set_upval = 7
byte_of close_upvals = 8
byte_of closure = 9
byte_of vararg = 10
byte_of new_table = 11
byte_of index = 12
byte_of set_index = 13
byte_of define_global = 14
byte_of set_list = 15
byte_of set_list_spread = 16
byte_of neg = 17
byte_of not = 18
byte_of len = 19
byte_of b_not = 20
byte_of add = 21
byte_of sub = 22
byte_of mul = 23
byte_of div = 24
byte_of i_div = 25
byte_of modulo = 26
byte_of pow = 27
byte_of concat = 28
byte_of eq = 29
byte_of ne = 30
byte_of lt = 31
byte_of le = 32
byte_of gt = 33
byte_of ge = 34
byte_of b_and = 35
byte_of b_or = 36
byte_of b_xor = 37
byte_of shl = 38
byte_of shr = 39
byte_of call = 40
byte_of tail_call = 41
byte_of return = 42
byte_of jump = 43
byte_of jump_if_true = 44
byte_of jump_if_false = 45
byte_of for_prep = 46
byte_of for_loop = 47

-- `ALL`
unfoldable pub all : List OpCode
all =
    OpCode.load_nil ∷ OpCode.load_true ∷ OpCode.load_false ∷ OpCode.load_const
    ∷ OpCode.load_const_wide ∷ OpCode.move ∷ OpCode.get_upval ∷ OpCode.set_upval
    ∷ OpCode.close_upvals ∷ OpCode.closure ∷ OpCode.vararg ∷ OpCode.new_table ∷ OpCode.index
    ∷ OpCode.set_index ∷ OpCode.define_global ∷ OpCode.set_list ∷ OpCode.set_list_spread
    ∷ OpCode.neg ∷ OpCode.not ∷ OpCode.len ∷ OpCode.b_not ∷ OpCode.add ∷ OpCode.sub ∷ OpCode.mul
    ∷ OpCode.div ∷ OpCode.i_div ∷ OpCode.modulo ∷ OpCode.pow ∷ OpCode.concat ∷ OpCode.eq ∷ OpCode.ne
    ∷ OpCode.lt ∷ OpCode.le ∷ OpCode.gt ∷ OpCode.ge ∷ OpCode.b_and ∷ OpCode.b_or ∷ OpCode.b_xor
    ∷ OpCode.shl ∷ OpCode.shr ∷ OpCode.call ∷ OpCode.tail_call ∷ OpCode.return ∷ OpCode.jump
    ∷ OpCode.jump_if_true ∷ OpCode.jump_if_false ∷ OpCode.for_prep ∷ OpCode.for_loop ∷ []

-- `OpCode::from_byte`; `ALL[byte]` has an entry at every byte that passes the test.
unfoldable pub from_byte : ℕ → Option OpCode
unfolding byte_of all
from_byte byte = if leb byte (byte_of OpCode.for_loop) then get_elem? all byte else none

-- `OpCode::operands`
unfoldable pub operands : OpCode → List Operand
operands load_nil = u8 ∷ []
operands load_true = u8 ∷ []
operands load_false = u8 ∷ []
operands load_const = u8 ∷ u16 ∷ []
operands load_const_wide = u8 ∷ u32 ∷ []
operands move = u8 ∷ u8 ∷ []
operands get_upval = u8 ∷ u8 ∷ []
operands set_upval = u8 ∷ u8 ∷ []
operands close_upvals = u8 ∷ []
operands closure = u8 ∷ u32 ∷ []
operands vararg = u8 ∷ u8 ∷ []
operands new_table = u8 ∷ u32 ∷ u32 ∷ []
operands index = u8 ∷ u8 ∷ u8 ∷ []
operands set_index = u8 ∷ u8 ∷ u8 ∷ []
operands define_global = u8 ∷ u8 ∷ u8 ∷ []
operands set_list = u8 ∷ u8 ∷ u8 ∷ u32 ∷ []
operands set_list_spread = u8 ∷ u8 ∷ u32 ∷ []
operands neg = u8 ∷ u8 ∷ []
operands not = u8 ∷ u8 ∷ []
operands len = u8 ∷ u8 ∷ []
operands b_not = u8 ∷ u8 ∷ []
operands add = u8 ∷ u8 ∷ u8 ∷ []
operands sub = u8 ∷ u8 ∷ u8 ∷ []
operands mul = u8 ∷ u8 ∷ u8 ∷ []
operands div = u8 ∷ u8 ∷ u8 ∷ []
operands i_div = u8 ∷ u8 ∷ u8 ∷ []
operands modulo = u8 ∷ u8 ∷ u8 ∷ []
operands pow = u8 ∷ u8 ∷ u8 ∷ []
operands concat = u8 ∷ u8 ∷ u8 ∷ []
operands eq = u8 ∷ u8 ∷ u8 ∷ []
operands ne = u8 ∷ u8 ∷ u8 ∷ []
operands lt = u8 ∷ u8 ∷ u8 ∷ []
operands le = u8 ∷ u8 ∷ u8 ∷ []
operands gt = u8 ∷ u8 ∷ u8 ∷ []
operands ge = u8 ∷ u8 ∷ u8 ∷ []
operands b_and = u8 ∷ u8 ∷ u8 ∷ []
operands b_or = u8 ∷ u8 ∷ u8 ∷ []
operands b_xor = u8 ∷ u8 ∷ u8 ∷ []
operands shl = u8 ∷ u8 ∷ u8 ∷ []
operands shr = u8 ∷ u8 ∷ u8 ∷ []
operands call = u8 ∷ u8 ∷ u8 ∷ []
operands tail_call = u8 ∷ u8 ∷ []
operands return = u8 ∷ u8 ∷ []
operands jump = i32 ∷ []
operands jump_if_true = u8 ∷ i32 ∷ []
operands jump_if_false = u8 ∷ i32 ∷ []
operands for_prep = u8 ∷ i32 ∷ []
operands for_loop = u8 ∷ i32 ∷ []

unfoldable pub total : List Operand → ℕ
unfolding width
total [] = 0
total (kind ∷ kinds) = width kind + total kinds

-- `instruction_len`
unfoldable pub instruction_len : ℕ → Option ℕ
unfolding from_byte operands total
instruction_len byte = elim (from_byte byte) [
  | none ↦ none
  | some opcode ↦ some (1 + total (operands opcode))
]
