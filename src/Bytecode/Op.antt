-- ===== src/Bytecode/Op.antt =====
-- One decoded instruction: `Op` of crates/ruta-bytecode/src/op.rs.
-- A `u8` or a `u32` is a native ℕ, with its range in the predicate `IsOp`; an `i32` is a ℤ.
use ruta.Prelude.{ℕ, ◌^◌, ◌<◌}
use ruta.Prelude.Int.{ℤ, IsSigned}
use ruta.Bytecode.OpCode.{OpCode}

pub data Op : Type 0 where
  load_nil : (dest : ℕ) → Op
  load_true : (dest : ℕ) → Op
  load_false : (dest : ℕ) → Op
  load_const : (dest : ℕ) → (constant : ℕ) → Op
  move : (dest : ℕ) → (src : ℕ) → Op
  get_upval : (dest : ℕ) → (index : ℕ) → Op
  set_upval : (index : ℕ) → (src : ℕ) → Op
  close_upvals : (from : ℕ) → Op
  closure : (dest : ℕ) → (child : ℕ) → Op
  vararg : (first : ℕ) → (count : ℕ) → Op
  new_table : (dest : ℕ) → (array_hint : ℕ) → (hash_hint : ℕ) → Op
  index : (dest : ℕ) → (object : ℕ) → (key : ℕ) → Op
  set_index : (object : ℕ) → (key : ℕ) → (src : ℕ) → Op
  define_global : (env : ℕ) → (key : ℕ) → (src : ℕ) → Op
  set_list : (table : ℕ) → (first : ℕ) → (count : ℕ) → (first_index : ℕ) → Op
  set_list_spread : (table : ℕ) → (first : ℕ) → (first_index : ℕ) → Op
  neg : (dest : ℕ) → (operand : ℕ) → Op
  not : (dest : ℕ) → (operand : ℕ) → Op
  len : (dest : ℕ) → (operand : ℕ) → Op
  b_not : (dest : ℕ) → (operand : ℕ) → Op
  add : (dest : ℕ) → (left : ℕ) → (right : ℕ) → Op
  sub : (dest : ℕ) → (left : ℕ) → (right : ℕ) → Op
  mul : (dest : ℕ) → (left : ℕ) → (right : ℕ) → Op
  div : (dest : ℕ) → (left : ℕ) → (right : ℕ) → Op
  i_div : (dest : ℕ) → (left : ℕ) → (right : ℕ) → Op
  modulo : (dest : ℕ) → (left : ℕ) → (right : ℕ) → Op
  pow : (dest : ℕ) → (left : ℕ) → (right : ℕ) → Op
  concat : (dest : ℕ) → (left : ℕ) → (right : ℕ) → Op
  eq : (dest : ℕ) → (left : ℕ) → (right : ℕ) → Op
  ne : (dest : ℕ) → (left : ℕ) → (right : ℕ) → Op
  lt : (dest : ℕ) → (left : ℕ) → (right : ℕ) → Op
  le : (dest : ℕ) → (left : ℕ) → (right : ℕ) → Op
  gt : (dest : ℕ) → (left : ℕ) → (right : ℕ) → Op
  ge : (dest : ℕ) → (left : ℕ) → (right : ℕ) → Op
  b_and : (dest : ℕ) → (left : ℕ) → (right : ℕ) → Op
  b_or : (dest : ℕ) → (left : ℕ) → (right : ℕ) → Op
  b_xor : (dest : ℕ) → (left : ℕ) → (right : ℕ) → Op
  shl : (dest : ℕ) → (left : ℕ) → (right : ℕ) → Op
  shr : (dest : ℕ) → (left : ℕ) → (right : ℕ) → Op
  call : (callee : ℕ) → (args : ℕ) → (results : ℕ) → Op
  tail_call : (callee : ℕ) → (args : ℕ) → Op
  return : (first : ℕ) → (count : ℕ) → Op
  jump : (offset : ℤ) → Op
  jump_if_true : (cond : ℕ) → (offset : ℤ) → Op
  jump_if_false : (cond : ℕ) → (offset : ℤ) → Op
  for_prep : (control : ℕ) → (offset : ℤ) → Op
  for_loop : (control : ℕ) → (offset : ℤ) → Op

-- `Op::opcode`
unfoldable pub opcode : Op → OpCode
opcode (load_nil _) = OpCode.load_nil
opcode (load_true _) = OpCode.load_true
opcode (load_false _) = OpCode.load_false
opcode (load_const _ _) = OpCode.load_const
opcode (move _ _) = OpCode.move
opcode (get_upval _ _) = OpCode.get_upval
opcode (set_upval _ _) = OpCode.set_upval
opcode (close_upvals _) = OpCode.close_upvals
opcode (closure _ _) = OpCode.closure
opcode (vararg _ _) = OpCode.vararg
opcode (new_table _ _ _) = OpCode.new_table
opcode (index _ _ _) = OpCode.index
opcode (set_index _ _ _) = OpCode.set_index
opcode (define_global _ _ _) = OpCode.define_global
opcode (set_list _ _ _ _) = OpCode.set_list
opcode (set_list_spread _ _ _) = OpCode.set_list_spread
opcode (neg _ _) = OpCode.neg
opcode (not _ _) = OpCode.not
opcode (len _ _) = OpCode.len
opcode (b_not _ _) = OpCode.b_not
opcode (add _ _ _) = OpCode.add
opcode (sub _ _ _) = OpCode.sub
opcode (mul _ _ _) = OpCode.mul
opcode (div _ _ _) = OpCode.div
opcode (i_div _ _ _) = OpCode.i_div
opcode (modulo _ _ _) = OpCode.modulo
opcode (pow _ _ _) = OpCode.pow
opcode (concat _ _ _) = OpCode.concat
opcode (eq _ _ _) = OpCode.eq
opcode (ne _ _ _) = OpCode.ne
opcode (lt _ _ _) = OpCode.lt
opcode (le _ _ _) = OpCode.le
opcode (gt _ _ _) = OpCode.gt
opcode (ge _ _ _) = OpCode.ge
opcode (b_and _ _ _) = OpCode.b_and
opcode (b_or _ _ _) = OpCode.b_or
opcode (b_xor _ _ _) = OpCode.b_xor
opcode (shl _ _ _) = OpCode.shl
opcode (shr _ _ _) = OpCode.shr
opcode (call _ _ _) = OpCode.call
opcode (tail_call _ _) = OpCode.tail_call
opcode (return _ _) = OpCode.return
opcode (jump _) = OpCode.jump
opcode (jump_if_true _ _) = OpCode.jump_if_true
opcode (jump_if_false _ _) = OpCode.jump_if_false
opcode (for_prep _ _) = OpCode.for_prep
opcode (for_loop _ _) = OpCode.for_loop

-- The operands of an instruction lie in the ranges of their Rust types.
abbrev pub IsOp : Op → Type 0
IsOp (load_nil dest) = (dest < 256)
IsOp (load_true dest) = (dest < 256)
IsOp (load_false dest) = (dest < 256)
IsOp (load_const dest constant) = (dest < 256) × (constant < 2 ^ 32)
IsOp (move dest src) = (dest < 256) × (src < 256)
IsOp (get_upval dest slot) = (dest < 256) × (slot < 256)
IsOp (set_upval slot src) = (slot < 256) × (src < 256)
IsOp (close_upvals from) = (from < 256)
IsOp (closure dest child) = (dest < 256) × (child < 2 ^ 32)
IsOp (vararg first count) = (first < 256) × (count < 256)
IsOp (new_table dest array_hint hash_hint) =
    (dest < 256) × (array_hint < 2 ^ 32) × (hash_hint < 2 ^ 32)
IsOp (index dest object key) = (dest < 256) × (object < 256) × (key < 256)
IsOp (set_index object key src) = (object < 256) × (key < 256) × (src < 256)
IsOp (define_global env key src) = (env < 256) × (key < 256) × (src < 256)
IsOp (set_list table first count first_index) =
    (table < 256) × (first < 256) × (count < 256) × (first_index < 2 ^ 32)
IsOp (set_list_spread table first first_index) =
    (table < 256) × (first < 256) × (first_index < 2 ^ 32)
IsOp (neg dest operand) = (dest < 256) × (operand < 256)
IsOp (not dest operand) = (dest < 256) × (operand < 256)
IsOp (len dest operand) = (dest < 256) × (operand < 256)
IsOp (b_not dest operand) = (dest < 256) × (operand < 256)
IsOp (add dest left right) = (dest < 256) × (left < 256) × (right < 256)
IsOp (sub dest left right) = (dest < 256) × (left < 256) × (right < 256)
IsOp (mul dest left right) = (dest < 256) × (left < 256) × (right < 256)
IsOp (div dest left right) = (dest < 256) × (left < 256) × (right < 256)
IsOp (i_div dest left right) = (dest < 256) × (left < 256) × (right < 256)
IsOp (modulo dest left right) = (dest < 256) × (left < 256) × (right < 256)
IsOp (pow dest left right) = (dest < 256) × (left < 256) × (right < 256)
IsOp (concat dest left right) = (dest < 256) × (left < 256) × (right < 256)
IsOp (eq dest left right) = (dest < 256) × (left < 256) × (right < 256)
IsOp (ne dest left right) = (dest < 256) × (left < 256) × (right < 256)
IsOp (lt dest left right) = (dest < 256) × (left < 256) × (right < 256)
IsOp (le dest left right) = (dest < 256) × (left < 256) × (right < 256)
IsOp (gt dest left right) = (dest < 256) × (left < 256) × (right < 256)
IsOp (ge dest left right) = (dest < 256) × (left < 256) × (right < 256)
IsOp (b_and dest left right) = (dest < 256) × (left < 256) × (right < 256)
IsOp (b_or dest left right) = (dest < 256) × (left < 256) × (right < 256)
IsOp (b_xor dest left right) = (dest < 256) × (left < 256) × (right < 256)
IsOp (shl dest left right) = (dest < 256) × (left < 256) × (right < 256)
IsOp (shr dest left right) = (dest < 256) × (left < 256) × (right < 256)
IsOp (call callee args results) = (callee < 256) × (args < 256) × (results < 256)
IsOp (tail_call callee args) = (callee < 256) × (args < 256)
IsOp (return first count) = (first < 256) × (count < 256)
IsOp (jump offset) = IsSigned (2 ^ 31) offset
IsOp (jump_if_true cond offset) = (cond < 256) × IsSigned (2 ^ 31) offset
IsOp (jump_if_false cond offset) = (cond < 256) × IsSigned (2 ^ 31) offset
IsOp (for_prep control offset) = (control < 256) × IsSigned (2 ^ 31) offset
IsOp (for_loop control offset) = (control < 256) × IsSigned (2 ^ 31) offset
