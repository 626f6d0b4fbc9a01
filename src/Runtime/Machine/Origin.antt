-- ===== src/Runtime/Machine/Origin.antt =====
-- Where the value in a register came from: crates/ruta-runtime/src/vm/origin.rs.
-- `Code::of` is in Bytecode/Walk.
use ruta.Prelude.{
  ℕ, ◌+◌, Bool, false, ◌&&◌, ◌||◌, ltb, leb, ◌==◌, if◌then◌else◌, Option, none, some, List, [], ◌∷◌,
  ◌++◌,
}
use Prim.Native.String.{String}
use ruta.Bytecode.Op.{Op}
use ruta.Bytecode.OpCode.{multi}
use ruta.Bytecode.Walk.{Code}
use ruta.Syntax.Text.{codes}

pub data Origin : Type 0 where
  local upvalue constant global field method : List ℕ → Origin

-- `parts`
unfoldable parts : Origin → String × List ℕ
parts (local text) = ("local", text)
parts (upvalue text) = ("upvalue", text)
parts (constant text) = ("constant", text)
parts (global text) = ("global", text)
parts (field text) = ("field", text)
parts (method text) = ("method", text)

-- `render`
unfoldable pub render : Origin → List ℕ
unfolding parts
render found = let (kind, text) = parts found in codes kind ++ (codes " '" ++ (text ++ codes "'"))

-- `name`
unfoldable pub name_of : Origin → List ℕ
unfolding parts
name_of found = (parts found).1

-- `clause`
unfoldable pub clause : Option (List ℕ) → List ℕ
clause none = []
clause (some text) = codes " (" ++ (text ++ codes ")")

-- `reg >= first && reg < first + count`
abbrev pub within : ℕ → ℕ → ℕ → Bool
within first count reg = leb first reg && ltb reg (first + count)

-- `writes`
unfoldable pub writes : Op → ℕ → Bool
writes (Op.load_nil dest) reg = dest == reg
writes (Op.load_true dest) reg = dest == reg
writes (Op.load_false dest) reg = dest == reg
writes (Op.load_const dest _) reg = dest == reg
writes (Op.move dest _) reg = dest == reg
writes (Op.get_upval dest _) reg = dest == reg
writes (Op.closure dest _) reg = dest == reg
writes (Op.new_table dest _ _) reg = dest == reg
writes (Op.index dest _ _) reg = dest == reg
writes (Op.neg dest _) reg = dest == reg
writes (Op.not dest _) reg = dest == reg
writes (Op.len dest _) reg = dest == reg
writes (Op.b_not dest _) reg = dest == reg
writes (Op.add dest _ _) reg = dest == reg
writes (Op.sub dest _ _) reg = dest == reg
writes (Op.mul dest _ _) reg = dest == reg
writes (Op.div dest _ _) reg = dest == reg
writes (Op.i_div dest _ _) reg = dest == reg
writes (Op.modulo dest _ _) reg = dest == reg
writes (Op.pow dest _ _) reg = dest == reg
writes (Op.concat dest _ _) reg = dest == reg
writes (Op.eq dest _ _) reg = dest == reg
writes (Op.ne dest _ _) reg = dest == reg
writes (Op.lt dest _ _) reg = dest == reg
writes (Op.le dest _ _) reg = dest == reg
writes (Op.gt dest _ _) reg = dest == reg
writes (Op.ge dest _ _) reg = dest == reg
writes (Op.b_and dest _ _) reg = dest == reg
writes (Op.b_or dest _ _) reg = dest == reg
writes (Op.b_xor dest _ _) reg = dest == reg
writes (Op.shl dest _ _) reg = dest == reg
writes (Op.shr dest _ _) reg = dest == reg
writes (Op.vararg first count) reg = leb first reg && ((count == multi) || ltb reg (first + count))
writes (Op.call callee _ _) reg = leb callee reg
writes (Op.for_prep control _) reg = within control 4 reg
writes (Op.for_loop control _) reg = within control 4 reg
writes _ _ = false

-- The start of the last instruction that starts before a pc; `take_while` on starts that increase.
unfoldable last_start : List (ℕ × Op) → ℕ → ℕ → ℕ
last_start [] before found = found
last_start ((start, op) ∷ ops) before found =
    let later = last_start ops before start in if ltb start before then later else found

-- `current`
unfoldable pub current : Code → ℕ → ℕ
unfolding last_start
current code pc = last_start code.ops pc 0

-- The last instruction before `at` that writes a register.
unfoldable pub last_writer : List (ℕ × Op) → ℕ → ℕ → Option (ℕ × Op) → Option (ℕ × Op)
unfolding writes
last_writer [] reg at found = found
last_writer ((start, op) ∷ ops) reg at found =
    let later = last_writer ops reg at (if writes op reg then some (start, op) else found) in
    if ltb start at then later else found

-- Whether a jump from before a pc lands after it, at `at` or before.
unfoldable pub jumped_over : List (ℕ × ℕ) → ℕ → ℕ → Bool
jumped_over [] pc at = false
jumped_over ((from, target) ∷ jumps) pc at =
    (ltb from pc && (ltb pc target && leb target at)) || jumped_over jumps pc at

-- `setter`
unfoldable pub setter : Code → ℕ → ℕ → Option (ℕ × Op)
unfolding last_writer jumped_over
setter code reg at = elim (last_writer code.ops reg at none) [
  | none ↦ none
  | some (pc, op) ↦ if jumped_over code.jumps pc at then none else some (pc, op)
]
