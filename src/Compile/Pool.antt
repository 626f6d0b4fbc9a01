-- ===== src/Compile/Pool.antt =====
-- The constants of one prototype: crates/ruta-compile/src/emit/pool.rs.
pub mod Places
use ruta.Prelude.{
  ℕ, zero, suc, ◌+◌, ◌-◌, ◌%◌, ◌^◌, ◌==◌, Bool, true, false, same_bytes, if◌then◌else◌, Option,
  none, some, List, [], ◌∷◌, ◌++◌, length, Outcome, ok, err, panic, ◌>>=◌,
}
use ruta.Prelude.Int.{ℤ, eqb_ℤ}
use ruta.Bytecode.Prototype as Code
use ruta.Bytecode.Prototype.{Constant}

pub data Const : Type 0 where
  nil : Const
  bool : Bool → Const
  int : ℤ → Const
  float : ℕ → Const
  str : List ℕ → Const

pub record Pool : Type 0 where
  pub constants : List Constant

-- `same`; a float is its bits.
unfoldable pub same : Constant → Constant → Bool
unfolding same_bytes
same (Code.int held) (Code.int wanted) = eqb_ℤ held wanted
same (Code.float held) (Code.float wanted) = held == wanted
same (Code.str held) (Code.str wanted) = same_bytes held wanted
same _ _ = false

-- `position` of the iterator over what is held.
unfoldable pub position : List Constant → Constant → Option ℕ
unfolding same
position [] wanted = none
position (held ∷ rest) wanted =
    let later = position rest wanted in
    if same held wanted then some 0 else elim later [ none ↦ none | some at ↦ some (suc at) ]

-- The constant that the pool holds for a value.
abbrev pub wanted_of : Const → Outcome ⊥ Constant
wanted_of (int value) = ok (Code.int value)
wanted_of (float value) = ok (Code.float value)
wanted_of (str value) = ok (Code.str value)
wanted_of _ = panic

-- The index of a constant that is held, or of a new one at the end.
abbrev pub placed : Pool → Constant → Option ℕ → Outcome ⊥ (ℕ × Pool)
placed pool wanted (some at) = ok (at % 2 ^ 32, pool)
placed pool wanted none =
    let constants = pool.constants ++ (wanted ∷ []) in
    ok ((length constants % 2 ^ 32 + (2 ^ 32 - 1)) % 2 ^ 32, record { constants = constants })

-- `Pool::intern`
unfoldable pub intern : Pool → Const → Outcome ⊥ (ℕ × Pool)
unfolding position
intern pool value =
    wanted_of value >>= λ wanted. placed pool wanted (position pool.constants wanted)

-- `Pool::finish`
abbrev pub finish : Pool → List Constant
finish pool = pool.constants
