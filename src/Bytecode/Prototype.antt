-- ===== src/Bytecode/Prototype.antt =====
-- Compiled functions: crates/ruta-bytecode/src/prototype.rs, constant.rs and debug.rs.
use ruta.Prelude.{ℕ, List}
use ruta.Prelude.Int.{ℤ}

pub data Constant : Type 0 where
  int : ℤ → Constant
  float : ℕ → Constant
  str : List ℕ → Constant

pub data Vararg : Type 0 where
  no_vararg anonymous table : Vararg

pub data UpvalSource : Type 0 where
  parent_local parent_upval : ℕ → UpvalSource

pub record UpvalDesc : Type 0 where
  pub source : UpvalSource
  pub name : List ℕ

pub record LocalVar : Type 0 where
  pub name : List ℕ
  pub register : ℕ
  pub start_pc : ℕ
  pub end_pc : ℕ

-- What a prototype has beside its constants, its children and its source, which loading changes.
pub record Body : Type 0 where
  pub params : ℕ
  pub vararg : Vararg
  pub max_registers : ℕ
  pub code : List ℕ
  pub upvals : List UpvalDesc
  pub line_defined : ℕ
  pub last_line_defined : ℕ
  pub lines : List (ℕ × ℕ)
  pub locals : List LocalVar

mutual
  pub data Prototype : Type 0 where
    prototype :
        (body : Body) (source : List ℕ) (constants : List Constant) (children : Prototypes)
        → Prototype

  pub data Prototypes : Type 0 where
    no_children : Prototypes
    child : Prototype → Prototypes → Prototypes
