-- ===== src/Prelude/Returns.antt =====
-- What a Rust function answers: a value, an error it returns, or a panic.
use Prim.Native.Nat.{ℕ}
use mathlib.Core.Option.{Option, none, some}
use ruta.Prelude.Tests.{ltb, if◌then◌else◌}

pub data Outcome {ℓ κ} (E : Type κ) (A : Type ℓ) : Type (ℓ ⊔ κ) where
  ok : A → Outcome E A
  err : E → Outcome E A
  panic : Outcome E A

infixl 5 ◌>>=◌
abbrev pub ◌>>=◌ {ℓ κ μ} :
    {E : Type κ} {A : Type ℓ} {B : Type μ} → Outcome E A → (A → Outcome E B) → Outcome E B
ok a >>= f = f a
err e >>= f = err e
panic >>= f = panic

-- `Option::ok_or`.
abbrev pub ok_or {ℓ κ} : {E : Type κ} {A : Type ℓ} → Option A → E → Outcome E A
ok_or none e = err e
ok_or (some a) e = ok a

-- `Option::expect`, and an index or a slice that must be in range.
abbrev pub expect {ℓ κ} : {E : Type κ} {A : Type ℓ} → Option A → Outcome E A
expect none = panic
expect (some a) = ok a

-- A sum in a machine word of which `limit` is the first number out of range: there it overflows, and
-- panics where it is expected.
abbrev pub checked : ℕ → ℕ → Option ℕ
checked limit sum = if ltb sum limit then some sum else none
