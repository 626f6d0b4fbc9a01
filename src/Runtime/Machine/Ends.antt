-- ===== src/Runtime/Machine/Ends.antt =====
-- What holds of an answer where there is one: errors and panics are let through.
use Prim.Native.String.{String}
use ruta.Prelude.{ℕ, ◌≡◌, ap, subst, refl, Outcome, ok, err, panic, ◌>>=◌, List, ◌++◌}
use ruta.Runtime.Value.{Value, type_name}
use ruta.Syntax.Text.{codes, decimal}
use ruta.Runtime.Machine.Origin.{clause}
use ruta.Runtime.Machine.{Vm, lift, source, line, intern}
use ruta.Runtime.Machine.Raise as Raise
use ruta.Runtime.Machine.Text.{chunk}
use ruta.Runtime.Machine.Trace.{operand_name}

pub record Ends {ℓ κ} {E : Type κ} {A : Type ℓ} (P : A → Type 0) (o : Outcome E A)
    : Type (ℓ ⊔ κ) where
  pub holds : (a : A) → o ≡ ok a → P a

module _ {ℓ κ} {E : Type κ} {A : Type ℓ} where
  abbrev value_in : A → Outcome E A → A
  value_in otherwise (ok a) = a
  value_in otherwise _ = otherwise

  pub Ends-ok : (P : A → Type 0) (a : A) → P a → Ends {E = E} P (ok a)
  Ends-ok P a p = record { holds = λ b e. subst P (ap (value_in a) e) p }

  pub Ends-err : (P : A → Type 0) (x : E) → Ends {E = E} P (err x)
  Ends-err P x = record { holds = λ b e. (let f : ⊥ = cc in absurd f) }

  pub Ends-panic : (P : A → Type 0) → Ends {E = E} P panic
  Ends-panic P = record { holds = λ b e. (let f : ⊥ = cc in absurd f) }

  pub Ends-any : (o : Outcome E A) → Ends (λ a. Unit) o
  Ends-any o = record { holds = λ a e. tt }

  pub Ends-weaken :
      (P Q : A → Type 0) (o : Outcome E A) → Ends Q o → ((a : A) → Q a → P a) → Ends P o
  Ends-weaken P Q o q h = record { holds = λ a e. h a (q.holds a e) }

pub Ends-then {ℓ κ μ} :
    {E : Type κ} {A : Type ℓ} {B : Type μ} {P : B → Type 0} {Q : A → Type 0} {o : Outcome E A}
    {f : A → Outcome E B}
    → Ends Q o
    → ((a : A) → Q a → Ends P (f a))
    → Ends P (o >>= f)
Ends-then {P = P} {Q = Q} {o = ok a} {f = f} q h = h a (q.holds a refl)
Ends-then {P = P} {Q = Q} {o = err e} {f = f} q h = Ends-err P e
Ends-then {P = P} {Q = Q} {o = panic} {f = f} q h = Ends-panic P

-- Whatever the first part answers.
pub Ends-after {ℓ κ μ} :
    {E : Type κ} {A : Type ℓ} {B : Type μ} {P : B → Type 0} (o : Outcome E A) {f : A → Outcome E B}
    → ((a : A) → Ends P (f a))
    → Ends P (o >>= f)
Ends-after o h = Ends-then (Ends-any o) (λ a u. h a)

pub Ends-lift {ℓ} : {A : Type ℓ} {P : A → Type 0} {o : Outcome ⊥ A} → Ends P o → Ends P (lift o)
Ends-lift {P = P} {o = ok a} h = Ends-ok P a (h.holds a refl)
Ends-lift {P = P} {o = err e} h = Ends-panic P
Ends-lift {P = P} {o = panic} h = Ends-panic P

-- What raises an error answers nothing.
pub bare-Ends {ℓ} :
    {A : Type ℓ} (P : A → Type 0) (vm : Vm) (message : List ℕ)
    → Ends P (Raise.bare {A = A} vm message)
unfolding Raise.bare
bare-Ends P vm message = Ends-after (lift (intern vm message)) (λ p. Ends-err P _)

pub throw-Ends {ℓ} :
    {A : Type ℓ} (P : A → Type 0) (vm : Vm) (message : List ℕ)
    → Ends P (Raise.throw {A = A} vm message)
unfolding Raise.throw
throw-Ends P vm message = Ends-after (lift (source vm)) (λ name.
    Ends-after (lift (chunk name)) (λ shown.
      Ends-after (lift (line vm))
        (λ at. bare-Ends P vm (shown ++ (codes ":" ++ (decimal at ++ (codes ": " ++ message)))))))

pub fault-Ends {ℓ} :
    {A : Type ℓ} (P : A → Type 0) (vm : Vm) (what : String) (value : Value) (reg : ℕ)
    → Ends P (Raise.fault {A = A} vm what value reg)
unfolding Raise.fault
fault-Ends P vm what value reg = Ends-after (lift (operand_name vm reg)) (λ found. throw-Ends P vm (
    codes "attempt to "
    ++ (codes what
        ++ (codes " a " ++ (codes (type_name value) ++ (codes " value" ++ clause found))))))
