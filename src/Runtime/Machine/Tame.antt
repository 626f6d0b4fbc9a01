-- ===== src/Runtime/Machine/Tame.antt =====
-- What the library does with the frames: crates/ruta-runtime/src/vm/base.rs.
use ruta.Prelude.{
  ℕ, zero, suc, ◌+◌, ◌-◌, refl, ap, ◌==◌, ltb, Bool, true, false, if◌then◌else◌, Option, none, some,
  List, [], ◌∷◌, ◌++◌, length, get_elem?, Outcome, ok, err, panic,
}
use ruta.Runtime.Value.{
  Value, nil, bool, int, float, str, table, func, user_data, thread, type_name, is_truthy, is_nil,
}
use ruta.Runtime.Heap as Heap
use ruta.Runtime.Heap.Strings.{bytes_at}
use ruta.Runtime.Stack as Stack
use ruta.Runtime.Stack.{Stack}
use ruta.Runtime.Table.Access as Access
use ruta.Runtime.Table.Access.{Failure, key_error, invalid_key}
use ruta.Syntax.Text.{codes}
use ruta.Runtime.Machine.{Host, Vm, lift}
use ruta.Runtime.Machine.Text.{of}
use ruta.Runtime.Machine.Raise.{argument_of, bad_argument}
use ruta.Runtime.Machine.Base.{
  push, arg, any, integer, got, or_nil, push_again, assert_error, Native, assert, ipairs, item_of,
  step, next_entry, next_in, next, pairs, line_from, print, select_from, asks_count, select_values,
  select,
}
use ruta.Runtime.Machine.Library.{
  number_of, tonumber, tostring, type_of, functions, at_address, base_functions,
}
use ruta.Runtime.Machine.Ends.{
  Ends, Ends-ok, Ends-err, Ends-panic, Ends-weaken, Ends-then, Ends-after, Ends-lift, throw-Ends,
  bare-Ends,
}
use ruta.Runtime.Machine.Quiet.{intern-Still}
use ruta.Runtime.Machine.Depth.{Level}
use ruta.Runtime.Machine.Bounded.{KeepFrames}

abbrev Tame : Vm → ℕ × Vm → Type 0
Tame vm p = Level vm.stack p.1.stack

if-Ends {ℓ κ} :
    {E : Type κ} {A : Type ℓ} {P : A → Type 0} {o q : Outcome E A} (b : Bool)
    → Ends P o
    → Ends P q
    → Ends P (if b then o else q)
if-Ends true h g = h
if-Ends false h g = g

bad_argument-Ends {ℓ} :
    {A : Type ℓ} (P : A → Type 0) (vm : Vm) (callee index : ℕ) (problem : List ℕ)
    → Ends P (bad_argument {A = A} vm callee index problem)
unfolding bad_argument
bad_argument-Ends P vm callee index problem = Ends-after (lift (Stack.current vm.stack)) (λ frame.
    if-Ends (ltb callee frame.base) (Ends-panic P)
      (Ends-after (lift (argument_of vm callee (callee - frame.base))) (λ name. throw-Ends P vm _)))

push_again-Level :
    (count : ℕ) (vm : Vm) (slot : ℕ)
    → Ends (λ after. Level vm.stack after.stack) (push_again count vm slot)
unfolding push_again
push_again-Level zero vm slot = Ends-ok _ _ refl
push_again-Level (suc count) vm slot =
    Ends-after (Stack.at vm.stack slot) (λ value.
      Ends-weaken _ _ _ (push_again-Level count (push vm value) (slot + 1)) (λ after e. e))

assert_error-Ends : (vm : Vm) (given : Option Value) → Ends (Tame vm) (assert_error vm given)
unfolding assert_error
assert_error-Ends vm none = throw-Ends _ vm (codes "assertion failed!")
assert_error-Ends vm (some (str handle)) =
    Ends-after (lift (bytes_at vm.heap handle)) (λ message. throw-Ends _ vm message)
assert_error-Ends vm (some _) = Ends-err _ _

assert-Tame : (vm : Vm) (callee args : ℕ) → Ends (Tame vm) (assert vm callee args)
unfolding assert
assert-Tame vm callee args = Ends-after (any vm callee args 1) (λ value.
    Ends-after (lift (arg vm callee args 2)) (λ message.
      if-Ends (is_truthy value)
        (Ends-then (Ends-lift (push_again-Level args vm (callee + 1))) (λ after e. Ends-ok _ _ e))
        (assert_error-Ends vm message)))

ipairs-Tame : (vm : Vm) (callee args : ℕ) → Ends (Tame vm) (ipairs vm callee args)
unfolding ipairs
ipairs-Tame vm callee args = Ends-after (any vm callee args 1) (λ value. Ends-ok _ _ refl)

pairs-Tame : (vm : Vm) (callee args : ℕ) → Ends (Tame vm) (pairs vm callee args)
unfolding pairs
pairs-Tame vm callee args = Ends-after (any vm callee args 1) (λ value. Ends-ok _ _ refl)

step-Tame : (host : Host) (vm : Vm) (callee args : ℕ) → Ends (Tame vm) (step host vm callee args)
unfolding step
step-Tame host vm callee args = Ends-after (lift (arg vm callee args 1)) (λ given.
    Ends-after (integer host vm callee args 2) (λ before.
      Ends-after (item_of vm (or_nil given) _)
        (λ value. if-Ends (is_nil value) (Ends-ok _ _ refl) (Ends-ok _ _ refl))))

next_entry-Tame :
    (vm : Vm) (o : Outcome Failure (Option (Value × Value))) → Ends (Tame vm) (next_entry vm o)
unfolding next_entry
next_entry-Tame vm (ok none) = Ends-ok _ _ refl
next_entry-Tame vm (ok (some (key, value))) = Ends-ok _ _ refl
next_entry-Tame vm (err Access.endless) = Ends-err _ _
next_entry-Tame vm (err (key_error e)) = bare-Ends _ vm (codes "invalid key to 'next'")
next_entry-Tame vm (err invalid_key) = bare-Ends _ vm (codes "invalid key to 'next'")
next_entry-Tame vm panic = Ends-panic _

next_in-Tame :
    (vm : Vm) (callee : ℕ) (given : Option Value) (key : Value)
    → Ends (Tame vm) (next_in vm callee given key)
unfolding next_in
next_in-Tame vm callee (some (table handle)) key =
    Ends-after (lift (Heap.table vm.heap handle)) (λ body. next_entry-Tame vm _)
next_in-Tame vm callee none key =
    bad_argument-Ends _ vm callee 1 (codes "table expected, got " ++ got none)
next_in-Tame vm callee (some nil) key =
    bad_argument-Ends _ vm callee 1 (codes "table expected, got " ++ got (some nil))
next_in-Tame vm callee (some (bool b)) key =
    bad_argument-Ends _ vm callee 1 (codes "table expected, got " ++ got (some (bool b)))
next_in-Tame vm callee (some (int n)) key =
    bad_argument-Ends _ vm callee 1 (codes "table expected, got " ++ got (some (int n)))
next_in-Tame vm callee (some (float n)) key =
    bad_argument-Ends _ vm callee 1 (codes "table expected, got " ++ got (some (float n)))
next_in-Tame vm callee (some (str n)) key =
    bad_argument-Ends _ vm callee 1 (codes "table expected, got " ++ got (some (str n)))
next_in-Tame vm callee (some (func n)) key =
    bad_argument-Ends _ vm callee 1 (codes "table expected, got " ++ got (some (func n)))
next_in-Tame vm callee (some (user_data n)) key =
    bad_argument-Ends _ vm callee 1 (codes "table expected, got " ++ got (some (user_data n)))
next_in-Tame vm callee (some (thread n)) key =
    bad_argument-Ends _ vm callee 1 (codes "table expected, got " ++ got (some (thread n)))

next-Tame : (vm : Vm) (callee args : ℕ) → Ends (Tame vm) (next vm callee args)
unfolding next
next-Tame vm callee args = Ends-after (lift (arg vm callee args 1)) (λ given.
    Ends-after (lift (arg vm callee args 2)) (λ key. next_in-Tame vm callee given (or_nil key)))

print-Tame : (host : Host) (vm : Vm) (callee args : ℕ) → Ends (Tame vm) (print host vm callee args)
unfolding print
print-Tame host vm callee args =
    Ends-after (lift (line_from args host vm (callee + 1))) (λ line. Ends-ok _ _ refl)

select_values-Tame :
    (host : Host) (vm : Vm) (callee args : ℕ) → Ends (Tame vm) (select_values host vm callee args)
unfolding select_values
select_values-Tame host vm callee args = Ends-after (integer host vm callee args 1) (λ asked.
    let from = select_from asked args in
    if-Ends (from == 0) (bad_argument-Ends _ vm callee 1 (codes "index out of range")) (
      Ends-then (Ends-lift (push_again-Level (args - from) vm (callee + from + 1)))
        (λ after e. Ends-ok _ _ e)))

select-Tame :
    (host : Host) (vm : Vm) (callee args : ℕ) → Ends (Tame vm) (select host vm callee args)
unfolding select
select-Tame host vm callee args = Ends-after (lift (arg vm callee args 1)) (λ given.
    Ends-after (lift (asks_count vm given))
      (λ counts. if-Ends counts (Ends-ok _ _ refl) (select_values-Tame host vm callee args)))

tonumber-Tame :
    (host : Host) (vm : Vm) (callee args : ℕ) → Ends (Tame vm) (tonumber host vm callee args)
unfolding tonumber
tonumber-Tame host vm callee args =
    Ends-after (lift (arg vm callee args 2))
      (λ given. Ends-after (number_of host vm callee args given) (λ number. Ends-ok _ _ refl))

tostring-Tame :
    (host : Host) (vm : Vm) (callee args : ℕ) → Ends (Tame vm) (tostring host vm callee args)
unfolding tostring
tostring-Tame host vm callee args = Ends-after (any vm callee args 1) (λ value.
    Ends-after (lift (of host vm.heap value)) (λ shown.
      Ends-then (Ends-lift (intern-Still vm shown))
        (λ p e. Ends-ok _ _ (ap (λ (s : Stack). length s.frames) e))))

type_of-Tame : (vm : Vm) (callee args : ℕ) → Ends (Tame vm) (type_of vm callee args)
unfolding type_of
type_of-Tame vm callee args = Ends-after (any vm callee args 1) (λ value.
    Ends-then (Ends-lift (intern-Still vm (codes (type_name value))))
      (λ p e. Ends-ok _ _ (ap (λ (s : Stack). length s.frames) e)))

-- Every function of a list.
abbrev AllTame : List Native → Type 0
AllTame [] = Unit
AllTame (native ∷ natives) =
    ((vm : Vm) (callee args : ℕ) → Ends (Tame vm) (native vm callee args)) × AllTame natives

at_address-Tame :
    (natives : List Native) (address : ℕ) (vm : Vm) (callee args : ℕ)
    → AllTame natives
    → Ends (Tame vm) (at_address (get_elem? natives address) vm callee args)
at_address-Tame [] address vm callee args h = Ends-panic _
at_address-Tame (native ∷ natives) zero vm callee args h = h.0 vm callee args
at_address-Tame (native ∷ natives) (suc address) vm callee args h =
    at_address-Tame natives address vm callee args h.1

-- Every function of the library, where it answers, leaves as many frames as it found.
pub base_functions-KeepFrames : (host : Host) → KeepFrames (base_functions host)
unfolding base_functions functions
base_functions-KeepFrames host address vm callee args =
    at_address-Tame (functions host) address vm callee args (
      next-Tame,
      (
        step-Tame host,
        (
          assert-Tame,
          (
            ipairs-Tame,
            (
              pairs-Tame,
              (
                print-Tame host,
                (select-Tame host, (tonumber-Tame host, (tostring-Tame host, (type_of-Tame, tt)))),
              ),
            ),
          ),
        ),
      ),
    )
