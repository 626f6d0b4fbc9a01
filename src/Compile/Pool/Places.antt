-- ===== src/Compile/Pool/Places.antt =====
-- Where the pool keeps a constant: crates/ruta-compile/src/emit/pool.rs.
use ruta.Prelude.{
  ℕ, zero, suc, ◌+◌, ◌-◌, ◌%◌, ◌^◌, ◌<◌, ◌≡◌, ◌⊎◌, inl, inr, refl, sym, ap, subst, ◌∙◌, arith, true,
  false, Bool-cases, Option-cases, same_bytes_iff, Option, none, some, List, [], ◌∷◌, ◌++◌, length,
  length-append, take, take-append, get_elem?, get_elem?-some, get_elem?-here, ok, ◌>>=◌,
}
use ruta.Prelude.Int.{eqb_iff}
use ruta.Bytecode.Prototype as Code
use ruta.Bytecode.Prototype.{Constant}
use ruta.Compile.Pool.{Const, Pool, same, position, wanted_of, placed, intern}

same_iff :
    (held wanted : Constant)
    → (same held wanted ≡ true → held ≡ wanted) × (held ≡ wanted → same held wanted ≡ true)
unfolding same
same_iff (Code.int a) (Code.int b) =
    (λ e. ap (λ n. Code.int n) ((eqb_iff a b).0 e), λ e. (eqb_iff a b).1 cc)
same_iff (Code.float a) (Code.float b) =
    (λ e. ap (λ n. Code.float n) (ground (arith, e)), λ e. let s : a ≡ b = cc in ground (arith, s))
same_iff (Code.str a) (Code.str b) =
    (λ e. ap (λ n. Code.str n) ((same_bytes_iff a b).0 e), λ e. (same_bytes_iff a b).1 cc)
same_iff (Code.int a) (Code.float b) = (λ e. absurd cc, λ e. absurd cc)
same_iff (Code.int a) (Code.str b) = (λ e. absurd cc, λ e. absurd cc)
same_iff (Code.float a) (Code.int b) = (λ e. absurd cc, λ e. absurd cc)
same_iff (Code.float a) (Code.str b) = (λ e. absurd cc, λ e. absurd cc)
same_iff (Code.str a) (Code.int b) = (λ e. absurd cc, λ e. absurd cc)
same_iff (Code.str a) (Code.float b) = (λ e. absurd cc, λ e. absurd cc)

-- No two places hold the same constant.
abbrev pub IsPool : List Constant → Type 0
IsPool constants =
    (i j : ℕ) (constant : Constant)
    → get_elem? constants i ≡ some constant
    → get_elem? constants j ≡ some constant
    → i ≡ j

abbrev Found : List Constant → Constant → Option ℕ → Type 0
Found constants wanted (some at) = get_elem? constants at ≡ some wanted
Found constants wanted none = (i : ℕ) → get_elem? constants i ≡ some wanted → ⊥

not_here :
    (held wanted : Constant) (rest : List Constant) (i : ℕ)
    → get_elem? (held ∷ rest) i ≡ some wanted
    → Found rest wanted none
    → same held wanted ≡ false
    → ⊥
not_here held wanted rest zero e f t =
    let one : held ≡ wanted = cc in
    let yes : same held wanted ≡ true = (same_iff held wanted).1 one in cc
not_here held wanted rest (suc i) e f t = f i e

Found-later :
    (held wanted : Constant) (rest : List Constant) (found : Option ℕ)
    → Found rest wanted found
    → same held wanted ≡ false
    → Found (held ∷ rest) wanted (elim found [ none ↦ none | some at ↦ some (suc at) ])
Found-later held wanted rest (some at) f t = f
Found-later held wanted rest none f t = λ i e. not_here held wanted rest i e f t

position-Found :
    (constants : List Constant) (wanted : Constant)
    → Found constants wanted (position constants wanted)
unfolding position
position-Found [] wanted = λ i e. cc
position-Found (held ∷ rest) wanted = elim (Bool-cases (same held wanted)) [
  | inl t ↦ rw (t, position) (ap (λ c. some c) ((same_iff held wanted).0 t))
  | inr t ↦
      rw (t, position)
        (Found-later held wanted rest (position rest wanted) (position-Found rest wanted) t)
]

-- What is held after a constant that was not is put at the end.
pushed-IsPool :
    (constants : List Constant) (wanted : Constant)
    → IsPool constants
    → Found constants wanted none
    → IsPool (constants ++ (wanted ∷ []))
pushed-IsPool constants wanted t f i j constant e g =
    elim (pushed-cases constants wanted i constant e) [
      | inl (last, new) ↦ elim (pushed-cases constants wanted j constant g) [
        | inl (also, _) ↦ last ∙ sym also
        | inr old ↦ absurd (f j (old ∙ ap (λ c. some c) new))
      ]
      | inr old ↦ elim (pushed-cases constants wanted j constant g) [
        | inl (also, new) ↦ absurd (f i (old ∙ ap (λ c. some c) new))
        | inr older ↦ t i j constant old older
      ]
    ]
  where
    pushed-cases :
        (constants : List Constant) (wanted : Constant) (i : ℕ) (constant : Constant)
        → get_elem? (constants ++ (wanted ∷ [])) i ≡ some constant
        → ((i ≡ length constants) × (constant ≡ wanted)) ⊎ (get_elem? constants i ≡ some constant)
    pushed-cases [] wanted zero constant e = inl (refl, cc)
    pushed-cases [] wanted (suc i) constant e = absurd cc
    pushed-cases (held ∷ rest) wanted zero constant e = inr e
    pushed-cases (held ∷ rest) wanted (suc i) constant e =
        elim (pushed-cases rest wanted i constant e) [
          | inl (last, new) ↦ inl (ap (λ n. suc n) last, new)
          | inr old ↦ inr old
        ]

take_all : (constants : List Constant) → take (length constants) constants ≡ constants
take_all [] = refl
take_all (held ∷ rest) = ap (λ cs. held ∷ cs) (take_all rest)

-- In a pool of fewer than 2^32 - 1 constants, none of them twice, `intern` answers for a value that has
-- a constant: the constant stands at the index, it stands nowhere else in the new pool, none stands
-- there twice, and every constant is where it was.
pub intern-IsPool :
    (pool : Pool) (value : Const) (wanted : Constant)
    → IsPool pool.constants
    → length pool.constants + 1 < 2 ^ 32
    → wanted_of value ≡ ok wanted
    → (r : ℕ × Pool) × (intern pool value ≡ ok r)
      × (get_elem? r.1.constants r.0 ≡ some wanted)
      × IsPool r.1.constants
      × (take (length pool.constants) r.1.constants ≡ pool.constants)
unfolding intern
intern-IsPool pool value wanted t fits w =
    let run : intern pool value ≡ placed pool wanted (position pool.constants wanted) =
      ap (λ o. o >>= λ c. placed pool c (position pool.constants c)) w in
    let found = position-Found pool.constants wanted in
    elim (Option-cases (position pool.constants wanted)) [
      | inr (at, e) ↦
          let there : get_elem? pool.constants at ≡ some wanted =
            subst (λ o. Found pool.constants wanted o) e found in
          let small : at % 2 ^ 32 ≡ at =
            omega (arith, get_elem?-some pool.constants at wanted there) in
          (
            (at, pool),
            run ∙ (ap (λ o. placed pool wanted o) e ∙ rw small refl),
            there,
            t,
            take_all pool.constants,
          )
      | inl e ↦
          let absent : Found pool.constants wanted none =
            subst (λ o. Found pool.constants wanted o) e found in
          let constants = pool.constants ++ (wanted ∷ []) in
          let last : (length constants % 2 ^ 32 + (2 ^ 32 - 1)) % 2 ^ 32 ≡ length pool.constants =
            omega (arith, length-append pool.constants (wanted ∷ [])) in
          (
            (length pool.constants, record { constants = constants }),
            run ∙ (ap (λ o. placed pool wanted o) e ∙ rw last refl),
            get_elem?-here pool.constants [] wanted,
            pushed-IsPool pool.constants wanted t absent,
            take-append pool.constants (wanted ∷ []),
          )
    ]
