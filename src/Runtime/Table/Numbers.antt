-- ===== src/Runtime/Table/Numbers.antt =====
-- Numbers as table keys: `normalize` and `keys_equal` of crates/ruta-runtime/src/heap/table/key.rs.
use ruta.Prelude.{
  ℕ, ◌-◌, ◌^◌, ◌≡◌, ◌≢◌, ◌⊎◌, inl, inr, refl, ap, sym, ◌∙◌, arith, Bool, true, false, ◌&&◌,
  Bool-cases, none, some, List, ok,
}
use ruta.Prelude.Int.{eqb_iff, ℤ, pos, negsuc, IsI64, eqb_ℤ, eq_of_parts}
use ruta.Runtime.Float.{
  is_nan, units, in_units, floor_units, floor, is_whole, le_float, lt_float, partial_cmp,
}
use ruta.Runtime.Float.Units.{floor_units-le, floor_units-lt, in_units-lt, in_units-mono}
use ruta.Runtime.Value.{Value, int, float}
use ruta.Runtime.Arith.{Num, int_num, float_num}
use ruta.Runtime.Arith.Exact.{value_of, exact, IsNum}
use ruta.Runtime.Table.Key.{normalize, keys_equal, integral, float_key, float_eq}

in_units-inj : (a b : ℤ) → in_units a ≡ in_units b → a ≡ b
in_units-inj a b e = ground (arith, in_units-lt a b, in_units-lt b a, eq_of_parts a b)

-- The test of `integral`.
unfoldable names_integer : ℕ → Bool
names_integer number =
    is_whole number && le_float (negsuc (2 ^ 63 - 1)) number && lt_float number (pos (2 ^ 63))

whole_lem : (number : ℕ) → names_integer number ≡ true → in_units (floor number) ≡ units number
unfolding names_integer is_whole
whole_lem number h = ground (arith, eq_of_parts (in_units (floor number)) (units number))

range_lem : (number : ℕ) → names_integer number ≡ true → IsI64 (floor number)
unfolding names_integer le_float lt_float
range_lem number h =
    let f = floor number in
    ground (
      arith,
      whole_lem number h,
      in_units-lt f (negsuc (2 ^ 63 - 1)),
      in_units-mono (pos (2 ^ 63)) f,
    )

-- An integer of the same value as a float is its floor.
floor_unique : (n u : ℤ) → in_units n ≡ u → floor_units u ≡ n
floor_unique n u e = ground (
  arith,
  floor_units-le u,
  floor_units-lt n u,
  in_units-lt n (floor_units u),
  eq_of_parts (floor_units u) n,
)

names_lem :
    (number : ℕ) (n : ℤ)
    → is_nan number ≡ false
    → IsI64 n
    → in_units n ≡ units number
    → names_integer number ≡ true
unfolding names_integer is_whole le_float lt_float floor
names_lem number n h hn e =
    let f : floor_units (units number) ≡ n = floor_unique n (units number) e in
    let whole : eqb_ℤ (in_units (floor_units (units number))) (units number) ≡ true =
      (eqb_iff (in_units (floor_units (units number))) (units number)).1 (ap in_units f ∙ e) in
    ground (arith, whole, in_units-mono (negsuc (2 ^ 63 - 1)) n, in_units-lt n (pos (2 ^ 63)))

false-true : false ≢ true
false-true e = cc

-- What `integral` says of a float: the `i64` that it is, or that it is none.
integral-cases :
    (number : ℕ)
    → is_nan number ≡ false
    → ((n : ℤ) × (integral number ≡ some n) × IsI64 n × (in_units n ≡ units number))
      ⊎ ((integral number ≡ none) × ((n : ℤ) → IsI64 n → in_units n ≢ units number))
unfolding integral names_integer
integral-cases number h = elim (Bool-cases (names_integer number)) [
  | inl e ↦ inl (floor number, rw e, range_lem number e, whole_lem number e)
  | inr e ↦ inr (rw e, λ n hn q. false-true (sym e ∙ names_lem number n h hn q))
]

-- A key of a number of so many units: an integer, or a float that is the value of no `i64`.
abbrev IsKeyOf : ℤ → Value → Type 0
IsKeyOf u key =
    ((n : ℤ) × (key ≡ int n) × IsI64 n × (in_units n ≡ u))
    ⊎ ((f : ℕ) × (key ≡ float f)
        × (is_nan f ≡ false)
        × (units f ≡ u)
        × ((n : ℤ) → IsI64 n → in_units n ≢ u))

normalize-float : (f : ℕ) → is_nan f ≡ false → normalize (float f) ≡ ok (float_key f (integral f))
unfolding normalize
normalize-float f h = rw h

normalize-IsKeyOf :
    (a : Num) (u : ℤ)
    → IsNum a
    → exact a ≡ some u
    → (key : Value) × (normalize (value_of a) ≡ ok key) × IsKeyOf u key
unfolding normalize value_of exact float_key
normalize-IsKeyOf (int_num n) u h e = (int n, refl, inl (n, refl, h, cc e))
normalize-IsKeyOf (float_num f) u h e = elim (Bool-cases (is_nan f)) [
  | inl n ↦ let absurd : ⊥ = ground (arith, e, n) in elim absurd [ ]
  | inr n ↦
      let same : units f ≡ u = ground (arith, e, n) in
      elim (integral-cases f n) [
        | inl (m, i, r, q) ↦ (
          int m,
          normalize-float f n ∙ ap (λ o. ok (float_key f o)) i,
          inl (m, refl, r, q ∙ same),
        )
        | inr (i, apart) ↦ (
          float f,
          normalize-float f n ∙ ap (λ o. ok (float_key f o)) i,
          inr (f, refl, n, same, λ m r q. apart m r (q ∙ sym same)),
        )
      ]
]

float_eq_iff :
    (f g : ℕ)
    → is_nan f ≡ false
    → is_nan g ≡ false
    → (float_eq f g ≡ true → units f ≡ units g) × (units f ≡ units g → float_eq f g ≡ true)
unfolding float_eq partial_cmp
float_eq_iff f g hf hg = ground (arith, eq_of_parts (units f) (units g))

keys_equal-IsKeyOf :
    (strings : ℕ → List ℕ) (u w : ℤ) (k l : Value)
    → IsKeyOf u k
    → IsKeyOf w l
    → (keys_equal strings k l ≡ true → u ≡ w) × (u ≡ w → keys_equal strings k l ≡ true)
unfolding keys_equal
keys_equal-IsKeyOf strings u w k l (inl (m, e, r, q)) (inl (n, f, s, p)) =
    rw (e, f)
      (
        (λ t. sym q ∙ ap in_units ((eqb_iff m n).0 t) ∙ p),
        λ t. (eqb_iff m n).1 (in_units-inj m n (q ∙ t ∙ sym p)),
      )
keys_equal-IsKeyOf strings u w k l (inl (m, e, r, q)) (inr (g, f, s, p, apart)) =
    rw (e, f) ((λ t. absurd (false-true t)), λ t. absurd (apart m r (q ∙ t)))
keys_equal-IsKeyOf strings u w k l (inr (g, e, r, q, apart)) (inl (n, f, s, p)) =
    rw (e, f) ((λ t. absurd (false-true t)), λ t. absurd (apart n s (p ∙ sym t)))
keys_equal-IsKeyOf strings u w k l (inr (g, e, r, q, apart)) (inr (h, f, s, p, apart')) =
    rw (e, f)
      ((λ t. sym q ∙ (float_eq_iff g h r s).0 t ∙ p), λ t. (float_eq_iff g h r s).1 (q ∙ t ∙ sym p))

-- Two numbers, `i64`s or floats that are no NaN, are both accepted as table keys, and their keys are
-- the same one just when their exact values are equal.
pub keys_equal-exact :
    (strings : ℕ → List ℕ) (a b : Num) (u w : ℤ)
    → IsNum a
    → IsNum b
    → exact a ≡ some u
    → exact b ≡ some w
    → (k : Value) × (l : Value) × (normalize (value_of a) ≡ ok k)
      × (normalize (value_of b) ≡ ok l)
      × ((keys_equal strings k l ≡ true → u ≡ w) × (u ≡ w → keys_equal strings k l ≡ true))
keys_equal-exact strings a b u w ha hb ea eb =
    let (k, ek, vk) = normalize-IsKeyOf a u ha ea in
    let (l, el, vl) = normalize-IsKeyOf b w hb eb in
    (k, l, ek, el, keys_equal-IsKeyOf strings u w k l vk vl)
