-- ===== src/Runtime/Table/Key.antt =====
-- What a table key is, and when two are the same: crates/ruta-runtime/src/heap/table/key.rs, and
-- `hash_bytes` of heap/string.rs. `strings` is what the heap holds for each handle of a string.
use Prim.Native.Nat.{Ordering, bit_xor}
use ruta.Prelude.{
  same_bytes, ℕ, zero, suc, ◌-◌, ◌*◌, ◌/◌, ◌%◌, ◌^◌, Bool, true, false, ◌&&◌, ◌||◌, not, ◌==◌,
  if◌then◌else◌, Option, none, some, Outcome, ok, err, panic, List, [], ◌∷◌,
}
use ruta.Prelude.Int.{ℤ, pos, negsuc, eqb_ℤ, word_64}
use ruta.Runtime.Float.{is_nan, floor, is_whole, le_float, lt_float, partial_cmp}
use ruta.Runtime.Value.{Value, nil, bool, int, float, str, table, func, user_data, thread}

pub data KeyError : Type 0 where
  nil_key nan_key : KeyError

-- The loop of `hash_bytes`.
unfoldable pub mix : ℕ → List ℕ → ℕ
mix hash [] = hash
mix hash (byte ∷ bytes) = mix (bit_xor hash byte * 0x100000001b3 % 2 ^ 64) bytes

-- `hash_seed`
abbrev pub hash_seed : ℕ
hash_seed = 0xcbf29ce484222325

-- `hash_bytes`
unfoldable pub hash_bytes : List ℕ → ℕ
unfolding mix
hash_bytes bytes = let hash = mix hash_seed bytes in bit_xor (hash / 2 ^ 32) (hash % 2 ^ 32)

-- `to_le_bytes` of a word of so many bytes.
unfoldable pub le_bytes : ℕ → ℕ → List ℕ
le_bytes zero w = []
le_bytes (suc n) w = (w % 256) ∷ le_bytes n (w / 256)

abbrev pub byte_of_bool : Bool → ℕ
byte_of_bool true = 1
byte_of_bool false = 0

-- `key_hash`; a string keeps the hash that its bytes had when it was made.
unfoldable pub key_hash : (ℕ → List ℕ) → Value → Outcome KeyError ℕ
unfolding hash_bytes le_bytes word_64
key_hash strings nil = panic
key_hash strings (bool flag) = ok (hash_bytes (byte_of_bool flag ∷ []))
key_hash strings (int number) = ok (hash_bytes (le_bytes 8 (word_64 number)))
key_hash strings (float number) = ok (hash_bytes (le_bytes 8 number))
key_hash strings (str handle) = ok (hash_bytes (strings handle))
key_hash strings (table handle) = ok (hash_bytes (le_bytes 4 handle))
key_hash strings (func handle) = ok (hash_bytes (le_bytes 4 handle))
key_hash strings (user_data handle) = ok (hash_bytes (le_bytes 4 handle))
key_hash strings (thread handle) = ok (hash_bytes (le_bytes 4 handle))

-- `==` of flags and of floats.
abbrev pub eqb_flag : Bool → Bool → Bool
eqb_flag true b = b
eqb_flag false b = not b

unfoldable pub float_eq : ℕ → ℕ → Bool
unfolding partial_cmp
float_eq a b = elim (partial_cmp a b) [ some Ordering.eq ↦ true | _ ↦ false ]

-- `keys_equal`
unfoldable pub keys_equal : (ℕ → List ℕ) → Value → Value → Bool
unfolding float_eq same_bytes
keys_equal strings (bool a) (bool b) = eqb_flag a b
keys_equal strings (int a) (int b) = eqb_ℤ a b
keys_equal strings (float a) (float b) = float_eq a b
keys_equal strings (str a) (str b) = (a == b) || same_bytes (strings a) (strings b)
keys_equal strings (table a) (table b) = a == b
keys_equal strings (func a) (func b) = a == b
keys_equal strings (user_data a) (user_data b) = a == b
keys_equal strings (thread a) (thread b) = a == b
keys_equal strings _ _ = false

-- `integral`; in range, the cast of a whole float is the integer that `floor` gives.
unfoldable pub integral : ℕ → Option ℤ
unfolding is_whole
integral number =
    if is_whole number && le_float (negsuc (2 ^ 63 - 1)) number && lt_float number (pos (2 ^ 63))
    then some (floor number)
    else none

-- The key of a float that is no NaN.
unfoldable pub float_key : ℕ → Option ℤ → Value
float_key number (some n) = int n
float_key number none = float number

-- `normalize`
unfoldable pub normalize : Value → Outcome KeyError Value
unfolding integral float_key
normalize nil = err nil_key
normalize (float number) =
    if is_nan number then err nan_key else ok (float_key number (integral number))
normalize key = ok key
