-- ===== src/Syntax/Lexer/Utf8.antt =====
-- The bytes of a `\u` escape: `utf8_encode` of crates/ruta-syntax/src/lexer/string.rs.
pub mod RoundTrip
use Prim.Native.Nat.{bit_and, bit_or}
use ruta.Prelude.{
  ℕ, zero, suc, ◌+◌, ◌-◌, ◌*◌, ◌/◌, ◌%◌, ◌^◌, ltb, Bool, true, false, if◌then◌else◌, List, [], ◌∷◌,
}

-- The loop of `utf8_encode`: the continuation bytes, the last one first as they are put out, and
-- then `rest` and `first_fits`. It runs five times at most.
unfoldable pub continuations : ℕ → List ℕ → ℕ → ℕ → List ℕ × ℕ × ℕ
continuations zero bytes rest first_fits = (bytes, rest, first_fits)
continuations (suc fuel) bytes rest first_fits =
    let more = bit_or 128 (bit_and rest 63) ∷ bytes in
    elim (ltb (first_fits / 2) (rest / 2 ^ 6)) [
      | true ↦ continuations fuel more (rest / 2 ^ 6) (first_fits / 2)
      | false ↦ (more, rest / 2 ^ 6, first_fits / 2)
    ]

-- `utf8_encode`, as the bytes that it adds.
unfoldable pub utf8_encode : ℕ → List ℕ
unfolding continuations
utf8_encode value =
    if ltb value 128
    then value ∷ []
    else (let (bytes, rest, first_fits) = continuations 5 [] value 63 in
        (bit_or ((2 ^ 32 - 1 - first_fits) * 2 % 2 ^ 32) rest % 256) ∷ bytes)
