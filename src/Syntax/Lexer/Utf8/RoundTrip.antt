-- ===== src/Syntax/Lexer/Utf8/RoundTrip.antt =====
-- `utf8_encode` of crates/ruta-syntax/src/lexer/string.rs, read back by the rule of RFC 2279.
use Prim.Native.Nat.{bit_and, bit_or}
use ruta.Prelude.Bits.{below, holds_below, bit_and_63}
use ruta.Prelude.{
  ℕ, zero, suc, ◌+◌, ◌-◌, ◌*◌, ◌/◌, ◌%◌, ◌^◌, ◌<◌, ◌≡◌, refl, ap, ◌∙◌, arith, ◌==◌, ==_iff, ltb,
  leb, true, false, ◌&&◌, Bool-cases, inl, inr, if◌then◌else◌, Option, none, some, List, [], ◌∷◌,
  ◌++◌,
}
use ruta.Syntax.Lexer.Utf8.{continuations, utf8_encode}

-- So many continuation bytes.
unfoldable pub follow : ℕ → ℕ → List ℕ → Option (ℕ × List ℕ)
follow zero value bytes = some (value, bytes)
follow (suc count) value [] = none
follow (suc count) value (byte ∷ bytes) =
    let rest = follow count (value * 64 + (byte - 128)) bytes in
    if leb 128 byte && ltb byte 192 then rest else none

-- A value of up to 31 bits, and the bytes after it.
unfoldable pub utf8_decode : List ℕ → Option (ℕ × List ℕ)
unfolding follow
utf8_decode [] = none
utf8_decode (lead ∷ bytes) =
    if ltb lead 128
    then some (lead, bytes)
    else if ltb lead 192
    then none
    else if ltb lead 224
    then follow 1 (lead - 192) bytes
    else if ltb lead 240
    then follow 2 (lead - 224) bytes
    else if ltb lead 248
    then follow 3 (lead - 240) bytes
    else if ltb lead 252
    then follow 4 (lead - 248) bytes
    else if ltb lead 254
    then follow 5 (lead - 252) bytes
    else none

-- The continuation byte of a number.
abbrev low : ℕ → ℕ
low rest = bit_or 128 (bit_and rest 63)

low_table : holds_below 64 (λ x. bit_or 128 x == 128 + x) ≡ true
unfolding holds_below
low_table = refl

low-sum : (rest : ℕ) → low rest ≡ 128 + rest % 64
low-sum rest =
    ap (λ b. bit_or 128 b) (bit_and_63 rest)
    ∙ (==_iff _ _).0 (below 64 (λ x. bit_or 128 x == 128 + x) low_table (rest % 64) (omega arith))

follow-low :
    (count value rest : ℕ) (bytes : List ℕ)
    → follow (suc count) value (low rest ∷ bytes) ≡ follow count (value * 64 + rest % 64) bytes
unfolding follow
follow-low count value rest bytes =
    let digit : value * 64 + (128 + rest % 64 - 128) ≡ value * 64 + rest % 64 = omega arith in
    let first : leb 128 (128 + rest % 64) ≡ true = ground arith in
    let last : ltb (128 + rest % 64) 192 ≡ true = ground arith in
    rw (low-sum rest, follow, first, last) (ap (λ v. follow count v bytes) digit)

-- The lead byte of a number, with what its other bits are taken from.
abbrev lead : ℕ → ℕ → ℕ
lead first_fits rest = bit_or ((2 ^ 32 - 1 - first_fits) * 2 % 2 ^ 32) rest % 256

-- A continuation byte brings back what the division by 2^6 took.
follow-next :
    (count rest : ℕ) (bytes : List ℕ)
    → follow (suc count) (rest / 2 ^ 6) (low rest ∷ bytes) ≡ follow count rest bytes
follow-next count rest bytes =
    let whole : rest / 2 ^ 6 * 64 + rest % 64 ≡ rest = omega arith in
    follow-low count (rest / 2 ^ 6) rest bytes ∙ ap (λ v. follow count v bytes) whole

lead_two : holds_below 32 (λ x. lead 31 x == 192 + x) ≡ true
unfolding holds_below
lead_two = refl

decode_two :
    (x : ℕ) (bytes : List ℕ) → ltb 31 x ≡ false → utf8_decode (lead 31 x ∷ bytes) ≡ follow 1 x bytes
unfolding utf8_decode
decode_two x bytes h =
    let written : lead 31 x ≡ 192 + x =
      (==_iff _ _).0 (below 32 (λ x. lead 31 x == 192 + x) lead_two x (ground (arith, h))) in
    let read : 192 + x - 192 ≡ x = omega arith in
    let from_128 : ltb (192 + x) 128 ≡ false = ground arith in
    let from_192 : ltb (192 + x) 192 ≡ false = ground arith in
    let to_224 : ltb (192 + x) 224 ≡ true = ground arith in
    rw (written, from_128, from_192, to_224) (ap (λ v. follow 1 v bytes) read)

lead_three : holds_below 16 (λ x. lead 15 x == 224 + x) ≡ true
unfolding holds_below
lead_three = refl

decode_three :
    (x : ℕ) (bytes : List ℕ) → ltb 15 x ≡ false → utf8_decode (lead 15 x ∷ bytes) ≡ follow 2 x bytes
unfolding utf8_decode
decode_three x bytes h =
    let written : lead 15 x ≡ 224 + x =
      (==_iff _ _).0 (below 16 (λ x. lead 15 x == 224 + x) lead_three x (ground (arith, h))) in
    let read : 224 + x - 224 ≡ x = omega arith in
    let from_128 : ltb (224 + x) 128 ≡ false = ground arith in
    let from_192 : ltb (224 + x) 192 ≡ false = ground arith in
    let from_224 : ltb (224 + x) 224 ≡ false = ground arith in
    let to_240 : ltb (224 + x) 240 ≡ true = ground arith in
    rw (written, from_128, from_192, from_224, to_240) (ap (λ v. follow 2 v bytes) read)

lead_four : holds_below 8 (λ x. lead 7 x == 240 + x) ≡ true
unfolding holds_below
lead_four = refl

decode_four :
    (x : ℕ) (bytes : List ℕ) → ltb 7 x ≡ false → utf8_decode (lead 7 x ∷ bytes) ≡ follow 3 x bytes
unfolding utf8_decode
decode_four x bytes h =
    let written : lead 7 x ≡ 240 + x =
      (==_iff _ _).0 (below 8 (λ x. lead 7 x == 240 + x) lead_four x (ground (arith, h))) in
    let read : 240 + x - 240 ≡ x = omega arith in
    let from_128 : ltb (240 + x) 128 ≡ false = ground arith in
    let from_192 : ltb (240 + x) 192 ≡ false = ground arith in
    let from_224 : ltb (240 + x) 224 ≡ false = ground arith in
    let from_240 : ltb (240 + x) 240 ≡ false = ground arith in
    let to_248 : ltb (240 + x) 248 ≡ true = ground arith in
    rw (written, from_128, from_192, from_224, from_240, to_248) (ap (λ v. follow 3 v bytes) read)

lead_five : holds_below 4 (λ x. lead 3 x == 248 + x) ≡ true
unfolding holds_below
lead_five = refl

decode_five :
    (x : ℕ) (bytes : List ℕ) → ltb 3 x ≡ false → utf8_decode (lead 3 x ∷ bytes) ≡ follow 4 x bytes
unfolding utf8_decode
decode_five x bytes h =
    let written : lead 3 x ≡ 248 + x =
      (==_iff _ _).0 (below 4 (λ x. lead 3 x == 248 + x) lead_five x (ground (arith, h))) in
    let read : 248 + x - 248 ≡ x = omega arith in
    let from_128 : ltb (248 + x) 128 ≡ false = ground arith in
    let from_192 : ltb (248 + x) 192 ≡ false = ground arith in
    let from_224 : ltb (248 + x) 224 ≡ false = ground arith in
    let from_240 : ltb (248 + x) 240 ≡ false = ground arith in
    let from_248 : ltb (248 + x) 248 ≡ false = ground arith in
    let to_252 : ltb (248 + x) 252 ≡ true = ground arith in
    rw (written, from_128, from_192, from_224, from_240, from_248, to_252)
      (ap (λ v. follow 4 v bytes) read)

lead_six : holds_below 2 (λ x. lead 1 x == 252 + x) ≡ true
unfolding holds_below
lead_six = refl

decode_six :
    (x : ℕ) (bytes : List ℕ) → ltb 1 x ≡ false → utf8_decode (lead 1 x ∷ bytes) ≡ follow 5 x bytes
unfolding utf8_decode
decode_six x bytes h =
    let written : lead 1 x ≡ 252 + x =
      (==_iff _ _).0 (below 2 (λ x. lead 1 x == 252 + x) lead_six x (ground (arith, h))) in
    let read : 252 + x - 252 ≡ x = omega arith in
    let from_128 : ltb (252 + x) 128 ≡ false = ground arith in
    let from_192 : ltb (252 + x) 192 ≡ false = ground arith in
    let from_224 : ltb (252 + x) 224 ≡ false = ground arith in
    let from_240 : ltb (252 + x) 240 ≡ false = ground arith in
    let from_248 : ltb (252 + x) 248 ≡ false = ground arith in
    let from_252 : ltb (252 + x) 252 ≡ false = ground arith in
    let to_254 : ltb (252 + x) 254 ≡ true = ground arith in
    rw (written, from_128, from_192, from_224, from_240, from_248, from_252, to_254)
      (ap (λ v. follow 5 v bytes) read)

-- What is encoded is decoded, whatever bytes follow, for a value of up to 31 bits.
pub utf8_decode-utf8_encode :
    (value : ℕ) (bytes : List ℕ)
    → value < 2 ^ 31
    → utf8_decode (utf8_encode value ++ bytes) ≡ some (value, bytes)
unfolding utf8_encode continuations follow utf8_decode
utf8_decode-utf8_encode value bytes h =
    let one = value / 2 ^ 6 in
    let two = one / 2 ^ 6 in
    let three = two / 2 ^ 6 in
    let four = three / 2 ^ 6 in
    let five = four / 2 ^ 6 in
    let tail1 = low value ∷ bytes in
    let tail2 = low one ∷ tail1 in
    let tail3 = low two ∷ tail2 in
    let tail4 = low three ∷ tail3 in
    let tail5 = low four ∷ tail4 in
    let end1 = follow-next 0 value bytes in
    let end2 = follow-next 1 one tail1 ∙ end1 in
    let end3 = follow-next 2 two tail2 ∙ end2 in
    let end4 = follow-next 3 three tail3 ∙ end3 in
    let end5 = follow-next 4 four tail4 ∙ end4 in
    elim (Bool-cases (ltb value 128)) [
      | inl a ↦ rw (a, utf8_encode, a, utf8_decode) refl
      | inr a ↦ elim (Bool-cases (ltb 31 one)) [
        | inr b ↦ rw (a, utf8_encode, continuations, b) (decode_two one tail1 b ∙ end1)
        | inl b ↦ elim (Bool-cases (ltb 15 two)) [
          | inr c ↦
              rw (a, utf8_encode, continuations, b, continuations, c)
                (decode_three two tail2 c ∙ end2)
          | inl c ↦ elim (Bool-cases (ltb 7 three)) [
            | inr d ↦
                rw (a, utf8_encode, continuations, b, continuations, c, continuations, d)
                  (decode_four three tail3 d ∙ end3)
            | inl d ↦ elim (Bool-cases (ltb 3 four)) [
              | inr e ↦
                  rw
                    (
                      a, utf8_encode, continuations, b, continuations, c, continuations, d,
                      continuations, e,
                    )
                    (decode_five four tail4 e ∙ end4)
              | inl e ↦
                  let f : ltb 1 five ≡ false = ground arith in
                  rw
                    (
                      a, utf8_encode, continuations, b, continuations, c, continuations, d,
                      continuations, e, continuations, f,
                    )
                    (decode_six five tail5 f ∙ end5)
            ]
          ]
        ]
      ]
    ]
