-- ===== src/Syntax/Keywords.antt =====
-- The words that `keyword` of crates/ruta-syntax/src/token.rs finds, and how they are spelled.
use ruta.Prelude.{
  ℕ, ◌≡◌, ◌↔◌, refl, sym, ap, ◌∙◌, Bool, ◌&&◌, Bool-cases, inl, inr, true, false, some, List, [],
  ◌∷◌, same_bytes, same_bytes_iff,
}
use ruta.Syntax.Token.{
  TokenKind, kw_and, kw_break, kw_do, kw_else, kw_elseif, kw_end, kw_false, kw_for, kw_function,
  kw_goto, kw_if, kw_in, kw_local, kw_nil, kw_not, kw_or, kw_repeat, kw_return, kw_then, kw_true,
  kw_until, kw_while, spelling, arms, matched, keyword,
}

-- Whether a kind of token is a word of the language.
unfoldable pub is_word : TokenKind → Bool
is_word kw_and = true
is_word kw_break = true
is_word kw_do = true
is_word kw_else = true
is_word kw_elseif = true
is_word kw_end = true
is_word kw_false = true
is_word kw_for = true
is_word kw_function = true
is_word kw_goto = true
is_word kw_if = true
is_word kw_in = true
is_word kw_local = true
is_word kw_nil = true
is_word kw_not = true
is_word kw_or = true
is_word kw_repeat = true
is_word kw_return = true
is_word kw_then = true
is_word kw_true = true
is_word kw_until = true
is_word kw_while = true
is_word _ = false

-- The arms take words of the language, each as it is spelled.
unfoldable spelled : List (List ℕ × TokenKind) → Bool
unfolding same_bytes spelling is_word
spelled [] = true
spelled ((literal, kind) ∷ others) =
    same_bytes literal (spelling kind) && (is_word kind && spelled others)

arms-spelled : spelled arms ≡ true
unfolding spelled
arms-spelled = refl

both : (a b c : Bool) → a && (b && c) ≡ true → (a ≡ true) × (b ≡ true) × (c ≡ true)
both true true true h = (refl, refl, refl)
both true true false h = absurd cc
both true false c h = absurd cc
both false b c h = absurd cc

matched-spelled :
    (word : List ℕ) (tests : List (List ℕ × TokenKind)) (kind : TokenKind)
    → spelled tests ≡ true
    → matched word tests ≡ some kind
    → (is_word kind ≡ true) × (spelling kind ≡ word)
unfolding matched spelled
matched-spelled word [] kind s h = absurd cc
matched-spelled word ((literal, first) ∷ others) kind s h =
    let (same, is, more) =
      both (same_bytes literal (spelling first)) (is_word first) (spelled others) s in
    elim (Bool-cases (same_bytes word literal)) [
      | inl e ↦
          let found : some first ≡ some kind = rw (e, matched) at h in
          let one : first ≡ kind = cc in
          let taken : word ≡ literal = (same_bytes_iff word literal).0 e in
          let written : literal ≡ spelling first =
            (same_bytes_iff literal (spelling first)).0 same in
          (
            ap (λ k. is_word k) (sym one) ∙ is,
            ap (λ k. spelling k) (sym one) ∙ (sym written ∙ sym taken),
          )
      | inr e ↦ matched-spelled word others kind more (rw (e, matched) at h)
    ]

keyword-spelling : (kind : TokenKind) → is_word kind ≡ true → keyword (spelling kind) ≡ some kind
unfolding keyword spelling is_word matched same_bytes
keyword-spelling kw_and h = refl
keyword-spelling kw_break h = refl
keyword-spelling kw_do h = refl
keyword-spelling kw_else h = refl
keyword-spelling kw_elseif h = refl
keyword-spelling kw_end h = refl
keyword-spelling kw_false h = refl
keyword-spelling kw_for h = refl
keyword-spelling kw_function h = refl
keyword-spelling kw_goto h = refl
keyword-spelling kw_if h = refl
keyword-spelling kw_in h = refl
keyword-spelling kw_local h = refl
keyword-spelling kw_nil h = refl
keyword-spelling kw_not h = refl
keyword-spelling kw_or h = refl
keyword-spelling kw_repeat h = refl
keyword-spelling kw_return h = refl
keyword-spelling kw_then h = refl
keyword-spelling kw_true h = refl
keyword-spelling kw_until h = refl
keyword-spelling kw_while h = refl
keyword-spelling _ h = absurd cc

-- `keyword` answers a kind of token on a word just when the kind is a word of the language and
-- `spelling` spells it as that word.
pub keyword_iff :
    (word : List ℕ) (kind : TokenKind)
    → (keyword word ≡ some kind) ↔ ((is_word kind ≡ true) × (spelling kind ≡ word))
unfolding keyword
keyword_iff word kind = (
  λ h. matched-spelled word arms kind arms-spelled h,
  λ (is, written). ap (λ w. keyword w) (sym written) ∙ keyword-spelling kind is,
)
