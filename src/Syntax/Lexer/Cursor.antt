-- ===== src/Syntax/Lexer/Cursor.antt =====
-- The bytes that the lexer walks: crates/ruta-syntax/src/lexer/cursor.rs.
use ruta.Prelude.{
  leb, panic, ℕ, ◌+◌, ◌-◌, ◌==◌, Bool, true, false, if◌then◌else◌, Option, none, some, List, [],
  ◌∷◌, ◌++◌, length, get_elem?, take, drop, Outcome, ok, expect, ◌>>=◌,
}
use ruta.Syntax.Text.{as_u32}
use ruta.Syntax.LineIndex.{is_pair}
use ruta.Syntax.Token.{TokenKind, Token}
use ruta.Syntax.Error.{Error, ErrorKind, buffer, near_eof, invalid_long_string_delimiter}

pub record Lexer : Type 0 where
  pub source : List ℕ
  pub pos : ℕ
  pub buf : List ℕ

-- What a scanner answers.
abbrev pub Lexed : Type 0 → Type 0
Lexed A = Outcome Error (A × Lexer)

-- `Lexer::new`
abbrev pub new : List ℕ → Lexer
new source = record { source = source; pos = 0; buf = [] }

-- `self.pos += count`
abbrev pub skip : Lexer → ℕ → Lexer
skip l count = record l { pos = l.pos + count }

-- The bytes left, which bound every loop.
abbrev pub left : Lexer → ℕ
left l = length l.source - l.pos

unfoldable pub peek : Lexer → Option ℕ
peek l = get_elem? l.source l.pos

abbrev pub holds : (ℕ → Bool) → Option ℕ → Bool
holds test none = false
holds test (some byte) = test byte

unfoldable pub eat : Lexer → ℕ → Bool × Lexer
unfolding peek
eat l byte = if holds (λ b. b == byte) (peek l) then (true, skip l 1) else (false, l)

-- `newline`, at a line break.
unfoldable pub newline : Lexer → Outcome Error Lexer
unfolding peek
newline l = expect (peek l) >>= λ first.
    ok (if holds (is_pair first) (peek (skip l 1)) then skip l 2 else skip l 1)

abbrev pub token : Lexer → TokenKind → ℕ → Token
token l kind start = record {
  kind = kind;
  span = record { start = as_u32 start; end = as_u32 l.pos };
}

unfoldable pub save_and_next : Lexer → Outcome Error Lexer
unfolding peek
save_and_next l =
    expect (peek l) >>= λ byte. ok (record l { pos = l.pos + 1; buf = l.buf ++ (byte ∷ []) })

abbrev pub eof_error : Lexer → ErrorKind → Error
eof_error l kind = record { kind = kind; at = as_u32 l.pos; near = near_eof }

abbrev pub buffered : Lexer → ErrorKind → Error
buffered l kind = record { kind = kind; at = as_u32 l.pos; near = buffer l.buf }

-- `escape_error`: the offending byte joins the buffer.
unfoldable pub escape_error : Lexer → ErrorKind → Error
unfolding peek
escape_error l kind =
    let shown : List ℕ = elim (peek l) [ none ↦ l.buf | some byte ↦ l.buf ++ (byte ∷ []) ] in
    record { kind = kind; at = as_u32 l.pos; near = buffer shown }

-- `delimiter_error`
unfoldable pub delimiter_error : Lexer → ℕ → Error
delimiter_error l start = record {
  kind = invalid_long_string_delimiter;
  at = as_u32 l.pos;
  near = buffer (take (l.pos - start) (drop start l.source));
}

abbrev pub cut : Lexer → ℕ → Lexer
cut l count = record l { buf = take (length l.buf - count) l.buf }

-- `buf.pop()`, which leaves an empty buffer as it is.
abbrev pub pop : Lexer → Lexer
pop l = cut l 1

-- `buf.truncate(buf.len() - count)`, whose difference panics below 0.
abbrev pub shorten : Lexer → ℕ → Outcome Error Lexer
shorten l count = if leb count (length l.buf) then ok (cut l count) else panic

-- `buf.push(byte)`
abbrev pub push : Lexer → ℕ → Lexer
push l byte = record l { buf = l.buf ++ (byte ∷ []) }
