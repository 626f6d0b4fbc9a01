-- ===== src/Syntax/Token.antt =====
-- Tokens and source spans: crates/ruta-syntax/src/token.rs. Text is its bytes.
use ruta.Prelude.{same_bytes, ℕ, ◌&&◌, leb, if◌then◌else◌, Option, none, some, List, [], ◌∷◌, ◌++◌}
use ruta.Prelude.Int.{ℤ}
use ruta.Syntax.Text.{codes, decimal}

pub record Span : Type 0 where
  pub start : ℕ
  pub end : ℕ

-- A keyword of the source has the prefix `kw_` here.
pub data TokenKind : Type 0 where
  name : List ℕ → TokenKind
  int : ℤ → TokenKind
  float : ℕ → TokenKind
  str : List ℕ → TokenKind
  kw_and kw_break kw_do kw_else kw_elseif kw_end kw_false kw_for kw_function kw_goto kw_if :
      TokenKind
  kw_in kw_local kw_nil kw_not kw_or kw_repeat kw_return kw_then kw_true kw_until kw_while :
      TokenKind
  i_div concat dots eq ge le ne shl shr db_colon : TokenKind
  byte : ℕ → TokenKind
  eof : TokenKind

pub record Token : Type 0 where
  pub kind : TokenKind
  pub span : Span

-- `spelling`
unfoldable pub spelling : TokenKind → List ℕ
spelling (name text) = codes "<name>"
spelling (int value) = codes "<integer>"
spelling (float value) = codes "<number>"
spelling (str text) = codes "<string>"
spelling eof = codes "<eof>"
spelling kw_and = codes "and"
spelling kw_break = codes "break"
spelling kw_do = codes "do"
spelling kw_else = codes "else"
spelling kw_elseif = codes "elseif"
spelling kw_end = codes "end"
spelling kw_false = codes "false"
spelling kw_for = codes "for"
spelling kw_function = codes "function"
spelling kw_goto = codes "goto"
spelling kw_if = codes "if"
spelling kw_in = codes "in"
spelling kw_local = codes "local"
spelling kw_nil = codes "nil"
spelling kw_not = codes "not"
spelling kw_or = codes "or"
spelling kw_repeat = codes "repeat"
spelling kw_return = codes "return"
spelling kw_then = codes "then"
spelling kw_true = codes "true"
spelling kw_until = codes "until"
spelling kw_while = codes "while"
spelling i_div = codes "//"
spelling concat = codes ".."
spelling dots = codes "..."
spelling eq = codes "=="
spelling ge = codes ">="
spelling le = codes "<="
spelling ne = codes "~="
spelling shl = codes "<<"
spelling shr = codes ">>"
spelling db_colon = codes "::"
spelling (byte value) = []

-- `symbol`
unfoldable pub symbol : TokenKind → List ℕ
unfolding spelling
symbol (byte value) =
    if leb 32 value && leb value 126
    then value ∷ []
    else codes "<\\" ++ (decimal value ++ codes ">")
symbol kind = spelling kind

-- `describe`; what it quotes is ASCII, which `from_utf8_lossy` leaves alone.
unfoldable pub describe : TokenKind → List ℕ
unfolding spelling symbol
describe (name text) = spelling (name text)
describe (int value) = spelling (int value)
describe (float value) = spelling (float value)
describe (str text) = spelling (str text)
describe eof = spelling eof
describe written = codes "'" ++ (symbol written ++ codes "'")

-- The arms of the match of `keyword`, in its order: a literal and what it stands for.
abbrev pub arms : List (List ℕ × TokenKind)
arms =
    (codes "and", kw_and)
    ∷ (codes "break", kw_break)
    ∷ (codes "do", kw_do)
    ∷ (codes "else", kw_else)
    ∷ (codes "elseif", kw_elseif)
    ∷ (codes "end", kw_end)
    ∷ (codes "false", kw_false)
    ∷ (codes "for", kw_for)
    ∷ (codes "function", kw_function)
    ∷ (codes "goto", kw_goto)
    ∷ (codes "if", kw_if)
    ∷ (codes "in", kw_in)
    ∷ (codes "local", kw_local)
    ∷ (codes "nil", kw_nil)
    ∷ (codes "not", kw_not)
    ∷ (codes "or", kw_or)
    ∷ (codes "repeat", kw_repeat)
    ∷ (codes "return", kw_return)
    ∷ (codes "then", kw_then)
    ∷ (codes "true", kw_true)
    ∷ (codes "until", kw_until)
    ∷ (codes "while", kw_while)
    ∷ []

-- The first arm whose literal is the word.
unfoldable pub matched : List ℕ → List (List ℕ × TokenKind) → Option TokenKind
unfolding same_bytes
matched word [] = none
matched word ((literal, kind) ∷ others) =
    let rest = matched word others in if same_bytes word literal then some kind else rest

-- `keyword`
unfoldable pub keyword : List ℕ → Option TokenKind
unfolding matched
keyword word = matched word arms
