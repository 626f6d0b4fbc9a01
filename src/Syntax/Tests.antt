-- ===== src/Syntax/Tests.antt =====
-- Runs of the theorems on source text, at concrete inputs.
use ruta.Prelude.{true, ℕ, ◌≡◌, ◌↔◌, arith, Option, none, some, List, [], ◌∷◌, ◌++◌}
use ruta.Syntax.Text.{codes}
use ruta.Syntax.Token.{kw_while, keyword, spelling}
use ruta.Syntax.Keywords.{is_word, keyword_iff}
use ruta.Syntax.LineIndex.{new, line_of}
use ruta.Syntax.Lines.{breaks, line_of-breaks}
use ruta.Syntax.Lexer.Cursor.{Lexer}
use ruta.Syntax.Lexer.Scan.{next_token}
use ruta.Syntax.Lexer.Safety.Ensures.{Ensures}
use ruta.Syntax.Lexer.Safety.Scan.{Advances, next_token-Advances}
use ruta.Syntax.Lexer.Utf8.{utf8_encode}
use ruta.Syntax.Lexer.Utf8.RoundTrip.{utf8_decode, utf8_decode-utf8_encode}

-- A float parser that reads nothing.
abbrev no_float : List ℕ → Option ℕ
no_float text = none

-- A comment, a name and a string with an escape.
abbrev chunk : Lexer
chunk = record { source = codes "--[[c]] x = '\\u{20AC}'"; pos = 12; buf = [] }

next_token-Advances_example : Ensures (Advances chunk) (next_token no_float chunk)
next_token-Advances_example = next_token-Advances no_float chunk (omega arith) (omega arith)

keyword_iff_example :
    (keyword (codes "while") ≡ some kw_while)
    ↔ ((is_word kw_while ≡ true) × (spelling kw_while ≡ codes "while"))
keyword_iff_example = keyword_iff (codes "while") kw_while

abbrev text : List ℕ
text = 97 ∷ 13 ∷ 10 ∷ 98 ∷ 10 ∷ 10 ∷ 99 ∷ []

line_of-breaks_example : line_of (new text) 6 ≡ 4
unfolding breaks
line_of-breaks_example = line_of-breaks text 6 (omega arith)

utf8_decode-utf8_encode_example :
    utf8_decode (utf8_encode 0x20AC ++ codes "x") ≡ some (0x20AC, codes "x")
utf8_decode-utf8_encode_example = utf8_decode-utf8_encode 0x20AC (codes "x") (omega arith)
