-- ===== src/Syntax/Error.antt =====
-- What the compiler refuses, and how it says so: crates/ruta-syntax/src/error.rs.
-- Text is its bytes. `lossy` is `String::from_utf8_lossy`, which names of the source pass through.
use ruta.Prelude.{ℕ, ◌==◌, if◌then◌else◌, Option, none, some, List, [], ◌++◌}
use ruta.Syntax.Text.{codes, decimal}
use ruta.Syntax.LineIndex.{line_of}

pub data ErrorKind : Type 0 where
  malformed_number unfinished_string hexadecimal_digit_expected missing_open_brace : ErrorKind
  utf8_value_too_large missing_close_brace decimal_escape_too_large : ErrorKind
  invalid_escape_sequence invalid_long_string_delimiter : ErrorKind
  unfinished_long_string : (open_at : ℕ) → ErrorKind
  unfinished_long_comment : (open_at : ℕ) → ErrorKind
  unknown_attribute : List ℕ → ErrorKind
  multiple_to_be_closed : ErrorKind
  expected : List ℕ → ErrorKind
  expected_to_close : (expected opener : List ℕ) (open_at : ℕ) → ErrorKind
  equals_or_in_expected name_or_dots_expected function_arguments_expected : ErrorKind
  unexpected_symbol varargs_outside_vararg_function syntax_error break_outside_loop : ErrorKind
  global_to_be_closed stack_overflow : ErrorKind
  too_many : (what : List ℕ) (limit : ℕ) (function : Option ℕ) → ErrorKind
  const_assignment : List ℕ → ErrorKind
  variable_not_declared : List ℕ → ErrorKind
  env_is_global : List ℕ → ErrorKind
  label_already_defined : (name : List ℕ) (first_at : ℕ) → ErrorKind
  no_visible_label : (name : List ℕ) (goto_at : ℕ) → ErrorKind
  jump_into_scope : (label : List ℕ) (goto_at : ℕ) (variable : List ℕ) → ErrorKind

-- What the `near` clause shows.
pub data Near : Type 0 where
  near_eof : Near
  buffer : List ℕ → Near
  no_clause : Near

pub record Error : Type 0 where
  pub kind : ErrorKind
  pub at : ℕ
  pub near : Near

module _ (lossy : List ℕ → List ℕ) (lines : List ℕ) where
  -- `Error::line`
  unfoldable pub line : Error → ℕ
  line e = line_of lines e.at

  abbrev line_text : ℕ → List ℕ
  line_text at = decimal (line_of lines at)

  -- `Error::text`, of a kind at a place.
  unfoldable pub text : ErrorKind → ℕ → List ℕ
  unfolding line_of
  text malformed_number at = codes "malformed number"
  text unfinished_string at = codes "unfinished string"
  text hexadecimal_digit_expected at = codes "hexadecimal digit expected"
  text missing_open_brace at = codes "missing '{'"
  text utf8_value_too_large at = codes "UTF-8 value too large"
  text missing_close_brace at = codes "missing '}'"
  text decimal_escape_too_large at = codes "decimal escape too large"
  text invalid_escape_sequence at = codes "invalid escape sequence"
  text invalid_long_string_delimiter at = codes "invalid long string delimiter"
  text (unfinished_long_string open_at) at =
      codes "unfinished long string (starting at line " ++ (line_text open_at ++ codes ")")
  text (unfinished_long_comment open_at) at =
      codes "unfinished long comment (starting at line " ++ (line_text open_at ++ codes ")")
  text (unknown_attribute name) at = codes "unknown attribute '" ++ (lossy name ++ codes "'")
  text multiple_to_be_closed at = codes "multiple to-be-closed variables in local list"
  text (expected what) at = what ++ codes " expected"
  text (expected_to_close what opener open_at) at =
      if line_of lines open_at == line_of lines at
      then what ++ codes " expected"
      else what
        ++ (codes " expected (to close "
            ++ (opener ++ (codes " at line " ++ (line_text open_at ++ codes ")"))))
  text equals_or_in_expected at = codes "'=' or 'in' expected"
  text name_or_dots_expected at = codes "<name> or '...' expected"
  text function_arguments_expected at = codes "function arguments expected"
  text unexpected_symbol at = codes "unexpected symbol"
  text varargs_outside_vararg_function at = codes "cannot use '...' outside a vararg function"
  text syntax_error at = codes "syntax error"
  text break_outside_loop at = codes "break outside loop"
  text global_to_be_closed at = codes "global variables cannot be to-be-closed"
  text stack_overflow at = codes "stack overflow"
  text (too_many what limit none) at =
      codes "too many "
      ++ (what ++ (codes " (limit is " ++ (decimal limit ++ codes ") in main function")))
  text (too_many what limit (some place)) at =
      codes "too many "
      ++ (what
          ++ (codes " (limit is "
              ++ (decimal limit ++ (codes ") in function at line " ++ line_text place))))
  text (const_assignment name) at =
      codes "attempt to assign to const variable '" ++ (lossy name ++ codes "'")
  text (variable_not_declared name) at =
      codes "variable '" ++ (lossy name ++ codes "' not declared")
  text (env_is_global name) at =
      codes "_ENV is global when accessing variable '" ++ (lossy name ++ codes "'")
  text (label_already_defined name first_at) at =
      codes "label '" ++ (lossy name ++ (codes "' already defined on line " ++ line_text first_at))
  text (no_visible_label name goto_at) at =
      codes "no visible label '"
      ++ (lossy name ++ (codes "' for <goto> at line " ++ line_text goto_at))
  text (jump_into_scope label goto_at variable) at =
      codes "<goto "
      ++ (lossy label
          ++ (codes "> at line "
              ++ (line_text goto_at
                  ++ (codes " jumps into the scope of '" ++ (lossy variable ++ codes "'")))))

  -- `Error::message`
  unfoldable pub message : Error → List ℕ
  unfolding text
  message e = text e.kind e.at ++ elim e.near [
    | no_clause ↦ []
    | near_eof ↦ codes " near <eof>"
    | buffer bytes ↦ codes " near '" ++ (bytes ++ codes "'")
  ]
