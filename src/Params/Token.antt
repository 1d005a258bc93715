-- ===== src/Params/Token.antt =====
-- The tokens of a text (src/bearpit/core/params.py, `_TOKEN`): an escape `$${`, a placeholder
-- `${...}`, or any other character. A `}` behind a backslash does not end a placeholder, and a
-- backslash before a line break or at the end of the text leaves it open.
use bearpit.Base.{
  ℕ, zero, suc, String, Bool, List, [], ◌∷◌, Option, none, some, if◌then◌else◌, eqb, ◌+++◌,
}
use Prim.Native.Char.{Char, code}

abbrev pub is_char : ℕ → Char → Bool
is_char n c = eqb (code c) n

abbrev pub dollar : ℕ
dollar = 36

abbrev pub open_brace : ℕ
open_brace = 123

abbrev pub close_brace : ℕ
close_brace = 125

abbrev pub backslash : ℕ
backslash = 92

abbrev pub comma : ℕ
comma = 44

abbrev pub line_break : ℕ
line_break = 10

-- `text_length(s)` in characters.
abbrev pub text_length : String → ℕ
text_length String.[] = 0
text_length (String.◌∷◌ c s) = suc (text_length s)

abbrev pub add_char : Char → Option (String × String) → Option (String × String)
add_char c none = none
add_char c (some (body, rest)) = some (String.◌∷◌ c body, rest)

-- The body up to the closing brace, and the text after that.
unfoldable pub take_body : String → Option (String × String)
take_body String.[] = none
take_body (String.◌∷◌ c String.[]) =
    if is_char close_brace c then some (String.[], String.[]) else none
take_body (String.◌∷◌ c (String.◌∷◌ d s)) =
    let past = take_body s in
    let next = take_body (String.◌∷◌ d s) in
    if is_char close_brace c
    then some (String.[], String.◌∷◌ d s)
    else if is_char backslash c
    then (if is_char line_break d then none else add_char c (add_char d past))
    else add_char c next

pub data Piece : Type 0 where
  escape : Piece
  braces : String → Piece
  plain : Char → Piece

-- A token at the front of a text, and the text after it.
abbrev pub open_token : Char → String → Option (String × String) → Piece × String
open_token c rest none = (plain c, rest)
open_token c rest (some (body, after)) = (braces body, after)

-- The token that begins with a character.
unfoldable pub next_piece : Char → String → Piece × String
unfolding take_body
next_piece c String.[] = (plain c, String.[])
next_piece c (String.◌∷◌ d s) =
    if is_char dollar c
    then (if is_char open_brace d
        then open_token c (String.◌∷◌ d s) (take_body s)
        else if is_char dollar d
        then after_two c d s
        else (plain c, String.◌∷◌ d s))
    else (plain c, String.◌∷◌ d s)
  where
    after_two : Char → Char → String → Piece × String
    after_two c d String.[] = (plain c, String.◌∷◌ d String.[])
    after_two c d (String.◌∷◌ e rest) =
        if is_char open_brace e then (escape, rest) else (plain c, String.◌∷◌ d (String.◌∷◌ e rest))

-- `_TOKEN` over a whole text; the fuel is the number of characters that are left.
unfoldable pub pieces_fuel : ℕ → String → List Piece
pieces_fuel zero s = []
pieces_fuel (suc n) String.[] = []
pieces_fuel (suc n) (String.◌∷◌ c s) = let p = next_piece c s in p.0 ∷ pieces_fuel n p.1

unfoldable pub pieces : String → List Piece
unfolding pieces_fuel
pieces text = pieces_fuel (text_length text) text

-- How a token was written.
abbrev pub as_written : Piece → String
as_written escape = "$${"
as_written (braces body) = "${" +++ body +++ "}"
as_written (plain c) = String.◌∷◌ c String.[]

unfoldable pub write_all : List Piece → String
write_all [] = ""
write_all (p ∷ ps) = as_written p +++ write_all ps
