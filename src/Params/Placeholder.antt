-- ===== src/Params/Placeholder.antt =====
-- Placeholders and their substitution (src/bearpit/core/params.py, `_unescape`,
-- `_split_unescaped`, `parse_placeholders` and `substitute`).
use bearpit.Base.{
  ℕ, ◌-◌, String, Bool, true, false, not, ◌&&◌, ◌||◌, List, [], ◌∷◌, Option, none, some,
  if◌then◌else◌, eqb, leb, ltb, ◌==◌, ◌+++◌, or_else, get_elem?,
}
use bearpit.Base.Dict.{Dict, lookup}
use Prim.Native.Char.{Char, code}
use bearpit.Params.Token.{
  is_char, backslash, comma, line_break, Piece, escape, braces, plain, as_written, pieces,
}

-- `re.sub(r"\\(.)", r"\1", text)`
unfoldable pub unescape : String → String
unescape String.[] = String.[]
unescape (String.◌∷◌ c String.[]) = String.◌∷◌ c String.[]
unescape (String.◌∷◌ c (String.◌∷◌ d s)) =
    let past = unescape s in
    let next = unescape (String.◌∷◌ d s) in
    if is_char backslash c && not (is_char line_break d)
    then String.◌∷◌ d past
    else String.◌∷◌ c next

abbrev pub first_part : Char → List String → List String
first_part c [] = String.◌∷◌ c String.[] ∷ []
first_part c (p ∷ ps) = String.◌∷◌ c p ∷ ps

-- `room` is how many parts may still follow the one that is being read.
unfoldable pub split_unescaped : String → ℕ → List String
split_unescaped String.[] room = String.[] ∷ []
split_unescaped (String.◌∷◌ c String.[]) room =
    if is_char comma c && ltb 0 room
    then String.[] ∷ String.[] ∷ []
    else String.◌∷◌ c String.[] ∷ []
split_unescaped (String.◌∷◌ c (String.◌∷◌ d s)) room =
    let past = split_unescaped s room in
    let next = split_unescaped (String.◌∷◌ d s) room in
    let part = split_unescaped (String.◌∷◌ d s) (room - 1) in
    if is_char backslash c
    then first_part c (first_part d past)
    else if is_char comma c && ltb 0 room
    then String.[] ∷ part
    else first_part c next

-- What `str.strip` takes away.
abbrev pub is_space : Char → Bool
is_space c =
    let n = code c in
    leb 9 n && leb n 13
    || leb 28 n && leb n 32
    || eqb n 133
    || eqb n 160
    || eqb n 5760
    || leb 8192 n && leb n 8202
    || eqb n 8232
    || eqb n 8233
    || eqb n 8239
    || eqb n 8287
    || eqb n 12288

unfoldable pub lstrip : String → String
lstrip String.[] = String.[]
lstrip (String.◌∷◌ c s) = if is_space c then lstrip s else String.◌∷◌ c s

abbrev pub keep_char : Char → String → String
keep_char c String.[] = if is_space c then String.[] else String.◌∷◌ c String.[]
keep_char c (String.◌∷◌ d s) = String.◌∷◌ c (String.◌∷◌ d s)

unfoldable pub rstrip : String → String
rstrip String.[] = String.[]
rstrip (String.◌∷◌ c s) = keep_char c (rstrip s)

abbrev pub strip : String → String
strip s = rstrip (lstrip s)

abbrev pub is_letter : Char → Bool
is_letter c = let n = code c in leb 65 n && leb n 90 || leb 97 n && leb n 122 || eqb n 95

abbrev pub is_digit : Char → Bool
is_digit c = leb 48 (code c) && leb (code c) 57

abbrev pub name_rest : String → Bool
name_rest String.[] = true
name_rest (String.◌∷◌ c s) = (is_letter c || is_digit c) && name_rest s

-- `_NAME`, of a text without a line break at its end.
unfoldable pub is_name : String → Bool
is_name String.[] = false
is_name (String.◌∷◌ c s) = is_letter c && name_rest s

pub record Placeholder : Type 0 where
  pub name : String
  pub default : Option String
  pub description : Option String

abbrev pub part : ℕ → List String → String
part i parts = or_else (get_elem? parts i) ""

abbrev pub body_name : String → String
body_name body = strip (part 0 (split_unescaped body 2))

abbrev pub nonempty : String → Option String
nonempty s = if s == "" then none else some s

abbrev pub given_default : String → Option String
given_default raw = if raw == "" then none else some (unescape raw)

abbrev pub given_description : String → Option String
given_description raw = if strip raw == "" then none else some (strip (unescape raw))

abbrev pub as_placeholder : String → Placeholder
as_placeholder body = record {
  name = body_name body;
  default = given_default (part 1 (split_unescaped body 2));
  description = given_description (part 2 (split_unescaped body 2));
}

abbrev pub add_placeholder : Piece → List Placeholder → List Placeholder
add_placeholder (braces body) rest =
    if is_name (body_name body) then as_placeholder body ∷ rest else rest
add_placeholder _ rest = rest

abbrev pub placeholders_in : List Piece → List Placeholder
placeholders_in [] = []
placeholders_in (p ∷ ps) = add_placeholder p (placeholders_in ps)

unfoldable pub parse_placeholders : String → List Placeholder
unfolding unescape split_unescaped lstrip rstrip is_name
parse_placeholders text = placeholders_in (pieces text)

-- What a token becomes.
abbrev pub rendered : Dict String → Piece → String
rendered values escape = "${"
rendered values (plain c) = String.◌∷◌ c String.[]
rendered values (braces body) =
    if is_name (body_name body)
    then or_else (lookup (body_name body) values) ""
    else as_written (braces body)

abbrev pub render_all : Dict String → List Piece → String
render_all values [] = ""
render_all values (p ∷ ps) = rendered values p +++ render_all values ps

unfoldable pub substitute : String → Dict String → String
unfolding split_unescaped lstrip rstrip is_name
substitute text values = render_all values (pieces text)
