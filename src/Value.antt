-- ===== src/Value.antt =====
-- The values that the code types as `Any`: what JSON can hold, without fractional numbers.
use bearpit.Base.{
  ℕ, suc, ◌/◌, ◌%◌, String, ◌≡◌, refl, Bool, true, false, not, ◌&&◌, ◌||◌, Option, none, some, List,
  [], ◌∷◌, ◌==◌, eqb, leb, if◌then◌else◌, decimal, ◌+++◌, or_else,
}
use Prim.Native.Char.{Char, code}

mutual
  pub data Value : Type 0 where
    null : Value
    bool : Bool → Value
    int : ℕ → Value
    negative : ℕ → Value
    str : String → Value
    list : Items → Value
    dict : Fields → Value

  pub data Items : Type 0 where
    nil : Items
    cons : Value → Items → Items

  pub data Fields : Type 0 where
    end : Fields
    field : String → Value → Fields → Fields

-- `d.get(k)`
abbrev pub get : String → Fields → Option Value
get k end = none
get k (field j v d) = if j == k then some v else get k d

abbrev pub get_or_null : String → Fields → Value
get_or_null k d = or_else (get k d) null

abbrev pub size_fields : Fields → ℕ
size_fields end = 0
size_fields (field j v d) = suc (size_fields d)

-- A number among the values: `True` and `False` are 1 and 0. `negative n` is -(n + 1).
abbrev pub as_number : Value → Option ℕ
as_number (bool true) = some 1
as_number (bool false) = some 0
as_number (int n) = some n
as_number _ = none

abbrev same_number : Option ℕ → Option ℕ → Bool
same_number (some a) (some b) = eqb a b
same_number _ _ = false

-- Python's `==` of two values.
unfoldable mutual
  pub value_eq : Value → Value → Bool
  value_eq null w = elim w [ null ↦ true | _ ↦ false ]
  value_eq (bool b) w = same_number (as_number (bool b)) (as_number w)
  value_eq (int n) w = same_number (some n) (as_number w)
  value_eq (negative n) w = elim w [ negative m ↦ eqb n m | _ ↦ false ]
  value_eq (str s) w = elim w [ str t ↦ s == t | _ ↦ false ]
  value_eq (list xs) w = elim w [ list ys ↦ items_eq xs ys | _ ↦ false ]
  value_eq (dict d) w = elim w [
    | dict e ↦ eqb (size_fields d) (size_fields e) && fields_in d e
    | _ ↦ false
  ]

  pub items_eq : Items → Items → Bool
  items_eq nil ys = elim ys [ nil ↦ true | cons _ _ ↦ false ]
  items_eq (cons x xs) ys = elim ys [ nil ↦ false | cons y r ↦ value_eq x y && items_eq xs r ]

  -- Every entry of the first is in the second, whatever the order.
  pub fields_in : Fields → Fields → Bool
  fields_in end e = true
  fields_in (field k v d) e =
      elim (get k e) [ none ↦ false | some w ↦ value_eq v w ] && fields_in d e

-- `repr` of a text: the quote that it does not contain, and a backslash before what needs one.
-- Characters outside ASCII stand for themselves.
has_char : ℕ → String → Bool
has_char n String.[] = false
has_char n (String.◌∷◌ c s) = eqb (code c) n || has_char n s

abbrev hex_digit : ℕ → String
hex_digit n =
    if leb n 9
    then decimal n
    else if eqb n 10
    then "a"
    else if eqb n 11
    then "b"
    else if eqb n 12
    then "c"
    else if eqb n 13
    then "d"
    else if eqb n 14
    then "e"
    else "f"

-- `\\`, the quote, `\n`, `\r`, `\t` and `\xNN` for the other control characters.
escape : ℕ → Char → String
unfolding decimal
escape quote c =
    let n = code c in
    if eqb n 92
    then "\\\\"
    else if eqb n quote
    then "\\" +++ String.◌∷◌ c String.[]
    else if eqb n 10
    then "\\n"
    else if eqb n 13
    then "\\r"
    else if eqb n 9
    then "\\t"
    else if not (leb 32 n) || eqb n 127
    then "\\x" +++ hex_digit (n / 16) +++ hex_digit (n % 16)
    else String.◌∷◌ c String.[]

escape_all : ℕ → String → String
unfolding escape
escape_all quote String.[] = String.[]
escape_all quote (String.◌∷◌ c s) = escape quote c +++ escape_all quote s

repr_str : String → String
unfolding escape_all has_char
repr_str s =
    if has_char 39 s && not (has_char 34 s)
    then "\"" +++ escape_all 34 s +++ "\""
    else "'" +++ escape_all 39 s +++ "'"

mutual
  unfolding repr_str decimal

  repr : Value → String
  repr null = "None"
  repr (bool true) = "True"
  repr (bool false) = "False"
  repr (int n) = decimal n
  repr (negative n) = "-" +++ decimal (suc n)
  repr (str s) = repr_str s
  repr (list xs) = "[" +++ repr_items xs +++ "]"
  repr (dict d) = "{" +++ repr_fields d +++ "}"

  repr_items : Items → String
  repr_items nil = ""
  repr_items (cons x nil) = repr x
  repr_items (cons x (cons y xs)) = repr x +++ ", " +++ repr_items (cons y xs)

  repr_fields : Fields → String
  repr_fields end = ""
  repr_fields (field k v end) = repr_str k +++ ": " +++ repr v
  repr_fields (field k v (field j w d)) =
      repr_str k +++ ": " +++ repr v +++ ", " +++ repr_fields (field j w d)

-- `str(v)`
unfoldable pub py_str : Value → String
unfolding repr
py_str (str s) = s
py_str (null) = repr null
py_str v = repr v

-- The texts of a list of texts; a name in a set must be hashable, and only a text can be one.
abbrev pub texts : Items → Option (List String)
texts nil = some []
texts (cons (str s) xs) = elim (texts xs) [ none ↦ none | some r ↦ some (s ∷ r) ]
texts (cons v xs) = none

py_str-repr :
    py_str (dict (field "a" (list (cons (int 12) (cons (str "b'") (cons null nil)))) end))
    ≡ "{'a': [12, \"b'\", None]}"
unfolding py_str
py_str-repr = refl
