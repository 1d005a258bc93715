-- ===== src/Service/Safety.antt =====
-- What may be written into the chronicle (src/bearpit/chronicle/safety.py, `unstorable` and
-- `oversized`; src/bearpit/realmtools/machine_service.py, `_refuse`).
use bearpit.Base.{
  ℕ, suc, String, Bool, false, ◌&&◌, ◌||◌, Option, none, some, eqb, leb, ltb, if◌then◌else◌,
}
use bearpit.Base.Dict.{Dict}
use bearpit.Base.{List, [], ◌∷◌}
use bearpit.Value.{Value, str, list, dict, Items, nil, cons, Fields, end, field}

abbrev pub max_value_chars : ℕ
max_value_chars = 8000

abbrev pub max_value_depth : ℕ
max_value_depth = 32

-- Why a value may not be stored.
pub data Hazard : Type 0 where
  too_deep has_nul has_surrogate : Hazard
  in_key : Hazard → Hazard
  not_serialisable : Hazard
  too_long : ℕ → Hazard

-- A character is its code point: a text of Python may hold an unpaired surrogate.
abbrev pub is_nul : ℕ → Bool
is_nul c = eqb c 0

-- The range of `_SURROGATE`.
abbrev pub is_surrogate : ℕ → Bool
is_surrogate c = leb 55296 c && leb c 57343

-- `any(p(c) for c in s)`, as a search for one character does.
unfoldable pub any_char : (ℕ → Bool) → List ℕ → Bool
any_char p [] = false
any_char p (c ∷ s) = p c || any_char p s

abbrev pub key_first : Option Hazard → Option Hazard → Option Hazard
key_first (some h) rest = some (in_key h)
key_first none rest = rest

abbrev pub first_of : Option Hazard → Option Hazard → Option Hazard
first_of (some h) rest = some h
first_of none rest = rest

abbrev pub oversized : ℕ → Option Hazard
oversized n = if ltb max_value_chars n then some (too_long n) else none

-- The length of `json.dumps(value)`, or `none` where it raises.
abbrev pub refuse_size : Option ℕ → Option Hazard
refuse_size none = some not_serialisable
refuse_size (some n) = oversized n

-- `points` gives the code points of a text, as Python keeps them.
module _ (points : String → List ℕ) where
  unfoldable pub bad_text : String → Option Hazard
  unfolding any_char
  bad_text s =
      if any_char is_nul (points s)
      then some has_nul
      else if any_char is_surrogate (points s)
      then some has_surrogate
      else none

  -- A key is one level below its object.
  abbrev pub bad_key : ℕ → String → Option Hazard
  bad_key depth k = if ltb max_value_depth depth then some too_deep else bad_text k

  -- `unstorable(value, _depth=depth)`
  unfoldable mutual
    unfolding bad_text

    pub unstorable : Value → ℕ → Option Hazard
    unstorable (str s) depth = if ltb max_value_depth depth then some too_deep else bad_text s
    unstorable (dict d) depth =
        if ltb max_value_depth depth then some too_deep else unstorable_fields d (suc depth)
    unstorable (list xs) depth =
        if ltb max_value_depth depth then some too_deep else unstorable_items xs (suc depth)
    unstorable v depth = if ltb max_value_depth depth then some too_deep else none

    pub unstorable_fields : Fields → ℕ → Option Hazard
    unstorable_fields end depth = none
    unstorable_fields (field k v d) depth =
        key_first (bad_key depth k) (first_of (unstorable v depth) (unstorable_fields d depth))

    pub unstorable_items : Items → ℕ → Option Hazard
    unstorable_items nil depth = none
    unstorable_items (cons v xs) depth = first_of (unstorable v depth) (unstorable_items xs depth)

  -- `_refuse`, without the label. `dumps` is the serialiser of the standard library.
  unfoldable pub refuse : (Value → Option ℕ) → Value → Option Hazard
  unfolding unstorable
  refuse dumps value = first_of (unstorable value 0) (refuse_size (dumps value))

-- The arguments of a call, as the object that they are.
abbrev pub args_object : Dict Value → Fields
args_object [] = end
args_object ((k, v) ∷ d) = field k v (args_object d)
