-- ===== src/Grants/Registry.antt =====
-- The registry of tools (src/bearpit/core/tools.py). The handler of a tool is left out; importing
-- a plugin and calling it are Python's, and what came of them is a value.
use bearpit.Base.{
  ℕ, String, Bool, true, false, not, ◌&&◌, ◌||◌, List, [], ◌∷◌, Option, if◌then◌else◌, contains,
  eqb, leb,
}
use bearpit.Base.Dict.{Dict, has_key, insert}
use bearpit.Value.{Value}
use Prim.Native.Char.{Char, code}

pub data ToolRisk : Type 0 where
  contained elevated : ToolRisk

-- Money is in whole parts of a dollar.
pub record ToolProfile : Type 0 where
  pub name : String
  pub description : String
  pub params : Value
  pub config_schema : Option Value
  pub api_key_ref : Option String
  pub risk : ToolRisk
  pub cost_per_call_usd : ℕ

abbrev pub is_lower : Char → Bool
is_lower c = leb 97 (code c) && leb (code c) 122

abbrev pub is_lower_digit : Char → Bool
is_lower_digit c = is_lower c || leb 48 (code c) && leb (code c) 57

abbrev pub is_underscore : Char → Bool
is_underscore c = eqb (code c) 95

-- The `$` of Python's `re` also stands before a line break that ends the text.
abbrev pub at_end : String → Bool
at_end String.[] = true
at_end (String.◌∷◌ c String.[]) = eqb (code c) 10
at_end (String.◌∷◌ c (String.◌∷◌ d s)) = false

abbrev pub verb_rest : String → Bool
verb_rest String.[] = true
verb_rest (String.◌∷◌ c s) =
    let rest = verb_rest s in
    if is_lower_digit c || is_underscore c then rest else at_end (String.◌∷◌ c s)

abbrev pub verb : String → Bool
verb String.[] = false
verb (String.◌∷◌ c s) = is_lower c && verb_rest s

abbrev pub family_rest : String → Bool
family_rest String.[] = false
family_rest (String.◌∷◌ c s) =
    let rest = family_rest s in if is_underscore c then verb s else is_lower_digit c && rest

-- `^[a-z][a-z0-9]*_[a-z][a-z0-9_]*$`: the first underscore ends the family.
abbrev pub valid_tool_name : String → Bool
valid_tool_name String.[] = false
valid_tool_name (String.◌∷◌ c s) = is_lower c && family_rest s

abbrev pub builtin_verbs : List String
builtin_verbs =
    "submit_sealed" ∷ "reveal_status" ∷ "turn_status" ∷ "send_private" ∷ "run_code" ∷ "remember"
    ∷ "recall" ∷ "reveal" ∷ "tally" ∷ "score" ∷ "penalize" ∷ "flag" ∷ "scoreboard" ∷ "eliminate"
    ∷ "rule" ∷ "game_state" ∷ "game_act" ∷ "game_set" ∷ "game_declaration" ∷ []

-- What a plugin lists: a profile, or something else.
pub data Contribution : Type 0 where
  profile : ToolProfile → Contribution
  foreign : Contribution

-- What came of an entry point: it did not load, was not constructed or has no `tools`; its `tools`
-- raised; or they listed something.
pub data Plugin : Type 0 where
  unusable : Plugin
  failing : Plugin
  contributes : List Contribution → Plugin

abbrev pub Registry : Type 0
Registry = Dict ToolProfile

-- The first registration of a name wins.
abbrev pub accept : Registry → Contribution → Registry
accept into foreign = into
accept into (profile p) =
    if not (valid_tool_name p.name)
    then into
    else if contains p.name builtin_verbs
    then into
    else if has_key p.name into
    then into
    else insert p.name p into

abbrev pub accept_all : Registry → List Contribution → Registry
accept_all into [] = into
accept_all into (c ∷ cs) = accept_all (accept into c) cs

abbrev pub add_plugin : Registry → Plugin → Registry
add_plugin found unusable = found
add_plugin found failing = found
add_plugin found (contributes cs) = accept_all found cs

-- The built-in tools come first, then the plugins in their order.
unfoldable pub tool_registry : Registry → List Plugin → Registry
tool_registry found [] = found
tool_registry found (p ∷ plugins) = tool_registry (add_plugin found p) plugins
