-- ===== src/Machine/State.antt =====
-- The engine's data (src/bearpit/realmtools/machine.py): bindings, the state document, the
-- inputs of one call, and reference resolution.
use bearpit.Base.{
  ℕ, String, Bool, true, false, Option, none, some, List, [], ◌∷◌, ◌==◌, if◌then◌else◌, or_else,
  contains, strip_prefix, select, any,
}
use bearpit.Base.Dict.{Dict, lookup, keys}
use bearpit.Base.StrSet.{StrSet, of_list, minus}
use bearpit.Base.Outcome.{Py, ok, raised, key_error, type_error, or_raise, ◌>>=◌}
use bearpit.Value.{Value, null, str, list, dict, Items, nil, cons, Fields, end, field, get}
use bearpit.Machine.Decl.{MachineDef, DataDef, Visibility, is_set_type, is_referee_role}

-- `referee` is kept for the reader of the chronicle; the engine does not look at it.
pub record Bindings : Type 0 where
  pub members : Dict (List String)
  pub roster : List String
  pub referee : Option String

pub record MachineState : Type 0 where
  pub state : String
  pub actor : Option String
  pub actor_since : ℕ
  pub values : Dict Value
  pub owner_data : Dict (Dict Value)
  pub sets : Dict StrSet
  pub revealed : Dict StrSet

abbrev pub is_owner : Visibility → Bool
is_owner Visibility.owner = true
is_owner _ = false

-- An empty entry for each declared key that passes the test.
abbrev pub empties {ℓ} : {V : Type ℓ} → (DataDef → Bool) → V → Dict DataDef → Dict V
empties p v [] = []
empties p v ((k, d) ∷ ds) = if p d then (k, v) ∷ empties p v ds else empties p v ds

unfoldable pub initial_state : MachineDef → Bindings → ℕ → MachineState
initial_state defn bindings now_ms = record {
  state = defn.initial;
  actor = none;
  actor_since = now_ms;
  values = [];
  owner_data = empties (λ d. is_owner d.visibility) [] defn.data_defs;
  sets = empties (λ d. is_set_type d.type) [] defn.data_defs;
  revealed = empties (λ d. is_owner d.visibility) [] defn.data_defs;
}

-- `state.sets.get(key, set())`, and the same for the other tables.
abbrev pub set_of : MachineState → String → StrSet
set_of state key = or_else (lookup key state.sets) []

abbrev pub members_of : Bindings → String → List String
members_of bindings role = or_else (lookup role bindings.members) []

unfoldable pub roles_of : Bindings → String → List String
roles_of bindings agent = keys (select (λ e. contains agent e.1) bindings.members)

-- `_is_referee`
unfoldable pub is_referee : MachineDef → Bindings → String → Bool
unfolding roles_of
is_referee defn bindings caller = any (is_referee_role defn) (roles_of bindings caller)

-- The inputs of one call. A wake rule is evaluated with no caller and no arguments.
pub record Ctx : Type 0 where
  pub caller : Option String
  pub args : Dict Value
  pub escrow : Dict StrSet

abbrev pub text_or_null : Option String → Value
text_or_null none = null
text_or_null (some s) = str s

abbrev pub value_or_null : Option Value → Value
value_or_null none = null
value_or_null (some v) = v

resolve_text : String → Ctx → MachineState → Value
resolve_text s ctx state =
    if s == "$caller" then text_or_null ctx.caller else elim (strip_prefix "$args." s) [
      | some name ↦ value_or_null (lookup name ctx.args)
      | none ↦ elim (strip_prefix "$data." s) [
        | some key ↦
            if key == "actor"
            then text_or_null state.actor
            else value_or_null (lookup key state.values)
        | none ↦ str s
      ]
    ]

unfoldable pub resolve : Value → Ctx → MachineState → Value
unfolding resolve_text
resolve (str s) ctx state = resolve_text s ctx state
resolve v ctx state = v

-- `d[k]` on a clause's argument.
abbrev pub required : String → Fields → Py Value
required k d = or_raise (get k d) key_error

-- `d.get(v, default)` on a table with text keys: a list or an object cannot be hashed, and no
-- other value that is not a text is a key.
abbrev pub lookup_value {ℓ} : {V : Type ℓ} → Value → Dict V → V → Py V
lookup_value (str s) d z = ok (or_else (lookup s d) z)
lookup_value (list _) d z = raised type_error
lookup_value (dict _) d z = raised type_error
lookup_value _ d z = ok z

abbrev pub characters : String → Items
characters String.[] = nil
characters (String.◌∷◌ c s) = cons (str (String.◌∷◌ c String.[])) (characters s)

abbrev pub key_items : Fields → Items
key_items end = nil
key_items (field k v d) = cons (str k) (key_items d)

-- What `for s in v` goes through.
abbrev pub iterate : Value → Py Items
iterate (list xs) = ok xs
iterate (str s) = ok (characters s)
iterate (dict d) = ok (key_items d)
iterate _ = raised type_error

-- `for s in minus: members -= state.sets.get(s, set())`
abbrev pub minus_sets : Dict StrSet → Items → StrSet → Py StrSet
minus_sets sets nil members = ok members
minus_sets sets (cons s rest) members = do
  taken ← lookup_value s sets []
  minus_sets sets rest (minus members taken)

-- `a.get("minus", [])`
abbrev pub minus_arg : Fields → Value
minus_arg a = or_else (get "minus" a) (list nil)

unfoldable pub expected : Bindings → MachineState → Value → Value → Py StrSet
expected bindings state over minus = do
  members ← lookup_value over bindings.members []
  names ← iterate minus
  minus_sets state.sets names (of_list members)
