-- ===== src/Timeline/Changes.antt =====
-- What moved between two views (src/bearpit/realmtools/timeline.py, `diff_views`). A view holds
-- declared keys only, so the fallback of the source for an undeclared key is left out.
use bearpit.Base.{
  String, Bool, true, false, ◌&&◌, ◌||◌, List, [], ◌∷◌, ◌++◌, Option, none, some, if◌then◌else◌,
  ◌==◌,
}
use bearpit.Base.Dict.{Dict, lookup, keys}
use bearpit.Base.StrSet.{of_list, minus, union, sorted}
use bearpit.Base.Outcome.{Py, ok, raised, type_error, attribute_error, ◌>>=◌}
use bearpit.Base.{eqb}
use bearpit.Value.{
  Value, null, bool, int, negative, str, list, dict, nil, cons, Fields, end, field, get, value_eq,
}
use bearpit.Machine.Decl.{MachineDef, DataDef, is_set_type}
use bearpit.Machine.State.{value_or_null, is_owner}
use bearpit.Machine.View.{View, Shown, members, plain, owned}

pub data Change : Type 0 where
  state_moved : String → String → Change
  actor_moved : Option String → Option String → Change
  set_moved : String → List String → List String → Change
  owner_moved : String → String → Value → Value → Change
  map_moved : String → String → Value → Value → Change
  value_moved : String → Value → Value → Change

abbrev pub has_value : Value → Option Value → Bool
has_value v none = false
has_value v (some w) = value_eq v w

abbrev pub same_name : Option String → Option String → Bool
same_name none none = true
same_name (some a) (some b) = a == b
same_name _ _ = false

-- Python's `==` of two dicts.
abbrev pub entries_in : Dict Value → Dict Value → Bool
entries_in [] e = true
entries_in ((k, v) ∷ d) e = has_value v (lookup k e) && entries_in d e

abbrev pub same_lists : List String → List String → Bool
same_lists [] [] = true
same_lists (a ∷ x) (b ∷ y) = a == b && same_lists x y
same_lists _ _ = false

abbrev pub same_shown : Option Shown → Option Shown → Bool
same_shown none none = true
same_shown none (some (plain v)) = value_eq null v
same_shown (some (plain v)) none = value_eq v null
same_shown (some (members x)) (some (members y)) = same_lists x y
same_shown (some (plain v)) (some (plain w)) = value_eq v w
same_shown (some (owned d)) (some (owned e)) = entries_in d e && entries_in e d
same_shown _ _ = false

-- `bv or []`, `bv or {}`
abbrev pub members_in : Option Shown → List String
members_in (some (members x)) = x
members_in _ = []

abbrev pub owners_in : Option Shown → Dict Value
owners_in (some (owned d)) = d
owners_in _ = []

abbrev pub plain_in : Option Shown → Value
plain_in (some (plain v)) = v
plain_in _ = null

-- `bv or {}`, of which the names and entries are then asked: a value that is neither empty nor an
-- object has none and raises, one exception or another.
abbrev pub mapping_of : Value → Py Fields
mapping_of (dict d) = ok d
mapping_of null = ok end
mapping_of (bool b) = if b then raised type_error else ok end
mapping_of (int n) = if eqb n 0 then ok end else raised type_error
mapping_of (negative n) = raised type_error
mapping_of (str s) = if s == "" then ok end else raised attribute_error
mapping_of (list nil) = ok end
mapping_of (list (cons v xs)) = raised attribute_error

abbrev pub is_object : Value → Bool
is_object (dict d) = true
is_object _ = false

abbrev pub field_names : Fields → List String
field_names end = []
field_names (field k v d) = k ∷ field_names d

-- `sorted(set(x) | set(y))`
abbrev pub all_names : List String → List String → List String
all_names x y = sorted (union (of_list x) (of_list y))

abbrev pub owner_changes : String → Dict Value → Dict Value → List String → List Change
owner_changes key b a [] = []
owner_changes key b a (o ∷ os) =
    let rest = owner_changes key b a os in
    if value_eq (value_or_null (lookup o b)) (value_or_null (lookup o a))
    then rest
    else owner_moved key o (value_or_null (lookup o b)) (value_or_null (lookup o a)) ∷ rest

abbrev pub map_changes : String → Fields → Fields → List String → List Change
map_changes key b a [] = []
map_changes key b a (e ∷ es) =
    let rest = map_changes key b a es in
    if value_eq (value_or_null (get e b)) (value_or_null (get e a))
    then rest
    else map_moved key e (value_or_null (get e b)) (value_or_null (get e a)) ∷ rest

abbrev pub set_change : String → List String → List String → Change
set_change key b a =
    set_moved key (sorted (minus (of_list a) (of_list b))) (sorted (minus (of_list b) (of_list a)))

abbrev pub entry_changes : String → Fields → Fields → List Change
entry_changes key b a = map_changes key b a (all_names (field_names b) (field_names a))

abbrev pub plain_changes : String → Value → Value → Py (List Change)
plain_changes key b a =
    if is_object b || is_object a
    then (do before ← mapping_of b; after ← mapping_of a; ok (entry_changes key before after))
    else ok (value_moved key b a ∷ [])

-- The kind of a change is that of the declaration.
abbrev pub key_changes : Option DataDef → String → Option Shown → Option Shown → Py (List Change)
key_changes none key b a = ok []
key_changes (some d) key b a =
    if same_shown b a
    then ok []
    else if is_set_type d.type
    then ok (set_change key (members_in b) (members_in a) ∷ [])
    else if is_owner d.visibility
    then ok (
        owner_changes key (owners_in b) (owners_in a)
          (all_names (keys (owners_in b)) (keys (owners_in a))))
    else plain_changes key (plain_in b) (plain_in a)

abbrev pub data_changes : MachineDef → Dict Shown → Dict Shown → List String → Py (List Change)
data_changes defn b a [] = ok []
data_changes defn b a (key ∷ rest) = do
  here ← key_changes (lookup key defn.data_defs) key (lookup key b) (lookup key a)
  others ← data_changes defn b a rest
  ok (here ++ others)

abbrev pub state_change : View → View → List Change
state_change b a = if b.state == a.state then [] else state_moved b.state a.state ∷ []

abbrev pub actor_change : View → View → List Change
actor_change b a = if same_name b.actor a.actor then [] else actor_moved b.actor a.actor ∷ []

unfoldable pub diff_views : MachineDef → View → View → Py (List Change)
unfolding value_eq
diff_views defn b a = do
  changes ← data_changes defn b.shown a.shown (all_names (keys b.shown) (keys a.shown))
  ok (state_change b a ++ (actor_change b a ++ changes))
