-- ===== src/Machine/Effects.antt =====
-- Effects (src/bearpit/realmtools/machine.py, `apply_effect`).
use bearpit.Base.{
  ℕ, String, Option, none, some, List, [], ◌∷◌, ◌++◌, ◌==◌, contains, if◌then◌else◌, or_else,
}
use bearpit.Base.Dict.{Dict, lookup, insert, erase}
use bearpit.Base.StrSet.{StrSet, add, discard, union}
use bearpit.Base.Outcome.{Py, ok, raised, type_error, value_error, ◌>>=◌}
use bearpit.Value.{Value, null, str, list, dict, Fields, get_or_null, py_str}
use bearpit.Machine.Decl.{MachineDef, EffectName, Effect, fields_of}
use bearpit.Machine.State.{
  Bindings, MachineState, Ctx, set_of, members_of, required, minus_arg, expected, resolve,
}
use bearpit.Machine.Pointer.{Reason, Step, refused, stepped, advance_actor, set_actor}

abbrev pub all_members : Dict (List String) → List String
all_members [] = []
all_members ((r, ids) ∷ rest) = ids ++ all_members rest

-- The pointer's role, or `none` for any role; an empty role name counts as none.
abbrev pub pool_role : MachineDef → Option String
pool_role defn = elim defn.actor [
  | none ↦ none
  | some p ↦ if p.over == "" then none else some p.over
]

-- Who may be named by a value.
unfoldable pub pool : MachineDef → Bindings → List String
pool defn bindings = elim (pool_role defn) [
  | none ↦ all_members bindings.members
  | some role ↦ members_of bindings role
]

unfoldable pub member_or_reason : MachineDef → Bindings → Value → Py (Option Reason)
unfolding pool
member_or_reason defn bindings (str who) = ok (
    if contains who (pool defn bindings)
    then none
    else some (Reason.not_member (str who) (pool_role defn)))
member_or_reason defn bindings (list xs) = raised type_error
member_or_reason defn bindings (dict d) = raised type_error
member_or_reason defn bindings v = ok (some (Reason.not_member v (pool_role defn)))

-- `state.sets.setdefault(key, set())` with one member more, or less.
abbrev pub change_set : (String → StrSet → StrSet) → String → Value → MachineState → MachineState
change_set change key who state = record state {
  sets = insert key (change (py_str who) (set_of state key)) state.sets;
}

abbrev pub mark_unless :
    (String → StrSet → StrSet) → Fields → MachineState → Value → Option Reason → Py Step
mark_unless change a state who (some reason) = ok (refused reason)
mark_unless change a state who none = do
  key ← required "key" a
  ok (stepped (change_set change (py_str key) who state))

-- `add_to` and `remove_from`, for the value that was resolved.
unfoldable pub mark :
    (String → StrSet → StrSet) → Fields → MachineDef → Bindings → MachineState → Value → Py Step
mark change a defn bindings state who = do
  bad ← member_or_reason defn bindings who
  mark_unless change a state who bad

abbrev pub one_owner : Value → StrSet
one_owner null = []
one_owner v = py_str v ∷ []

-- Whose entries `reveal` shows: those left of a role, or the one that the value names.
unfoldable pub reveal_owners : Value → Bindings → MachineState → Ctx → Py StrSet
reveal_owners (dict sel) bindings state ctx = do
  over ← required "over" sel
  expected bindings state over (minus_arg sel)
reveal_owners sel bindings state ctx = ok (one_owner (resolve sel ctx state))

abbrev pub actor_arg : Value → Option String
actor_arg null = none
actor_arg v = some (py_str v)

abbrev pub marked_value : Value → Ctx → MachineState → Value
marked_value arg ctx state = resolve (get_or_null "value" (fields_of arg)) ctx state

unfoldable pub apply_named :
    EffectName → Value → MachineDef → Bindings → MachineState → Ctx → ℕ → Py Step
unfolding mark reveal_owners
apply_named EffectName.advance_actor arg defn bindings state ctx now_ms =
    ok (stepped (advance_actor defn bindings state now_ms))
apply_named EffectName.add_to arg defn bindings state ctx now_ms =
    mark add (fields_of arg) defn bindings state (marked_value arg ctx state)
apply_named EffectName.remove_from arg defn bindings state ctx now_ms =
    mark discard (fields_of arg) defn bindings state (marked_value arg ctx state)
apply_named EffectName.reset arg defn bindings state ctx now_ms =
    ok (stepped (record state { sets = insert (py_str arg) [] state.sets }))
apply_named EffectName.set arg defn bindings state ctx now_ms = do
  key ← required "key" (fields_of arg)
  ok (
      stepped
        (record state { values = insert (py_str key) (marked_value arg ctx state) state.values }))
apply_named EffectName.unset arg defn bindings state ctx now_ms =
    ok (stepped (record state { values = erase (py_str arg) state.values }))
apply_named EffectName.set_actor arg defn bindings state ctx now_ms =
    ok (set_actor defn bindings state (actor_arg (resolve arg ctx state)) now_ms)
apply_named EffectName.reveal arg defn bindings state ctx now_ms = do
  key ← required "key" (fields_of arg)
  owners ← reveal_owners (get_or_null "owners" (fields_of arg)) bindings state ctx
  let shown = or_else (lookup (py_str key) state.revealed) []
  ok (stepped (record state { revealed = insert (py_str key) (union owners shown) state.revealed }))
apply_named (EffectName.unknown n) arg defn bindings state ctx now_ms = raised value_error

unfoldable pub apply_effect : Effect → MachineDef → Bindings → MachineState → Ctx → ℕ → Py Step
unfolding apply_named
apply_effect e defn bindings state ctx now_ms =
    apply_named e.name e.arg defn bindings state ctx now_ms

abbrev pub and_then : Step → (MachineState → Py Step) → Py Step
and_then (refused reason) rest = ok (refused reason)
and_then (stepped next) rest = rest next

-- The loop of `act` over the effects of a transition: the first refusal ends it.
unfoldable pub apply_effects :
    List Effect → MachineDef → Bindings → MachineState → Ctx → ℕ → Py Step
apply_effects [] defn bindings state ctx now_ms = ok (stepped state)
apply_effects (e ∷ es) defn bindings state ctx now_ms = do
  step ← apply_effect e defn bindings state ctx now_ms
  and_then step (λ next. apply_effects es defn bindings next ctx now_ms)
