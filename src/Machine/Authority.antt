-- ===== src/Machine/Authority.antt =====
-- The second half of the launch-time checks (src/bearpit/core/machine.py,
-- `_authority_and_visibility` and `_check_guard`): what a role may do, and what a guard may read.
mod GuardRules
unfoldable pub use GuardRules.*
use bearpit.Base.{
  ℕ, String, Bool, true, false, not, ◌&&◌, ◌||◌, Option, none, some, ◌++◌, ◌==◌, any, is_some,
  is_empty, ltb, if◌then◌else◌, or_else, eqb,
}
use bearpit.Base.Dict.{lookup, has_key}
use bearpit.Base.Outcome.{key_error, type_error, attribute_error, Py, ok, raised}
use bearpit.Value.{
  Value, null, bool, int, negative, str, list, dict, Items, nil, cons, Fields, get, get_or_null,
  py_str, value_eq,
}
use bearpit.Machine.Decl.{
  Openness, RoleDef, Visibility, GuardName, EffectName, Guard, Effect, Log, TransitionDef, WakeRule,
  MachineDef, is_set, is_referee_members, fields_of,
}
use bearpit.Machine.State.{iterate, minus_arg}
use bearpit.Machine.Validate.{
  Refusal, Verdict, passes, crashes, ◌then_check◌, require, require_py, for_all, in_dict,
  data_source, structure,
}

abbrev pub after_s_floor : ℕ
after_s_floor = 240

abbrev pub same_effect : EffectName → EffectName → Bool
same_effect EffectName.advance_actor EffectName.advance_actor = true
same_effect EffectName.add_to EffectName.add_to = true
same_effect EffectName.remove_from EffectName.remove_from = true
same_effect EffectName.reset EffectName.reset = true
same_effect EffectName.set EffectName.set = true
same_effect EffectName.unset EffectName.unset = true
same_effect EffectName.set_actor EffectName.set_actor = true
same_effect EffectName.reveal EffectName.reveal = true
same_effect (EffectName.unknown a) (EffectName.unknown b) = a == b
same_effect _ _ = false

-- `SAFE_EFFECTS`
abbrev pub is_safe_effect : EffectName → Bool
is_safe_effect EffectName.advance_actor = true
is_safe_effect EffectName.add_to = true
is_safe_effect EffectName.reveal = true
is_safe_effect _ = false

abbrev pub opted_in : MachineDef → EffectName → Bool
opted_in defn e = any (same_effect e) defn.participant_effects

-- `(e.arg or {}).get(k)`: what is false counts as an empty object, and anything else that is no
-- object has no `get`.
abbrev pub arg_or_empty : String → Value → Py Value
arg_or_empty k (dict d) = ok (get_or_null k d)
arg_or_empty k null = ok null
arg_or_empty k (bool false) = ok null
arg_or_empty k (int n) = if eqb n 0 then ok null else raised attribute_error
arg_or_empty k (str s) = if s == "" then ok null else raised attribute_error
arg_or_empty k (list nil) = ok null
arg_or_empty k _ = raised attribute_error

abbrev pub is_caller : Py Value → Py Bool
is_caller (raised e) = raised e
is_caller (ok v) = ok (value_eq v (str "$caller"))

-- What a participant may do with an effect that nobody opted in.
abbrev pub own_mark : MachineDef → EffectName → Value → Verdict
own_mark defn EffectName.add_to arg =
    if opted_in defn EffectName.add_to
    then passes
    else require_py (is_caller (arg_or_empty "value" arg)) Refusal.add_to_not_caller
own_mark defn EffectName.reveal arg =
    if opted_in defn EffectName.reveal
    then passes
    else require_py (is_caller (arg_or_empty "owners" arg)) Refusal.reveal_not_caller
own_mark defn _ arg = passes

abbrev pub participant_effect : MachineDef → Effect → Verdict
participant_effect defn e =
    require (is_safe_effect e.name || opted_in defn e.name) Refusal.effect_not_permitted
    then_check own_mark defn e.name e.arg

abbrev pub is_hidden : Openness → Bool
is_hidden Openness.hidden = true
is_hidden Openness.public = false

abbrev pub public_log : Log → Bool
public_log Log.public = true
public_log Log.referee = false

abbrev pub check_effects : MachineDef → TransitionDef → RoleDef → Verdict
check_effects defn t role =
    if is_referee_members role.members then passes else for_all (participant_effect defn) t.effects

abbrev pub check_log : TransitionDef → RoleDef → Verdict
check_log t role =
    require (not (is_hidden role.visibility && public_log t.log)) Refusal.hidden_role_public_log

abbrev pub check_guards : MachineDef → TransitionDef → Verdict
check_guards defn t = for_all (check_guard defn (public_log t.log)) t.guard

-- The role exists: `_structure` has refused the declaration otherwise.
abbrev pub check_role : MachineDef → TransitionDef → Option RoleDef → Verdict
check_role defn t none = crashes key_error
check_role defn t (some role) =
    check_effects defn t role then_check check_log t role then_check check_guards defn t

abbrev pub check_authority : MachineDef → String × TransitionDef → Verdict
check_authority defn (name, t) = check_role defn t (lookup t.by defn.roles)

abbrev pub names_role : MachineDef → String → Bool
names_role defn r = r == "actor" || has_key r defn.roles

-- A rule for a declared role is not for a hidden one.
abbrev pub wakes_hidden : MachineDef → String → Bool
wakes_hidden defn r =
    not (r == "actor")
    && elim (lookup r defn.roles) [ none ↦ false | some d ↦ is_hidden d.visibility ]

abbrev pub too_low : Option ℕ → Bool
too_low none = false
too_low (some s) = ltb s after_s_floor

abbrev pub check_wake_role : MachineDef → WakeRule → Verdict
check_wake_role defn w =
    require (names_role defn w.role) Refusal.wake_role_undeclared
    then_check require (not (wakes_hidden defn w.role)) Refusal.wake_role_hidden
    then_check require (w.role == "actor" || not (is_empty w.when) || is_some w.after_s)
        Refusal.wake_role_bare
    then_check require (not (w.role == "actor" && is_some w.after_s)) Refusal.actor_after_s
    then_check require (not (too_low w.after_s)) Refusal.after_s_too_low

abbrev pub check_wake_guard : MachineDef → Guard → Verdict
check_wake_guard defn g =
    require (not (reads_caller g.name)) Refusal.wake_guard_reads_caller
    then_check check_guard defn false g

abbrev pub check_wake : MachineDef → WakeRule → Verdict
check_wake defn w =
    check_wake_role defn w then_check for_all (check_wake_guard defn) (w.when ++ w.unless)

-- `_authority_and_visibility`
unfoldable pub authority : MachineDef → Verdict
unfolding check_guard
authority defn =
    for_all (check_authority defn) defn.transitions then_check for_all (check_wake defn) defn.wake

-- Pydantic runs the two validators in the order of their declaration.
unfoldable pub validate : MachineDef → Verdict
unfolding structure authority
validate defn = structure defn then_check authority defn
