-- ===== src/Machine/Validate.antt =====
-- The launch-time checks of a declaration (src/bearpit/core/machine.py, the validators of
-- `MachineDef`). A check passes, refuses with a `ValueError`, or crashes with another exception.

use bearpit.Base.{
  String, Bool, true, false, not, ◌&&◌, ◌||◌, Option, none, some, List, [], ◌∷◌, ◌==◌, contains,
  any, is_empty, strip_prefix,
}
use bearpit.Base.Dict.{Dict, lookup, has_key}
use bearpit.Base.Outcome.{Exn, type_error, Py, ok, raised}
use bearpit.Value.{Value, str, list, dict, get_or_null, py_str}
use bearpit.Machine.Decl.{
  Visibility, DataDef, PointerDef, GuardName, EffectName, Effect, TransitionDef, MachineDef, is_set,
  is_set_type, fields_of,
}
use bearpit.Machine.State.{is_owner}

-- What a refusal is about; the texts, which name the transition and the key, are left out.
pub data Refusal : Type 0 where
  initial_undeclared terminal_undeclared pointer_role_undeclared skip_not_set : Refusal
  owner_set from_undeclared to_undeclared by_undeclared unknown_guard unknown_effect : Refusal
  effect_needs_set unset_of_set set_undeclared set_of_owner set_copies_hidden : Refusal
  reveal_needs_owner initial_has_no_exit terminal_unreachable : Refusal
  effect_not_permitted add_to_not_caller reveal_not_caller hidden_role_public_log : Refusal
  wake_role_undeclared wake_role_hidden wake_role_bare actor_after_s after_s_too_low : Refusal
  wake_guard_reads_caller : Refusal
  guard_needs_key guard_key_undeclared guard_needs_set round_undeclared count_not_literal : Refusal
  over_undeclared minus_not_set guard_reads_hidden : Refusal

pub data Verdict : Type 0 where
  passes : Verdict
  refuses : Refusal → Verdict
  crashes : Exn → Verdict

infixr 30 ◌then_check◌
abbrev pub ◌then_check◌ : Verdict → Verdict → Verdict
passes then_check v = v
refuses r then_check v = refuses r
crashes e then_check v = crashes e

abbrev pub require : Bool → Refusal → Verdict
require true r = passes
require false r = refuses r

abbrev pub for_all {ℓ} : {A : Type ℓ} → (A → Verdict) → List A → Verdict
for_all f [] = passes
for_all f (x ∷ xs) = f x then_check for_all f xs

-- `x in d` for a dict with text keys.
abbrev pub in_dict {ℓ} : {V : Type ℓ} → Value → Dict V → Py Bool
in_dict (str s) d = ok (has_key s d)
in_dict (list _) d = raised type_error
in_dict (dict _) d = raised type_error
in_dict _ d = ok false

abbrev pub require_py : Py Bool → Refusal → Verdict
require_py (raised e) r = crashes e
require_py (ok b) r = require b r

abbrev pub known_guard : GuardName → Bool
known_guard (GuardName.unknown n) = false
known_guard _ = true

abbrev pub known_effect : EffectName → Bool
known_effect (EffectName.unknown n) = false
known_effect _ = true

-- `e.arg.get(k) if isinstance(e.arg, dict) else None`
abbrev pub arg_key : String → Value → Value
arg_key k arg = get_or_null k (fields_of arg)

-- `value[6:] if isinstance(value, str) and value.startswith("$data.") else None`
abbrev pub data_source : Value → Option String
data_source (str s) = strip_prefix "$data." s
data_source _ = none

abbrev pub visible_to_all : Visibility → Bool
visible_to_all Visibility.public = true
visible_to_all _ = false

-- A `set` that copies a hidden key into a public one.
abbrev pub copies_hidden : MachineDef → DataDef → Value → Bool
copies_hidden defn target value = elim (data_source value) [
  | none ↦ false
  | some src ↦ elim (lookup src defn.data_defs) [
    | none ↦ false
    | some source ↦ not (visible_to_all source.visibility) && visible_to_all target.visibility
  ]
]

abbrev pub check_set : MachineDef → Value → Verdict
check_set defn arg =
    require_py (in_dict (arg_key "key" arg) defn.data_defs) set_undeclared
    then_check elim (lookup (py_str (arg_key "key" arg)) defn.data_defs) [
      | none ↦ passes
      | some d ↦
          require (not (is_owner d.visibility)) set_of_owner
          then_check require (not (copies_hidden defn d (arg_key "value" arg))) set_copies_hidden
    ]

abbrev pub owner_key : MachineDef → String → Bool
owner_key defn key = elim (lookup key defn.data_defs) [
  | none ↦ false
  | some d ↦ is_owner d.visibility
]

-- `_check_effect_keys`
abbrev pub check_effect_keys : MachineDef → EffectName → Value → Verdict
check_effect_keys defn EffectName.reset arg = require (is_set defn (py_str arg)) effect_needs_set
check_effect_keys defn EffectName.add_to arg =
    require (is_set defn (py_str (arg_key "key" arg))) effect_needs_set
check_effect_keys defn EffectName.remove_from arg =
    require (is_set defn (py_str (arg_key "key" arg))) effect_needs_set
check_effect_keys defn EffectName.unset arg = require (not (is_set defn (py_str arg))) unset_of_set
check_effect_keys defn EffectName.set arg = check_set defn arg
check_effect_keys defn EffectName.reveal arg =
    require (owner_key defn (py_str (arg_key "key" arg))) reveal_needs_owner
check_effect_keys defn _ arg = passes

abbrev pub declared_state : MachineDef → String → String → Bool
declared_state defn wildcard s = s == wildcard || contains s defn.states

abbrev pub check_from : MachineDef → TransitionDef → Verdict
check_from defn t = for_all (λ s. require (declared_state defn "any" s) from_undeclared) t.from

abbrev pub check_to : MachineDef → TransitionDef → Verdict
check_to defn t = require (declared_state defn "same" t.to) to_undeclared

abbrev pub check_by : MachineDef → TransitionDef → Verdict
check_by defn t = require (has_key t.by defn.roles) by_undeclared

abbrev pub check_guards_known : TransitionDef → Verdict
check_guards_known t = for_all (λ g. require (known_guard g.name) unknown_guard) t.guard

abbrev pub check_effect : MachineDef → Effect → Verdict
check_effect defn e =
    require (known_effect e.name) unknown_effect then_check check_effect_keys defn e.name e.arg

abbrev pub check_transition : MachineDef → String × TransitionDef → Verdict
check_transition defn (name, t) =
    check_from defn t
    then_check check_to defn t
    then_check check_by defn t
    then_check check_guards_known t
    then_check for_all (check_effect defn) t.effects

abbrev pub check_pointer : MachineDef → Option PointerDef → Verdict
check_pointer defn none = passes
check_pointer defn (some p) =
    require (has_key p.over defn.roles) pointer_role_undeclared
    then_check for_all (λ s. require (is_set defn s) skip_not_set) p.skip

abbrev pub leaves_initial : MachineDef → String × TransitionDef → Bool
leaves_initial defn (name, t) = contains "any" t.from || contains defn.initial t.from

abbrev pub check_initial : MachineDef → Verdict
check_initial defn = require (contains defn.initial defn.states) initial_undeclared

abbrev pub check_terminal : MachineDef → Verdict
check_terminal defn =
    for_all (λ t. require (contains t defn.states) terminal_undeclared) defn.terminal

abbrev pub check_data : MachineDef → Verdict
check_data defn =
    for_all (λ e. require (not (is_owner e.1.visibility && is_set_type e.1.type)) owner_set)
      defn.data_defs

-- A machine that nobody can start, and a declared ending that nothing leads to.
abbrev pub check_reachable : MachineDef → Verdict
check_reachable defn =
    require (any (leaves_initial defn) defn.transitions) initial_has_no_exit
    then_check require
        (is_empty defn.terminal || any (λ e. contains e.1.to defn.terminal) defn.transitions)
        terminal_unreachable

-- `_structure`
unfoldable pub structure : MachineDef → Verdict
structure defn =
    check_initial defn
    then_check check_terminal defn
    then_check check_pointer defn defn.actor
    then_check check_data defn
    then_check for_all (check_transition defn) defn.transitions
    then_check check_reachable defn
