-- ===== src/Machine/Authority/GuardRules.antt =====
-- What a guard may read (src/bearpit/core/machine.py, `_check_guard` and the tables of guard names).
use bearpit.Base.{
  String, Bool, true, false, not, ◌&&◌, ◌||◌, Option, none, some, ◌==◌, if◌then◌else◌, or_else,
}
use bearpit.Base.Dict.{lookup, has_key}
use bearpit.Base.Outcome.{type_error, Py, ok, raised}
use bearpit.Value.{
  Value, null, int, negative, str, list, dict, Items, nil, cons, Fields, get, get_or_null, py_str,
}
use bearpit.Machine.Decl.{Visibility, GuardName, Guard, MachineDef, is_set, fields_of}
use bearpit.Machine.State.{iterate, minus_arg}
use bearpit.Machine.Validate.{
  Refusal, Verdict, passes, crashes, ◌then_check◌, require, require_py, in_dict, data_source,
}

abbrev pub reads_key : GuardName → Bool
reads_key GuardName.data_equals = true
reads_key GuardName.data_present = true
reads_key GuardName.data_set_empty = true
reads_key GuardName.data_set_full = true
reads_key GuardName.caller_in = true
reads_key GuardName.caller_not_in = true
reads_key _ = false

abbrev pub reads_set : GuardName → Bool
reads_set GuardName.caller_in = true
reads_set GuardName.caller_not_in = true
reads_set GuardName.data_set_empty = true
reads_set GuardName.data_set_full = true
reads_set _ = false

abbrev pub reads_hidden : GuardName → Bool
reads_hidden GuardName.caller_in = true
reads_hidden GuardName.caller_not_in = true
reads_hidden GuardName.data_equals = true
reads_hidden GuardName.data_set_empty = true
reads_hidden GuardName.data_set_full = true
reads_hidden _ = false

-- The guards that may name the pointer by the key `actor`.
abbrev pub may_read_actor : GuardName → Bool
may_read_actor GuardName.data_equals = true
may_read_actor GuardName.data_present = true
may_read_actor _ = false

abbrev pub reads_caller : GuardName → Bool
reads_caller GuardName.caller_is_actor = true
reads_caller GuardName.caller_in = true
reads_caller GuardName.caller_not_in = true
reads_caller _ = false

-- The key of a guard: under `key` in an object, else the argument itself.
abbrev pub guard_key : Value → Value
guard_key (dict d) = get_or_null "key" d
guard_key v = v

abbrev pub is_null : Value → Bool
is_null null = true
is_null _ = false

abbrev pub known_key : MachineDef → GuardName → Value → Bool
known_key defn name (str k) = has_key k defn.data_defs || (k == "actor" && may_read_actor name)
known_key defn name _ = true

abbrev pub check_key : MachineDef → GuardName → Value → Verdict
check_key defn name key =
    if reads_key name
    then (require (not (is_null key)) Refusal.guard_needs_key
        then_check require (known_key defn name key) Refusal.guard_key_undeclared
        then_check require (not (reads_set name) || is_set defn (py_str key))
            Refusal.guard_needs_set)
    else passes

abbrev pub is_escrow : GuardName → Bool
is_escrow GuardName.escrow_complete = true
is_escrow _ = false

abbrev pub is_count : GuardName → Bool
is_count GuardName.members_count = true
is_count _ = false

abbrev pub needs_over : GuardName → Bool
needs_over GuardName.data_set_full = true
needs_over GuardName.escrow_complete = true
needs_over _ = false

abbrev pub known_round : MachineDef → Option String → Bool
known_round defn none = true
known_round defn (some k) = k == "actor" || has_key k defn.data_defs

abbrev pub check_round : MachineDef → GuardName → Fields → Verdict
check_round defn name a =
    if is_escrow name
    then require (known_round defn (data_source (get_or_null "round" a))) Refusal.round_undeclared
    else passes

-- The first bound that is given, of `equals`, `at_most` and `at_least`.
abbrev pub first_given : Option Value → Option Value → Option Value → Value
first_given (some v) _ _ = v
first_given none (some v) _ = v
first_given none none o = or_else o null

abbrev pub first_bound : Fields → Value
first_bound a = first_given (get "equals" a) (get "at_most" a) (get "at_least" a)

abbrev pub is_int : Value → Bool
is_int (int n) = true
is_int (negative n) = true
is_int _ = false

abbrev pub check_count : MachineDef → GuardName → Fields → Verdict
check_count defn name a =
    if is_count name
    then (require (is_int (first_bound a)) Refusal.count_not_literal
        then_check require_py (in_dict (get_or_null "over" a) defn.roles) Refusal.over_undeclared)
    else passes

abbrev pub check_over : MachineDef → GuardName → Fields → Verdict
check_over defn name a =
    if needs_over name
    then require_py (in_dict (get_or_null "over" a) defn.roles) Refusal.over_undeclared
    else passes

abbrev pub is_set_value : MachineDef → Value → Py Bool
is_set_value defn (str s) = ok (is_set defn s)
is_set_value defn (list _) = raised type_error
is_set_value defn (dict _) = raised type_error
is_set_value defn _ = ok false

abbrev pub check_minus : MachineDef → Items → Verdict
check_minus defn nil = passes
check_minus defn (cons s rest) =
    require_py (is_set_value defn s) Refusal.minus_not_set then_check check_minus defn rest

abbrev pub check_minus_arg : MachineDef → Py Items → Verdict
check_minus_arg defn (raised e) = crashes e
check_minus_arg defn (ok xs) = check_minus defn xs

abbrev pub is_referee_only : Visibility → Bool
is_referee_only Visibility.referee = true
is_referee_only _ = false

-- A key that only the referee reads.
abbrev pub hidden_key : MachineDef → Value → Bool
hidden_key defn (str k) = elim (lookup k defn.data_defs) [
  | none ↦ false
  | some d ↦ is_referee_only d.visibility
]
hidden_key defn _ = false

-- `_check_guard`
unfoldable pub check_guard : MachineDef → Bool → Guard → Verdict
check_guard defn public_log g =
    check_key defn g.name (guard_key g.arg)
    then_check check_round defn g.name (fields_of g.arg)
    then_check check_count defn g.name (fields_of g.arg)
    then_check check_over defn g.name (fields_of g.arg)
    then_check check_minus_arg defn (iterate (minus_arg (fields_of g.arg)))
    then_check require
        (not (public_log && reads_hidden g.name && hidden_key defn (guard_key g.arg)))
        Refusal.guard_reads_hidden
