-- ===== src/Machine/Guards.antt =====
-- Guards (src/bearpit/realmtools/machine.py, `check_guard` and `guards_hold`).
use bearpit.Base.{
  ℕ, String, Bool, true, false, not, Option, none, some, List, [], ◌∷◌, ◌==◌, contains, length, leb,
  is_empty, if◌then◌else◌, or_else,
}
use bearpit.Base.Dict.{lookup, has_key}
use bearpit.Base.StrSet.{StrSet, subset}
use bearpit.Base.Outcome.{Py, ok, raised, type_error, value_error, ◌>>=◌}
use bearpit.Value.{Value, bool, int, negative, str, Fields, get, get_or_null, value_eq, py_str}
use bearpit.Machine.Decl.{GuardName, Guard, fields_of}
use bearpit.Machine.State.{
  Bindings, MachineState, Ctx, set_of, required, minus_arg, expected, resolve, text_or_null,
  value_or_null,
}

abbrev pub same_actor : Option String → Option String → Bool
same_actor none none = true
same_actor (some a) (some b) = a == b
same_actor _ _ = false

-- `ctx.caller in s`
abbrev pub contains_opt : Option String → StrSet → Bool
contains_opt none s = false
contains_opt (some a) s = contains a s

abbrev pub caller_is_actor : Option String → Option String → Bool
caller_is_actor none actor = false
caller_is_actor (some c) actor = same_actor actor (some c)

-- The value at a key, where the reserved key `actor` is the pointer.
abbrev pub read_key : Value → MachineState → Value
read_key key state =
    if value_eq key (str "actor")
    then text_or_null state.actor
    else value_or_null (lookup (py_str key) state.values)

-- `n <= v`, `n >= v`: with anything but a number, a TypeError.
abbrev pub at_most : ℕ → Value → Py Bool
at_most n (int k) = ok (leb n k)
at_most n (negative k) = ok false
at_most n (bool true) = ok (leb n 1)
at_most n (bool false) = ok (leb n 0)
at_most n _ = raised type_error

abbrev pub at_least : ℕ → Value → Py Bool
at_least n (int k) = ok (leb k n)
at_least n (negative k) = ok true
at_least n (bool true) = ok (leb 1 n)
at_least n (bool false) = ok (leb 0 n)
at_least n _ = raised type_error

-- `equals`, `at_most`, `at_least`: the first that the argument gives.
abbrev pub bound_holds : ℕ → Option Value → Option Value → Option Value → Py Bool
bound_holds n (some v) _ _ = ok (value_eq (int n) v)
bound_holds n none (some v) _ = at_most n v
bound_holds n none none (some v) = at_least n v
bound_holds n none none none = raised value_error

abbrev pub count_holds : ℕ → Fields → Py Bool
count_holds n a = bound_holds n (get "equals" a) (get "at_most" a) (get "at_least" a)

unfoldable pub check_guard_name : GuardName → Value → Bindings → MachineState → Ctx → Py Bool
check_guard_name GuardName.caller_is_actor arg bindings state ctx =
    ok (caller_is_actor ctx.caller state.actor)
check_guard_name GuardName.caller_in arg bindings state ctx =
    ok (contains_opt ctx.caller (set_of state (py_str arg)))
check_guard_name GuardName.caller_not_in arg bindings state ctx =
    ok (not (contains_opt ctx.caller (set_of state (py_str arg))))
check_guard_name GuardName.data_present arg bindings state ctx = ok (
    if value_eq arg (str "actor")
    then not (same_actor state.actor none)
    else has_key (py_str arg) state.values)
check_guard_name GuardName.data_equals arg bindings state ctx =
    let a = fields_of arg in
    ok (value_eq (read_key (get_or_null "key" a) state) (resolve (get_or_null "value" a) ctx state))
check_guard_name GuardName.data_set_empty arg bindings state ctx =
    ok (is_empty (set_of state (py_str arg)))
check_guard_name GuardName.members_count arg bindings state ctx = do
  over ← required "over" (fields_of arg)
  members ← expected bindings state over (minus_arg (fields_of arg))
  count_holds (length members) (fields_of arg)
check_guard_name GuardName.data_set_full arg bindings state ctx = do
  over ← required "over" (fields_of arg)
  members ← expected bindings state over (minus_arg (fields_of arg))
  key ← required "key" (fields_of arg)
  ok (subset members (set_of state (py_str key)))
check_guard_name GuardName.escrow_complete arg bindings state ctx = do
  over ← required "over" (fields_of arg)
  members ← expected bindings state over (minus_arg (fields_of arg))
  let round_id = resolve (get_or_null "round" (fields_of arg)) ctx state
  ok (subset members (or_else (lookup (py_str round_id) ctx.escrow) []))
check_guard_name (GuardName.unknown n) arg bindings state ctx = raised value_error

unfoldable pub check_guard : Guard → Bindings → MachineState → Ctx → Py Bool
unfolding check_guard_name
check_guard g bindings state ctx = check_guard_name g.name g.arg bindings state ctx

-- The first guard that fails, in order.
unfoldable pub guards_hold : List Guard → Bindings → MachineState → Ctx → Py (Option GuardName)
guards_hold [] bindings state ctx = ok none
guards_hold (g ∷ gs) bindings state ctx = do
  held ← check_guard g bindings state ctx
  if held then guards_hold gs bindings state ctx else ok (some g.name)
