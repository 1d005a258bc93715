-- ===== src/Machine/View.antt =====
-- What a caller sees of a state and of the log (src/bearpit/realmtools/machine.py, `view` and
-- `log_row`).
use bearpit.Base.{
  ℕ, String, Bool, true, false, ◌||◌, Option, none, some, List, [], ◌∷◌, ◌==◌, contains,
  if◌then◌else◌, or_else, select,
}
use bearpit.Base.Dict.{Dict, lookup}
use bearpit.Base.StrSet.{StrSet, sorted}
use bearpit.Value.{Value}
use bearpit.Machine.Decl.{MachineDef, DataDef, Visibility, DataType, Log}
use bearpit.Machine.State.{Bindings, MachineState, set_of, is_referee}
use bearpit.Machine.Rows.{Check, Payload, act_row, set_row, reject_row, other}

-- What stands at one key of a view.
pub data Shown : Type 0 where
  members : List String → Shown
  plain : Value → Shown
  owned : Dict Value → Shown

pub record View : Type 0 where
  pub state : String
  pub actor : Option String
  pub actor_since : ℕ
  pub shown : Dict Shown

-- The owner entries that the caller may read.
unfoldable pub owner_entries : Bool → String → StrSet → Dict Value → Dict Value
owner_entries ref caller open_to_all entries =
    select (λ e. ref || e.0 == caller || contains e.0 open_to_all) entries

abbrev pub plain_at : Option Value → Option Shown
plain_at none = none
plain_at (some v) = some (plain v)

-- The entry of one declared key, or `none` where the key is left out.
abbrev pub shown_value : Visibility → Bool → String → String → MachineState → Option Shown
shown_value Visibility.public ref caller key state = plain_at (lookup key state.values)
shown_value Visibility.referee ref caller key state =
    if ref then plain_at (lookup key state.values) else none
shown_value Visibility.owner ref caller key state = some (
    owned (
      owner_entries ref caller (or_else (lookup key state.revealed) [])
        (or_else (lookup key state.owner_data) [])))

abbrev pub is_public : Visibility → Bool
is_public Visibility.public = true
is_public _ = false

abbrev pub shown_type : DataType → Visibility → Bool → String → String → MachineState → Option Shown
shown_type DataType.set v ref caller key state =
    if is_public v || ref then some (members (sorted (set_of state key))) else none
shown_type DataType.value v ref caller key state = shown_value v ref caller key state

abbrev pub shown_at : DataDef → Bool → String → String → MachineState → Option Shown
shown_at d ref caller key state = shown_type d.type d.visibility ref caller key state

abbrev pub add_shown : String → Option Shown → Dict Shown → Dict Shown
add_shown key none rest = rest
add_shown key (some s) rest = (key, s) ∷ rest

-- The loop over the declared keys.
unfoldable pub shown_data : Dict DataDef → Bool → String → MachineState → Dict Shown
shown_data [] ref caller state = []
shown_data ((key, d) ∷ ds) ref caller state =
    add_shown key (shown_at d ref caller key state) (shown_data ds ref caller state)

unfoldable pub view : MachineDef → Bindings → MachineState → String → View
unfolding shown_data owner_entries
view defn bindings state caller = record {
  state = state.state;
  actor = state.actor;
  actor_since = state.actor_since;
  shown = shown_data defn.data_defs (is_referee defn bindings caller) caller state;
}

abbrev pub is_exists : Check → Bool
is_exists Check.exists = true
is_exists _ = false

abbrev pub is_public_log : Log → Bool
is_public_log Log.public = true
is_public_log Log.referee = false

abbrev pub same_owner : Option String → String → Bool
same_owner none caller = false
same_owner (some o) caller = o == caller

-- Whether a participant may read a row.
abbrev pub row_is_open : Payload → String → Bool
row_is_open (act_row r) caller = is_public_log r.log
row_is_open (reject_row r) caller =
    if is_exists r.check then r.caller == caller else is_public_log r.log
row_is_open (set_row r) caller = elim r.log [
  | Visibility.public ↦ true
  | Visibility.owner ↦ same_owner r.owner caller
  | Visibility.referee ↦ false
]
row_is_open (other op) caller = false

unfoldable pub log_row : MachineDef → Bindings → Payload → String → Option Payload
log_row defn bindings payload caller =
    if is_referee defn bindings caller
    then some payload
    else if row_is_open payload caller
    then some payload
    else none
