-- ===== src/Machine/Act.antt =====
-- Firing a transition and writing a value (src/bearpit/realmtools/machine.py, `compute_wakes`,
-- `act` and `set_value`).
mod Alarms
unfoldable pub use Alarms.*
use bearpit.Base.{
  ℕ, String, Bool, true, false, not, ◌&&◌, Option, none, some, List, [], ◌∷◌, ◌==◌, contains,
  if◌then◌else◌, or_else, is_some,
}
use bearpit.Base.Dict.{Dict, lookup, insert}
use bearpit.Base.StrSet.{StrSet, discard, union, sorted}
use bearpit.Base.Outcome.{Py, ok, ◌>>=◌}
use bearpit.Value.{Value, str}
use bearpit.Machine.Decl.{
  MachineDef, Guard, GuardName, WakeRule, TransitionDef, DataDef, is_set_type,
}
use bearpit.Machine.State.{Bindings, MachineState, Ctx, is_owner, members_of, roles_of, is_referee}
use bearpit.Machine.Pointer.{Reason, Step, refused, stepped}
use bearpit.Machine.Guards.{same_actor, guards_hold}
use bearpit.Machine.Rows.{
  Check, Detail, ActRow, SetRow, Payload, act_row, set_row, Answer, rejected, outcome,
}
use bearpit.Machine.Effects.{member_or_reason, apply_effects}

abbrev pub reject : Check → Detail → Py Answer
reject c d = ok (rejected (record { check = c; detail = d }))

abbrev pub available : TransitionDef → MachineState → Bool
available t state = if contains "any" t.from then true else contains state.state t.from

abbrev pub moved : TransitionDef → MachineState → MachineState
moved t new = if t.to == "same" then new else record new { state = t.to }

-- The call that `act` answers: its arguments, in one record.
pub record ActCall : Type 0 where
  pub caller : String
  pub transition : String
  pub args : Dict Value
  pub escrow : Dict StrSet
  pub now_ms : ℕ

abbrev pub act_ctx : String → Dict Value → Dict StrSet → Ctx
act_ctx caller args escrow = record { caller = some caller; args = args; escrow = escrow }

abbrev pub call_ctx : ActCall → Ctx
call_ctx c = act_ctx c.caller c.args c.escrow

abbrev pub act_record :
    ActCall → MachineState → TransitionDef → MachineState → List String × List String → ActRow
act_record c state t new wakes = record {
  transition = c.transition;
  caller = c.caller;
  args = c.args;
  from = state.state;
  to = new.state;
  actor = new.actor;
  log = t.log;
  wake = wakes.0;
  wake_actor = wakes.1;
}

abbrev pub act_payload :
    ActCall → MachineState → TransitionDef → MachineState → List String × List String → Payload
act_payload c state t new wakes = act_row (act_record c state t new wakes)

module _ (defn : MachineDef) (bindings : Bindings) (state : MachineState) (c : ActCall) where
  -- `act` once its effects are applied: the new state, the wakes and the row.
  unfoldable pub conclude_act : TransitionDef → MachineState → Py Answer
  conclude_act t applied = do
    let new = moved t applied
    wakes ← compute_wakes defn bindings state new c.escrow
    ok (outcome (record { state = new; payload = act_payload c state t new wakes }))

  abbrev pub after_effects : TransitionDef → Step → Py Answer
  after_effects t (refused reason) = reject Check.effect (Detail.because reason)
  after_effects t (stepped applied) = conclude_act t applied

  abbrev pub after_guards : TransitionDef → Option GuardName → Py Answer
  after_guards t (some name) = reject Check.guard (Detail.failed name)
  after_guards t none = do
    step ← apply_effects t.effects defn bindings state (call_ctx c) c.now_ms
    after_effects t step

  -- `act` for a transition that is declared.
  unfoldable pub fire : TransitionDef → Py Answer
  unfolding conclude_act
  fire t =
      if not (available t state)
      then reject Check.from (Detail.unavailable c.transition state.state)
      else if not (contains t.by (roles_of bindings c.caller))
      then reject Check.by (Detail.wrong_role t.by)
      else (do failure ← guards_hold t.guard bindings state (call_ctx c); after_guards t failure)

  abbrev pub fire_declared : Option TransitionDef → Py Answer
  fire_declared none = reject Check.exists (Detail.no_transition c.transition)
  fire_declared (some t) = fire t

  unfoldable pub act : Py Answer
  unfolding fire
  act = fire_declared (lookup c.transition defn.transitions)

-- What a permitted write stores. A fresh value of an owner is concealed again.
abbrev pub written : String → Value → Option String → MachineState → MachineState
written key value (some owner) state = record state {
  owner_data =
      insert key (insert owner value (or_else (lookup key state.owner_data) [])) state.owner_data;
  revealed = insert key (discard owner (or_else (lookup key state.revealed) [])) state.revealed;
}
written key value none state = record state { values = insert key value state.values }

-- The call that `set_value` answers.
pub record SetCall : Type 0 where
  pub caller : String
  pub key : String
  pub value : Value
  pub owner : Option String
  pub escrow : Dict StrSet

abbrev pub set_record : SetCall → DataDef → List String × List String → SetRow
set_record c d wakes = record {
  key = c.key;
  owner = c.owner;
  value = c.value;
  caller = c.caller;
  log = d.visibility;
  wake = wakes.0;
  wake_actor = wakes.1;
}

abbrev pub set_payload : SetCall → DataDef → List String × List String → Payload
set_payload c d wakes = set_row (set_record c d wakes)

-- `owner is not None and _member_or_reason(...)`
abbrev pub owner_reason : MachineDef → Bindings → Option String → Py (Option Reason)
owner_reason defn bindings none = ok none
owner_reason defn bindings (some o) = member_or_reason defn bindings (str o)

module _ (defn : MachineDef) (bindings : Bindings) (state : MachineState) (c : SetCall) where
  unfoldable pub store : DataDef → Py Answer
  store d = do
    let new = written c.key c.value c.owner state
    wakes ← compute_wakes defn bindings state new c.escrow
    ok (outcome (record { state = new; payload = set_payload c d wakes }))

  abbrev pub store_unless : DataDef → Option Reason → Py Answer
  store_unless d (some reason) = reject Check.owner (Detail.because reason)
  store_unless d none = store d

  -- `set_value` for a key that is declared.
  abbrev pub set_declared : Option DataDef → Py Answer
  set_declared none = reject Check.key (Detail.undeclared c.key)
  set_declared (some d) =
      if is_set_type d.type
      then reject Check.key (Detail.set_key c.key)
      else if is_owner d.visibility && not (is_some c.owner)
      then reject Check.owner (Detail.owner_required c.key)
      else if not (is_owner d.visibility) && is_some c.owner
      then reject Check.owner (Detail.owner_forbidden c.key)
      else (do bad ← owner_reason defn bindings c.owner; store_unless d bad)

  -- The time is a parameter of the source's function that it does not use.
  unfoldable pub set_value : Py Answer
  unfolding store
  set_value =
      if not (is_referee defn bindings c.caller)
      then reject Check.authority Detail.referee_only
      else set_declared (lookup c.key defn.data_defs)
