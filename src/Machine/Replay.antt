-- ===== src/Machine/Replay.antt =====
-- Rebuilding a state from the chronicle (src/bearpit/realmtools/machine.py, `replay_steps`,
-- `replay` and `_escrow_that_held`).
use bearpit.Base.{ℕ, String, Option, none, some, List, [], ◌∷◌}
use bearpit.Base.Dict.{Dict, lookup, insert}
use bearpit.Base.StrSet.{StrSet}
use bearpit.Base.Outcome.{Py, ok, raised, Exn, ◌>>=◌}
use bearpit.Value.{Value, dict, get_or_null, py_str}
use bearpit.Machine.Decl.{MachineDef, Guard, GuardName, TransitionDef}
use bearpit.Machine.State.{
  Bindings, MachineState, Ctx, initial_state, required, minus_arg, expected, resolve,
}
use bearpit.Machine.Rows.{
  Rejection, ActRow, SetRow, Payload, act_row, set_row, reject_row, other, Answer, rejected,
  outcome,
}
use bearpit.Machine.Act.{ActCall, SetCall, act_ctx, act, set_value}

-- One guard's share of the escrow that replay supplies.
abbrev pub held_round :
    GuardName → Value → Bindings → MachineState → Ctx → Dict StrSet → Py (Dict StrSet)
held_round GuardName.escrow_complete (dict a) bindings state ctx out = do
  let rid = py_str (resolve (get_or_null "round" a) ctx state)
  over ← required "over" a
  members ← expected bindings state over (minus_arg a)
  ok (insert rid members out)
held_round _ arg bindings state ctx out = ok out

unfoldable pub held_rounds :
    List Guard → Bindings → MachineState → Ctx → Dict StrSet → Py (Dict StrSet)
held_rounds [] bindings state ctx out = ok out
held_rounds (g ∷ gs) bindings state ctx out = do
  out' ← held_round g.name g.arg bindings state ctx out
  held_rounds gs bindings state ctx out'

abbrev pub held_for : Option TransitionDef → Bindings → MachineState → ActRow → Py (Dict StrSet)
held_for none bindings state p = ok []
held_for (some t) bindings state p =
    held_rounds t.guard bindings state (act_ctx p.caller p.args []) []

unfoldable pub escrow_that_held : MachineDef → Bindings → MachineState → ActRow → Py (Dict StrSet)
unfolding held_rounds
escrow_that_held defn bindings state p =
    held_for (lookup p.transition defn.transitions) bindings state p

-- The calls that an event records.
abbrev pub act_call : ActRow → Dict StrSet → ℕ → ActCall
act_call p escrow ts = record {
  caller = p.caller;
  transition = p.transition;
  args = p.args;
  escrow = escrow;
  now_ms = ts;
}

abbrev pub set_call : SetRow → SetCall
set_call p = record {
  caller = p.caller;
  key = p.key;
  value = p.value;
  owner = p.owner;
  escrow = [];
}

-- How a walk over the chronicle ends early: an event no longer applies, an operation is unknown,
-- or the engine raised.
pub data ReplayError : Type 0 where
  no_longer_applies : Rejection → ReplayError
  unknown_op : String → ReplayError
  engine_raised : Exn → ReplayError

pub data Replayed : Type 0 where
  reached : MachineState → Replayed
  failed_at : ReplayError → Replayed

abbrev pub after_answer : Py Answer → Replayed
after_answer (raised e) = failed_at (engine_raised e)
after_answer (ok (rejected r)) = failed_at (no_longer_applies r)
after_answer (ok (outcome o)) = reached o.state

-- The state after one event.
unfoldable pub replay_step : MachineDef → Bindings → ℕ → Payload → MachineState → Replayed
unfolding escrow_that_held
replay_step defn bindings ts (reject_row r) state = reached state
replay_step defn bindings ts (act_row p) state = after_answer (do
  escrow ← escrow_that_held defn bindings state p
  act defn bindings state (act_call p escrow ts))
replay_step defn bindings ts (set_row p) state =
    after_answer (set_value defn bindings state (set_call p))
replay_step defn bindings ts (other op) state = failed_at (unknown_op op)

-- The states that a walk yields before it ends, and the failure that ends it, if one does.
abbrev pub Walk : Type 0
Walk = List MachineState × Option ReplayError

abbrev pub go_on : Replayed → (MachineState → Walk) → Walk
go_on (failed_at e) rest = ([], some e)
go_on (reached next) rest = (next ∷ (rest next).0, (rest next).1)

unfoldable pub replay_steps : MachineDef → Bindings → List (ℕ × Payload) → MachineState → Walk
replay_steps defn bindings [] state = ([], none)
replay_steps defn bindings ((ts, p) ∷ events) state =
    go_on (replay_step defn bindings ts p state) (replay_steps defn bindings events)

abbrev pub last_or : MachineState → List MachineState → MachineState
last_or s [] = s
last_or s (t ∷ ts) = last_or t ts

abbrev pub conclude_replay : MachineState → Walk → Replayed
conclude_replay state (states, none) = reached (last_or state states)
conclude_replay state (states, some e) = failed_at e

-- `replay`: the last of the walk's states.
unfoldable pub replay : MachineDef → Bindings → List (ℕ × Payload) → ℕ → Replayed
replay defn bindings events start_ms =
    let state = initial_state defn bindings start_ms in
    conclude_replay state (replay_steps defn bindings events state)
