-- ===== src/Machine/Samples.antt =====
-- A small machine, for the tests of the engine (src/bearpit/realmtools/machine.py).
use bearpit.Base.{false, none, some, [], ◌∷◌}
use bearpit.Value.{null, str, list, dict, nil, cons, end, field}
use bearpit.Machine.Decl.{
  MachineDef, RoleDef, DataDef, PointerDef, Guard, GuardName, EffectName, TransitionDef, Log,
  RoleMembers, Openness, Visibility, DataType,
}
use bearpit.Machine.State.{Bindings, MachineState, initial_state}
use bearpit.Machine.Rows.{Outcome, Payload, act_row}
use bearpit.Machine.Act.{ActCall}

-- Players bid in secret, fold in turn; the dealer starts and ends the game.
abbrev pub dealer : RoleDef
dealer = record { members = RoleMembers.referee; visibility = Openness.public }

abbrev pub players : RoleDef
players = record { members = RoleMembers.participants; visibility = Openness.public }

abbrev pub start : TransitionDef
start = record {
  from = "lobby" ∷ [];
  to = "play";
  by = "dealer";
  guard = [];
  effects = record { name = EffectName.advance_actor; arg = null } ∷ [];
  log = Log.public;
}

abbrev pub bids_in : Guard
bids_in = record {
  name = GuardName.escrow_complete;
  arg = dict (
      field "round" (str "bids")
        (field "over" (str "players") (field "minus" (list (cons (str "folded") nil)) end)));
}

abbrev pub fold : TransitionDef
fold = record {
  from = "play" ∷ [];
  to = "same";
  by = "players";
  guard = record { name = GuardName.caller_is_actor; arg = null } ∷ bids_in ∷ [];
  effects =
      record {
        name = EffectName.add_to;
        arg = dict (field "key" (str "folded") (field "value" (str "$caller") end));
      }
      ∷ record { name = EffectName.advance_actor; arg = null }
      ∷ [];
  log = Log.public;
}

abbrev pub finish : TransitionDef
finish = record {
  from = "any" ∷ [];
  to = "done";
  by = "dealer";
  guard = [];
  effects = [];
  log = Log.referee;
}

abbrev pub pointer : PointerDef
pointer = record { over = "players"; skip = "folded" ∷ [] }

abbrev pub hand : DataDef
hand = record { visibility = Visibility.owner; type = DataType.value }

abbrev pub folded_key : DataDef
folded_key = record { visibility = Visibility.public; type = DataType.set }

abbrev pub all_folded : Guard
all_folded = record {
  name = GuardName.data_set_full;
  arg = dict (field "key" (str "folded") (field "over" (str "players") end));
}

abbrev pub game : MachineDef
game = record {
  roles = ("dealer", dealer) ∷ ("players", players) ∷ [];
  states = "lobby" ∷ "play" ∷ "done" ∷ [];
  initial = "lobby";
  terminal = "done" ∷ [];
  actor = some pointer;
  participant_effects = [];
  referee_reads_commons = false;
  data_defs =
      ("folded", folded_key)
      ∷ ("deck", record { visibility = Visibility.referee; type = DataType.value })
      ∷ ("hand", hand)
      ∷ [];
  transitions = ("start", start) ∷ ("fold", fold) ∷ ("finish", finish) ∷ [];
  wake =
      record { role = "actor"; when = []; unless = []; after_s = none }
      ∷ record { role = "dealer"; when = all_folded ∷ []; unless = []; after_s = none }
      ∷ [];
}

abbrev pub table : Bindings
table = record {
  members = ("dealer", "dee" ∷ []) ∷ ("players", "ann" ∷ "bob" ∷ "cat" ∷ []) ∷ [];
  roster = "ann" ∷ "bob" ∷ "cat" ∷ [];
  referee = some "dee";
}

unfoldable pub lobby : MachineState
unfolding initial_state
lobby = initial_state game table 5

-- Ann has folded, and Bob has the pointer.
abbrev pub bob_to_play : MachineState
bob_to_play = record lobby {
  state = "play";
  actor = some "bob";
  sets = ("folded", "ann" ∷ []) ∷ [];
}

abbrev pub bob_folds : ActCall
bob_folds = record {
  caller = "bob";
  transition = "fold";
  args = [];
  escrow = ("bids", "cat" ∷ "bob" ∷ []) ∷ [];
  now_ms = 40;
}

abbrev pub bob_folded : MachineState
bob_folded = record bob_to_play {
  actor = some "cat";
  actor_since = 40;
  sets = ("folded", "bob" ∷ "ann" ∷ []) ∷ [];
}

abbrev pub bob_row : Payload
bob_row = act_row (record {
  transition = "fold";
  caller = "bob";
  args = [];
  from = "play";
  to = "play";
  actor = some "cat";
  log = Log.public;
  wake = [];
  wake_actor = "cat" ∷ [];
})

abbrev pub bob_outcome : Outcome
bob_outcome = record { state = bob_folded; payload = bob_row }
