-- ===== src/Turns/State.antt =====
-- The turn manager's state, and what it sends to the bus and to the chronicle
-- (src/bearpit/warden/turns.py, `TurnManager.__init__`). The clock counts whole units from 0.
use bearpit.Base.{
  ℕ, String, Bool, false, ◌++◌, Option, none, some, List, [], is_empty, get_elem?, if◌then◌else◌,
}
use bearpit.Base.Dict.{Dict}
use bearpit.Base.Outcome.{Py, ok, index_error, or_raise, ◌>>=◌}

pub data CuePolicy : Type 0 where
  each_turn each_round never : CuePolicy

-- What the rotation is paused on: the referee's opening post, or the end of a round.
pub data Awaiting : Type 0 where
  opener round : Awaiting

-- The arguments that the constructor keeps. A missing time to remind after has been filled in.
pub record Config : Type 0 where
  pub realm : String
  pub timeout : ℕ
  pub reannounce : ℕ
  pub cue : CuePolicy
  pub min_rounds : ℕ
  pub drives : Bool
  pub retire_after : ℕ
  pub referee_id : Option String
  pub verdict_tool : Bool

pub record Turns : Type 0 where
  pub order : List String
  pub misses : Dict ℕ
  pub round : ℕ
  pub position : ℕ
  pub turn_start : ℕ
  pub last_announce : ℕ
  pub cursor : ℕ
  pub started : Bool
  pub awaiting : Option Awaiting
  pub round_msgs : List (String × String)
  pub recent : List (String × String)

-- The texts that are sent to the referee, by what they are made of.
pub data Notice : Type 0 where
  now_on_turn : Option String → ℕ → Notice
  resolve_round : ℕ → List String → List (String × String) → Bool → Notice
  round_passed : ℕ → List (String × String) → Notice
  waiting_on_you : Awaiting → Notice

pub data TurnEvent : Type 0 where
  on_turn : ℕ → List String → ℕ → String → ℕ → TurnEvent
  round_complete : ℕ → ℕ → List String → ℕ → ℕ → TurnEvent
  retired removed : String → ℕ → TurnEvent
  referee_timeout : Awaiting → ℕ → TurnEvent

-- Calls of the bus, and events of the chronicle, in their order.
pub data Out : Type 0 where
  grant : String → Out
  open_all mute_all : Out
  announce : String → Bool → List (String × String) → Out
  notify_referee : Notice → Out
  event : TurnEvent → Out

abbrev pub Run : Type 0
Run = Py (Turns × List Out)

-- A state and what has been sent before it.
abbrev pub emit : List Out → Turns × List Out → Turns × List Out
emit before (s, after) = (s, before ++ after)

unfoldable pub initial : List String → Turns
initial order = record {
  order = order;
  misses = [];
  round = 1;
  position = 0;
  turn_start = 0;
  last_announce = 0;
  cursor = 0;
  started = false;
  awaiting = none;
  round_msgs = [];
  recent = [];
}

-- `self._order[self._position]`
abbrev pub at_position : Turns → Py String
at_position s = or_raise (get_elem? s.order s.position) index_error

-- The property `current`.
abbrev pub current : Turns → Py (Option String)
current s = if is_empty s.order then ok none else (do floor ← at_position s; ok (some floor))
