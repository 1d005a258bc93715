-- ===== src/Service/Chronicle.antt =====
-- The append-only store of the events of all realms, in the order of their ids
-- (src/bearpit/chronicle/chronicle.py, `Chronicle.append_event` and `Chronicle.events`;
-- src/bearpit/gatekeeper/machine_record.py).
use bearpit.Base.{ℕ, String, List, [], ◌∷◌, ◌++◌, if◌then◌else◌, ◌==◌, ◌<◌, All}
use bearpit.Machine.Decl.{MachineDef}
use bearpit.Machine.State.{Bindings}
use bearpit.Machine.Rows.{Payload}

-- The payload of a MACHINE event: the declaration with the bindings that the host resolved.
pub record MachineRecord : Type 0 where
  pub version : ℕ
  pub machine_def : MachineDef
  pub bindings : Bindings

-- An event's kind with its payload; a kind that the service does not read keeps its name only.
pub data Body : Type 0 where
  machine : MachineRecord → Body
  game : Payload → Body
  of_kind : String → Body

pub record Event : Type 0 where
  pub id : ℕ
  pub realm_id : String
  pub ts_ms : ℕ
  pub body : Body

abbrev pub Chronicle : Type 0
Chronicle = List Event

-- The event that heads a realm's machine, and the events after it.
pub record Head : Type 0 where
  pub id : ℕ
  pub ts_ms : ℕ
  pub payload : MachineRecord

pub record GameEvent : Type 0 where
  pub id : ℕ
  pub ts_ms : ℕ
  pub payload : Payload

abbrev pub add_head : ℕ → ℕ → Body → List Head → List Head
add_head id ts (machine m) rest = record { id = id; ts_ms = ts; payload = m } ∷ rest
add_head id ts _ rest = rest

abbrev pub add_game : ℕ → ℕ → Body → List GameEvent → List GameEvent
add_game id ts (game p) rest = record { id = id; ts_ms = ts; payload = p } ∷ rest
add_game id ts _ rest = rest

-- `events(realm_id, kind=EventKind.MACHINE)` and `events(realm_id, kind=EventKind.GAME)`
abbrev pub machine_events : String → Chronicle → List Head
machine_events realm [] = []
machine_events realm (e ∷ es) =
    let rest = machine_events realm es in
    if e.realm_id == realm then add_head e.id e.ts_ms e.body rest else rest

abbrev pub game_events : String → Chronicle → List GameEvent
game_events realm [] = []
game_events realm (e ∷ es) =
    let rest = game_events realm es in
    if e.realm_id == realm then add_game e.id e.ts_ms e.body rest else rest

-- `append_event`: the store gives the id and the time.
abbrev pub append_event : Chronicle → ℕ → ℕ → String → Body → Chronicle
append_event chron id ts realm body =
    chron ++ (record { id = id; realm_id = realm; ts_ms = ts; body = body } ∷ [])

-- The id of a new row is larger than that of each row before it.
abbrev pub Fresh : ℕ → Chronicle → Type 0
Fresh id chron = All (λ (e : Event). e.id < id) chron
