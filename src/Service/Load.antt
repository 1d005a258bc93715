-- ===== src/Service/Load.antt =====
-- Bringing a realm's machine back from the chronicle
-- (src/bearpit/realmtools/machine_service.py, `_Live`, `_load` and `_get`).
use bearpit.Base.{
  ℕ, String, List, [], ◌∷◌, map, Option, none, some, if◌then◌else◌, eqb, ltb, select,
}
use bearpit.Base.Dict.{Dict, lookup, insert}
use bearpit.Base.Outcome.{Exn}
use bearpit.Machine.Decl.{MachineDef}
use bearpit.Machine.State.{Bindings, MachineState}
use bearpit.Machine.Rows.{Payload}
use bearpit.Machine.Replay.{ReplayError, Replayed, reached, failed_at, replay}
use bearpit.Machine.Validate.{Verdict, passes, refuses, crashes}
use bearpit.Machine.Authority.{validate}
use bearpit.Service.Chronicle.{Chronicle, Head, GameEvent, machine_events, game_events}

abbrev pub machine_version : ℕ
machine_version = 1

pub record Live : Type 0 where
  pub defn : MachineDef
  pub bindings : Bindings
  pub state : MachineState
  pub machine_event_id : ℕ

-- What stops a realm that has a machine: its declaration is refused, or its events do not replay.
pub data Damage : Type 0 where
  invalid_declaration : Damage
  validation_crashed : Exn → Damage
  unreplayable : ReplayError → Damage

pub data Loaded : Type 0 where
  nothing : Loaded
  live : Live → Loaded
  damaged : Damage → Loaded

-- `machines[-1]`
abbrev pub latest {ℓ} : {A : Type ℓ} → List A → Option A
latest [] = none
latest (x ∷ []) = some x
latest (x ∷ y ∷ xs) = latest (y ∷ xs)

abbrev pub as_event : GameEvent → ℕ × Payload
as_event g = (g.ts_ms, g.payload)

-- The events after the head.
abbrev pub games_after : ℕ → String → Chronicle → List (ℕ × Payload)
games_after head realm chron =
    map as_event (select (λ (g : GameEvent). ltb head g.id) (game_events realm chron))

abbrev pub as_live : Head → Replayed → Loaded
as_live h (failed_at e) = damaged (unreplayable e)
as_live h (reached s) = live (record {
  defn = h.payload.machine_def;
  bindings = h.payload.bindings;
  state = s;
  machine_event_id = h.id;
})

-- The declaration of the head is validated again.
abbrev pub replay_valid : Head → Verdict → List (ℕ × Payload) → Loaded
replay_valid h passes games =
    as_live h (replay h.payload.machine_def h.payload.bindings games h.ts_ms)
replay_valid h (refuses _) games = damaged invalid_declaration
replay_valid h (crashes e) games = damaged (validation_crashed e)

abbrev pub load_head : String → Chronicle → Option Head → Loaded
load_head realm chron none = nothing
load_head realm chron (some h) =
    if eqb h.payload.version machine_version
    then replay_valid h (validate h.payload.machine_def) (games_after h.id realm chron)
    else nothing

abbrev pub load_from : String → Chronicle → Loaded
load_from realm chron = load_head realm chron (latest (machine_events realm chron))

pub record MachineService : Type 0 where
  pub chron : Option Chronicle
  pub live : Dict Live

unfoldable pub load : String → Option Chronicle → Loaded
load realm none = nothing
load realm (some chron) = load_from realm chron

abbrev pub set_chronicle : Chronicle → MachineService
set_chronicle chron = record { chron = some chron; live = [] }

-- `self._live.setdefault(realm_id, loaded)`
abbrev pub setdefault : String → Live → Option Live → Dict Live → Dict Live
setdefault realm l (some present) d = d
setdefault realm l none d = insert realm l d

abbrev pub remember : String → Loaded → MachineService → MachineService
remember realm (live l) svc = record svc {
  live = setdefault realm l (lookup realm svc.live) svc.live;
}
remember realm _ svc = svc

abbrev pub setdefault_value : Live → Option Live → Live
setdefault_value l (some present) = present
setdefault_value l none = l

abbrev pub found_entry : String → Loaded → MachineService → Loaded
found_entry realm (live l) svc = live (setdefault_value l (lookup realm svc.live))
found_entry realm loaded svc = loaded

-- `_get`, with what it finds and the service after it. A load that ends after another has stored
-- an entry loses to that entry.
abbrev pub get_unless : String → Option Live → MachineService → Loaded × MachineService
get_unless realm (some l) svc = (live l, svc)
get_unless realm none svc =
    let loaded = load realm svc.chron in (found_entry realm loaded svc, remember realm loaded svc)

unfoldable pub get : String → MachineService → Loaded × MachineService
get realm svc = get_unless realm (lookup realm svc.live) svc
