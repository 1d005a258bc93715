-- ===== src/Service/Tests.antt =====
-- Runs of the service on a small machine, and the theorems applied to them
-- (src/bearpit/realmtools/machine_service.py).
use bearpit.Base.{
  ◌≡◌, ◌≤◌, ◌↔◌, refl, sym, ◌∙◌, true, none, some, List, [], ◌∷◌, arith, String, ℕ, if◌then◌else◌,
  eqb,
}
use mathlib.Core.Path.{subst}
use Prim.Native.Char.{code}
use bearpit.Base.Dict.{lookup}
use bearpit.Value.{Value, str, null, list, cons, nil}
use bearpit.Machine.Decl.{TransitionDef}
use bearpit.Machine.State.{initial_state}
use bearpit.Machine.Rows.{Payload, reject_row, tried_act, Check, Detail}
use bearpit.Machine.Decl.{Log}
use bearpit.Machine.Wakes.{KnownWakes}
use bearpit.Machine.Recovery.Steps.{DistinctRounds}
use bearpit.Machine.Recovery.Rounds.{Distinct, round_ids}
use bearpit.Machine.Samples.{game, table, start, lobby}
use bearpit.Service.Safety.{has_surrogate, unstorable, bad_text, any_char}
use bearpit.Service.Storable.{nesting, clean, unstorable-Storable}
use bearpit.Service.Chronicle.{Chronicle, machine, GameEvent}
use bearpit.Service.Load.{Live, live, MachineService, load}
use bearpit.Service.Calls.{Identity, World, serve_act, serve_set, engine_act}
use bearpit.Service.Faithful.{Faithful}
use bearpit.Service.Operations.{serve_act-Faithful, serve_set-Faithful}
use bearpit.Service.Paging.{scan_log}
use bearpit.Service.Pages.{Paged, scan_log-Paged}

abbrev launched : Chronicle
launched =
    record {
      id = 1;
      realm_id = "duel";
      ts_ms = 5;
      body = machine (record { version = 1; machine_def = game; bindings = table });
    }
    ∷ []

-- Nothing is cached yet.
abbrev service : MachineService
service = record { chron = some launched; live = [] }

abbrev dee : Identity
dee = record { realm_id = "duel"; agent_id = "dee" }

-- A text in which a tilde stands for a half of a surrogate pair.
abbrev half_paired : String → List ℕ
half_paired String.[] = []
half_paired (String.◌∷◌ c s) = (if eqb (code c) 126 then 55296 else code c) ∷ half_paired s

abbrev world : World
world = record {
  clock_ms = 7;
  ts_ms = 7;
  new_id = 2;
  dumps = λ v. some 2;
  points = half_paired;
  escrow_lookup = none;
}

abbrev in_lobby : Live
in_lobby = record { defn = game; bindings = table; state = lobby; machine_event_id = 1 }

launched-load : load "duel" (some launched) ≡ live in_lobby
unfolding load bearpit.Machine.Authority.validate bearpit.Value.py_str bearpit.Value.value_eq
    bearpit.Machine.Replay.replay bearpit.Machine.Replay.replay_steps lobby initial_state
launched-load = refl

same_live : (k l : Live) → live k ≡ live l → k ≡ l
same_live k l e = cc

loaded_is : (l : Live) → load "duel" (some launched) ≡ live l → in_lobby ≡ l
loaded_is l e = same_live in_lobby l (sym launched-load ∙ e)

service-Faithful : Faithful service
service-Faithful r l h = cc

game-known : (l : Live) → load "duel" (some launched) ≡ live l → KnownWakes l.defn
game-known l e = subst (λ (k : Live). KnownWakes k.defn) (loaded_is l e) (tt, ((refl, tt), tt))

start_found : (t : TransitionDef) → lookup "start" game.transitions ≡ some t → start ≡ t
start_found t h = cc

start-distinct :
    (l : Live)
    → load "duel" (some launched) ≡ live l
    → DistinctRounds l.defn l.bindings l.state (engine_act world dee l "start" [])
start-distinct l e =
    subst
      (λ (k : Live). DistinctRounds k.defn k.bindings k.state (engine_act world dee k "start" []))
      (loaded_is l e)
      (λ t h.
        subst (λ (x : TransitionDef). Distinct (round_ids "dee" [] table lobby x.guard))
          (start_found t h) tt)

serve_act-Faithful_example : Faithful (serve_act world dee "start" [] service).1
serve_act-Faithful_example =
    serve_act-Faithful world dee service "start" [] refl (omega arith, tt) game-known start-distinct
      service-Faithful

serve_set-Faithful_example : Faithful (serve_set world dee "deck" (str "shuffled") none service).1
serve_set-Faithful_example =
    serve_set-Faithful world dee service "deck" (str "shuffled") none (omega arith, tt) game-known
      service-Faithful

-- The second text of the list has an unpaired surrogate.
abbrev half_a_pair : Value
half_a_pair = list (cons (str "hi") (cons (str "a~b") nil))

half_a_pair_refused : unstorable half_paired half_a_pair 0 ≡ some has_surrogate
unfolding unstorable bad_text any_char
half_a_pair_refused = refl

unstorable-Storable_example :
    unstorable half_paired half_a_pair 0 ≡ none
    ↔ (nesting half_a_pair ≤ 32) × (clean half_paired half_a_pair ≡ true)
unstorable-Storable_example = unstorable-Storable half_paired half_a_pair

-- Two rejected acts that all may read.
abbrev refused_fold : Payload
refused_fold = reject_row (record {
  attempt = tried_act "fold" [];
  caller = "ann";
  check = Check.from;
  detail = Detail.unavailable "fold" "lobby";
  log = Log.public;
})

abbrev two_refused : List GameEvent
two_refused =
    record { id = 2; ts_ms = 7; payload = refused_fold }
    ∷ record { id = 4; ts_ms = 9; payload = refused_fold }
    ∷ []

scan_log-Paged_example :
    Paged game table "bob" 1 two_refused 1 1 (scan_log game table "bob" 1 two_refused 1 (some 1))
scan_log-Paged_example =
    scan_log-Paged game table "bob" 1 two_refused 1 0 ((omega arith, tt), (tt, tt))
