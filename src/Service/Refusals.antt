-- ===== src/Service/Refusals.antt =====
-- What each answer of the service leaves in the chronicle
-- (src/bearpit/realmtools/machine_service.py, `act` and `set`).
use bearpit.Base.{String, ◌≡◌, refl, Option, none, some}
use mathlib.Core.Path.{subst}
use bearpit.Base.Dict.{Dict, lookup}
use bearpit.Base.Outcome.{Py, ok, raised}
use bearpit.Value.{Value}
use bearpit.Machine.Decl.{TransitionDef, Log}
use bearpit.Machine.Act.{set_value}
use bearpit.Machine.Rows.{
  reject_row, Attempt, tried_set, Rejection, RejectRow, Answer, rejected, outcome, Outcome,
}
use bearpit.Machine.View.{view}
use bearpit.Service.Safety.{Hazard}
use bearpit.Service.Chronicle.{Chronicle, game, append_event}
use bearpit.Service.Load.{
  Live, Loaded, nothing, live, damaged, MachineService, load, get_unless, get,
}
use bearpit.Service.Calls.{
  World, Identity, Reply, refused, no_machine, was_rejected, shown, load_failed, engine_failed,
  conclude_call, engine_set, with_live, got, unless_refused, serve_set,
}
use bearpit.Service.Faithful.{remember-chron}

-- A rejection of an undeclared transition may be read by all; any other as the transition says.
abbrev pub row_log : Option TransitionDef → Log
row_log none = Log.public
row_log (some t) = t.log

module _ (w : World) (who : Identity) where
  module _ (answer : Live → Py Answer) (attempt : Attempt) (log : Live → Log) (found : Loaded)
      (before : Option Chronicle) where
    -- The machine that answers is the realm's, and the chronicle is connected.
    abbrev pub Answers : Live → Py Answer → Chronicle → Type 0
    Answers l a chron = (found ≡ live l) × (answer l ≡ a) × (before ≡ some chron)

    -- What stands in the chronicle after a call, by the answer that the caller got.
    unfoldable pub Recorded : Reply × MachineService → Type 0
    Recorded (refused why, svc) = svc.chron ≡ before
    Recorded (no_machine, svc) = svc.chron ≡ before
    Recorded (load_failed d, svc) = (svc.chron ≡ before) × (found ≡ damaged d)
    Recorded (engine_failed e, svc) =
        (l : Live) × (chron : Chronicle) × Answers l (raised e) chron × (svc.chron ≡ before)
    Recorded (was_rejected r, svc) =
        (l : Live) × (chron : Chronicle) × Answers l (ok (rejected r)) chron
        × (svc.chron
            ≡ some (
                append_event chron w.new_id w.ts_ms who.realm_id (
                  game (
                    reject_row (record {
                      attempt = attempt;
                      caller = who.agent_id;
                      check = r.check;
                      detail = r.detail;
                      log = log l;
                    })))))
    Recorded (shown v, svc) =
        (l : Live) × (chron : Chronicle) × (o : Outcome) × Answers l (ok (outcome o)) chron
        × (v ≡ view l.defn l.bindings o.state who.agent_id)
        × (svc.chron ≡ some (append_event chron w.new_id w.ts_ms who.realm_id (game o.payload)))

  module _ (answer : Live → Py Answer) (attempt : Attempt) (log : Live → Log) where
    abbrev row_of : Live → Rejection → RejectRow
    row_of l r = record {
      attempt = attempt;
      caller = who.agent_id;
      check = r.check;
      detail = r.detail;
      log = log l;
    }

    conclude-Recorded :
        (l : Live) (chron : Chronicle) (m : Py Answer) (svc : MachineService)
        → answer l ≡ m
        → svc.chron ≡ some chron
        → Recorded answer attempt log
            (live l)
            svc.chron
            (conclude_call w who l chron (row_of l) m svc)
    unfolding Recorded
    conclude-Recorded l chron (raised e) svc a c = (l, chron, (refl, a, c), refl)
    conclude-Recorded l chron (ok (rejected r)) svc a c = (l, chron, (refl, a, c), refl)
    conclude-Recorded l chron (ok (outcome o)) svc a c = (l, chron, o, (refl, a, c), refl, refl)

    abbrev Run : Type 0
    Run = Live → Chronicle → MachineService → Reply × MachineService

    -- A call that hands the engine's answer on.
    abbrev run_with : Run
    run_with l chron svc = conclude_call w who l chron (row_of l) (answer l) svc

    with_live-Recorded :
        (found : Loaded) (svc : MachineService)
        → Recorded answer attempt log found svc.chron (with_live w who run_with found svc.chron svc)
    unfolding Recorded
    with_live-Recorded nothing svc = refl
    with_live-Recorded (damaged d) svc = (refl, refl)
    with_live-Recorded (live l) svc = by_chron svc.chron refl
      where
        by_chron :
            (chron : Option Chronicle)
            → svc.chron ≡ chron
            → Recorded answer attempt log
                (live l)
                svc.chron
                (with_live w who run_with (live l) chron svc)
        by_chron none c = refl
        by_chron (some chron) c = conclude-Recorded l chron (answer l) svc refl c

    get-chron : (svc : MachineService) → (get who.realm_id svc).1.chron ≡ svc.chron
    unfolding get
    get-chron svc = by_entry (lookup who.realm_id svc.live)
      where
        by_entry : (o : Option Live) → (get_unless who.realm_id o svc).1.chron ≡ svc.chron
        by_entry (some l) = refl
        by_entry none = remember-chron who.realm_id (load who.realm_id svc.chron) svc

    serve_Recorded :
        (o : Option Hazard) (svc : MachineService)
        → Recorded answer attempt log
            (get who.realm_id svc).0
            svc.chron
            (unless_refused w who o run_with svc)
    unfolding Recorded
    serve_Recorded (some why) svc = refl
    serve_Recorded none svc =
        subst
          (λ c.
            Recorded answer attempt log (get who.realm_id svc).0 c
              (got w who run_with (get who.realm_id svc)))
          (get-chron svc) (with_live-Recorded (get who.realm_id svc).0 (get who.realm_id svc).1)

  -- A write leaves the same behind, its row being for the referee.
  serve_set-Recorded :
      (key : String) (value : Value) (owner : Option String) (svc : MachineService)
      → Recorded
          (λ l. set_value l.defn l.bindings l.state (engine_set w who l key value owner))
          (tried_set key owner)
          (λ l. Log.referee)
          (get who.realm_id svc).0
          svc.chron
          (serve_set w who key value owner svc)
  unfolding serve_set
  serve_set-Recorded key value owner svc =
      serve_Recorded (λ l. set_value l.defn l.bindings l.state (engine_set w who l key value owner))
        (tried_set key owner) (λ l. Log.referee) _ svc
