-- ===== src/Service/Operations.antt =====
-- The service's operations keep the live states faithful (src/bearpit/realmtools/machine_service.py, `_get`, `act`
-- and `set`).
use bearpit.Base.{
  String, ◌≡◌, refl, sym, ap, ◌∙◌, false, Option, none, some, ◌==◌, eq_iff, Bool-cases, inl, inr,
}
use mathlib.Core.Path.{subst}
use bearpit.Base.Dict.{Dict, lookup}
use bearpit.Base.Outcome.{Py, ok, raised}
use bearpit.Value.{Value, dict}
use bearpit.Service.Safety.{Hazard, refuse, args_object}
use bearpit.Machine.State.{MachineState}
use bearpit.Machine.Rows.{
  Payload, reject_row, Rejection, RejectRow, Answer, rejected, outcome, Outcome,
}
use bearpit.Machine.Replay.{reached, replay_step}
use bearpit.Machine.Wakes.{KnownWakes}
use bearpit.Machine.Recovery.Steps.{DistinctRounds, replay_step-act}
use bearpit.Machine.Writes.{replay_step-set}
use bearpit.Service.Chronicle.{Chronicle, Fresh}
use bearpit.Service.Load.{Live, Loaded, nothing, live, damaged, MachineService, load, get}
use bearpit.Service.Append.{load-append, load-append_other, load-valid}
use bearpit.Service.Calls.{
  World, Identity, Reply, conclude_call, appended, act_live, set_live, with_live, got,
  unless_refused, serve_act, serve_set, engine_act,
}
use bearpit.Service.Faithful.{Faithful, insert-Faithful, get-Faithful}

module _ (w : World) (who : Identity) (chron : Chronicle) (fresh : Fresh w.new_id chron) where
  -- The entries of a faithful service after an event of the caller's realm, that realm apart.
  others_load :
      (p : Payload) (svc : MachineService)
      → Faithful svc
      → svc.chron ≡ some chron
      → (r : String) (k : Live) → (who.realm_id == r) ≡ false
      → lookup r svc.live ≡ some k
      → load r (some (appended w who.realm_id p chron)) ≡ live k
  unfolding load
  others_load p svc f c r k apart h =
      load-append_other w.new_id w.ts_ms who.realm_id p r chron apart
      ∙ sym (ap (load r) c)
      ∙ f r k h

  realm_loads :
      (p : Payload) (svc : MachineService) (l : Live) (s : MachineState)
      → svc.chron ≡ some chron
      → load who.realm_id svc.chron ≡ live l
      → replay_step l.defn l.bindings w.ts_ms p l.state ≡ reached s
      → load who.realm_id (some (appended w who.realm_id p chron)) ≡ live (record l { state = s })
  unfolding load
  realm_loads p svc l s c e step =
      load-append w.new_id w.ts_ms who.realm_id p chron l s fresh
        (sym (ap (load who.realm_id) c) ∙ e) step

  reject_call-Faithful :
      (row : RejectRow) (svc : MachineService)
      → Faithful svc
      → svc.chron ≡ some chron
      → Faithful (record svc { chron = some (appended w who.realm_id (reject_row row) chron) })
  unfolding replay_step
  reject_call-Faithful row svc f c r k h = elim (Bool-cases (who.realm_id == r)) [
    | inr apart ↦ others_load (reject_row row) svc f c r k apart h
    | inl same ↦
        let e = (eq_iff who.realm_id r).0 same in
        subst (λ x. load x (some (appended w who.realm_id (reject_row row) chron)) ≡ live k) e
          (realm_loads (reject_row row) svc k k.state c
            (f who.realm_id k (subst (λ x. lookup x svc.live ≡ some k) (sym e) h)) refl)
  ]

  pub conclude-Faithful :
      (l : Live) (row : Rejection → RejectRow) (m : Py Answer) (svc : MachineService)
      → Faithful svc
      → svc.chron ≡ some chron
      → load who.realm_id svc.chron ≡ live l
      → ((o : Outcome)
          → m ≡ ok (outcome o)
          → replay_step l.defn l.bindings w.ts_ms o.payload l.state ≡ reached o.state)
      → Faithful (conclude_call w who l chron row m svc).1
  conclude-Faithful l row (raised e) svc f c found step = f
  conclude-Faithful l row (ok (rejected r)) svc f c found step =
      reject_call-Faithful (row r) svc f c
  conclude-Faithful l row (ok (outcome o)) svc f c found step =
      insert-Faithful (some (appended w who.realm_id o.payload chron)) svc.live who.realm_id
        (record l { state = o.state }) (realm_loads o.payload svc l o.state c found (step o refl))
        (others_load o.payload svc f c)

abbrev pub FreshRow : World → Option Chronicle → Type 0
FreshRow w none = Unit
FreshRow w (some chron) = Fresh w.new_id chron

module _ (w : World) (who : Identity) (svc : MachineService) where
  -- What a realm's machine meets: known guards in its wake rules.
  abbrev pub KnownMachine : Type 0
  KnownMachine = (l : Live) → load who.realm_id svc.chron ≡ live l → KnownWakes l.defn

  pub got-Faithful :
      (run : Live → Chronicle → MachineService → Reply × MachineService)
      → Faithful svc
      → ((l : Live) (chron : Chronicle) (s : MachineService)
          → Faithful s
          → s.chron ≡ some chron
          → svc.chron ≡ some chron
          → load who.realm_id s.chron ≡ live l
          → Faithful (run l chron s).1)
      → Faithful (got w who run (get who.realm_id svc)).1
  got-Faithful run f h =
      let g = get-Faithful who.realm_id svc f in
      by_found (get who.realm_id svc).0 (get who.realm_id svc).1.chron refl refl
    where
      by_found :
          (found : Loaded) (chron : Option Chronicle)
          → (get who.realm_id svc).0 ≡ found
          → (get who.realm_id svc).1.chron ≡ chron
          → Faithful (with_live w who run found chron (get who.realm_id svc).1).1
      by_found nothing chron e c = (get-Faithful who.realm_id svc f).faithful
      by_found (damaged d) chron e c = (get-Faithful who.realm_id svc f).faithful
      by_found (live l) none e c = (get-Faithful who.realm_id svc f).faithful
      by_found (live l) (some chron) e c =
          let g = get-Faithful who.realm_id svc f in
          h l chron (get who.realm_id svc).1 g.faithful c (sym g.same_chron ∙ c)
            (ap (load who.realm_id) g.same_chron ∙ sym g.loaded ∙ e)

  act_live-Faithful :
      (transition : String) (args : Dict Value) (l : Live) (chron : Chronicle) (s : MachineService)
      → w.ts_ms ≡ w.clock_ms
      → Fresh w.new_id chron
      → KnownWakes l.defn
      → DistinctRounds l.defn l.bindings l.state (engine_act w who l transition args)
      → Faithful s
      → s.chron ≡ some chron
      → load who.realm_id s.chron ≡ live l
      → Faithful (act_live w who transition args l chron s).1
  unfolding load
  act_live-Faithful transition args l chron s time fresh known distinct f c e =
      conclude-Faithful w who chron fresh l _ _ s f c e (λ o h.
        subst (λ t. replay_step l.defn l.bindings t o.payload l.state ≡ reached o.state) (sym time)
          (replay_step-act l.defn l.bindings l.state _ o
            (load-valid who.realm_id chron l (sym (ap (load who.realm_id) c) ∙ e)) known distinct
            h))

  -- A service whose live states are those that the chronicle replays to stays so through any act,
  -- granted, rejected, refused or failed, where the machine has known guards in its wake rules and
  -- different escrow rounds in the guards of the transition, the chronicle stamps the row with the
  -- time that the engine was given, and its id is new.
  pub serve_act-Faithful :
      (transition : String) (args : Dict Value)
      → w.ts_ms ≡ w.clock_ms
      → FreshRow w svc.chron
      → KnownMachine
      → ((l : Live)
          → load who.realm_id svc.chron ≡ live l
          → DistinctRounds l.defn l.bindings l.state (engine_act w who l transition args))
      → Faithful svc
      → Faithful (serve_act w who transition args svc).1
  unfolding serve_act
  serve_act-Faithful transition args time fresh known distinct f =
      by_refusal (refuse w.points w.dumps (dict (args_object args)))
    where
      by_refusal :
          (o : Option Hazard)
          → Faithful (unless_refused w who o (act_live w who transition args) svc).1
      by_refusal (some why) = f
      by_refusal none = got-Faithful (act_live w who transition args) f (λ l chron s g c d e.
          let e' = ap (load who.realm_id) (d ∙ sym c) ∙ e in
          act_live-Faithful transition args l chron s time (subst (FreshRow w) d fresh) (known l e')
            (distinct l e') g c e)

  -- A service whose live states are those that the chronicle replays to stays so through any write,
  -- granted, rejected, refused or failed, where the machine has known guards in its wake rules and
  -- the id of the row is new.
  pub serve_set-Faithful :
      (key : String) (value : Value) (owner : Option String)
      → FreshRow w svc.chron
      → KnownMachine
      → Faithful svc
      → Faithful (serve_set w who key value owner svc).1
  unfolding serve_set load
  serve_set-Faithful key value owner fresh known f = by_refusal _
    where
      by_refusal :
          (o : Option Hazard)
          → Faithful (unless_refused w who o (set_live w who key value owner) svc).1
      by_refusal (some why) = f
      by_refusal none = got-Faithful (set_live w who key value owner) f (λ l chron s g c d e.
          let e' = ap (load who.realm_id) (d ∙ sym c) ∙ e in
          conclude-Faithful w who chron (subst (FreshRow w) d fresh) l _ _ s g c e (λ o h.
            replay_step-set l.defn l.bindings l.state _ o w.ts_ms
              (load-valid who.realm_id chron l (sym (ap (load who.realm_id) c) ∙ e)) (known l e')
              h))
