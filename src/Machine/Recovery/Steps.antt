-- ===== src/Machine/Recovery/Steps.antt =====
-- One event of an act, live and replayed (src/bearpit/realmtools/machine.py, `act` and
-- `replay_steps`).
use bearpit.Base.{◌≡◌, refl, sym, ◌∙◌, ap, none, some, [], contains, true}
use mathlib.Core.Path.{subst}
use bearpit.Base.Dict.{Dict, lookup}
use bearpit.Base.StrSet.{StrSet}
use bearpit.Base.Outcome.{ok, ◌>>=◌, Returns, value_of}
use bearpit.Machine.Decl.{MachineDef, TransitionDef}
use bearpit.Machine.State.{Bindings, MachineState, roles_of}
use bearpit.Machine.Pointer.{stepped}
use bearpit.Machine.Guards.{guards_hold}
use bearpit.Machine.Effects.{apply_effects}
use bearpit.Machine.Rows.{Outcome, outcome}
use bearpit.Machine.Act.{
  ActCall, call_ctx, moved, available, act_record, compute_wakes, conclude_act, fire, act,
}
use bearpit.Machine.Replay.{
  reached, after_answer, act_call, held_for, escrow_that_held, replay_step,
}
use bearpit.Machine.Gates.{act_granted}
use bearpit.Machine.Validate.{passes}
use bearpit.Machine.Authority.{validate}
use bearpit.Machine.Wakes.{KnownWakes, compute_wakes-Returns}
use bearpit.Machine.Recovery.Escrow.{apply_effects-escrow}
use bearpit.Machine.Recovery.Rounds.{Distinct, round_ids, guards_held}

module _ (defn : MachineDef) (bindings : Bindings) where
  -- The escrow rounds of the transition that a call names are different ones.
  abbrev pub DistinctRounds : MachineState → ActCall → Type 0
  DistinctRounds s c =
      (t : TransitionDef)
      → lookup c.transition defn.transitions ≡ some t
      → Distinct (round_ids c.caller c.args bindings s t.guard)

  -- The same call with another escrow.
  abbrev retried : ActCall → Dict StrSet → ActCall
  retried c e = record c { escrow = e }

  -- An act whose gates are passed is granted as soon as its wakes can be computed.
  act_again :
      (s : MachineState) (c : ActCall) (t : TransitionDef) (applied : MachineState)
      → lookup c.transition defn.transitions ≡ some t
      → available t s ≡ true
      → contains t.by (roles_of bindings c.caller) ≡ true
      → guards_hold t.guard bindings s (call_ctx c) ≡ ok none
      → apply_effects t.effects defn bindings s (call_ctx c) c.now_ms ≡ ok (stepped applied)
      → Returns (compute_wakes defn bindings s (moved t applied) c.escrow)
      → after_answer (act defn bindings s c) ≡ reached (moved t applied)
  unfolding act fire conclude_act
  act_again s c t applied d a b g e r =
      let (wakes, ew) = value_of (compute_wakes defn bindings s (moved t applied) c.escrow) r in
      simp (d, a, b, g, e, ew)

  -- In a machine that passed the launch checks, with known guards in its wake rules and different
  -- escrow rounds in the guards of the transition, replaying the event row of a granted act gives
  -- the state that the act gave, although replay does not know the escrow of that time.
  pub replay_step-act :
      (s : MachineState) (c : ActCall) (o : Outcome)
      → validate defn ≡ passes
      → KnownWakes defn
      → DistinctRounds s c
      → act defn bindings s c ≡ ok (outcome o)
      → replay_step defn bindings c.now_ms o.payload s ≡ reached o.state
  unfolding replay_step escrow_that_held
  replay_step-act s c o valid known distinct h =
      let g = act_granted defn bindings s c o h in
      let held =
        guards_held c.caller c.args bindings s g.t.guard c.escrow [] g.guarded
          (distinct g.t g.declared) in
      let row = act_record c s g.t (moved g.t g.applied) g.wakes in
      let supplied : escrow_that_held defn bindings s row ≡ ok held.after =
        ap (λ d. held_for d bindings s row) g.declared ∙ held.adds in
      let again =
        act_again s (retried c held.after) g.t g.applied g.declared g.from_here g.by_role
          (held.holds held.after (λ r _. refl))
          (apply_effects-escrow c.caller c.args bindings defn g.t.effects s held.after c.escrow
              c.now_ms
            ∙ g.effects)
          (compute_wakes-Returns defn bindings s (moved g.t g.applied) held.after valid known) in
      subst (λ (x : Outcome). replay_step defn bindings c.now_ms x.payload s ≡ reached x.state)
        (sym g.result)
        (ap (λ m. after_answer (m >>= λ e. act defn bindings s (act_call row e c.now_ms))) supplied
          ∙ again)
