-- ===== src/Machine/Gates.antt =====
-- The gates of an act and its parts, read off a granted one (src/bearpit/realmtools/machine.py, `act`).
use bearpit.Base.{
  String, ◌≡◌, refl, sym, ◌∙◌, ap, Bool, true, false, not, Option, none, some, List, contains,
  if◌then◌else◌,
}
use bearpit.Base.Dict.{lookup}
use bearpit.Base.Outcome.{Py, ok, >>=-eq-ok}
use bearpit.Machine.Decl.{MachineDef, TransitionDef, GuardName}
use bearpit.Machine.State.{Bindings, MachineState, roles_of}
use bearpit.Machine.Pointer.{Step, refused, stepped}
use bearpit.Machine.Guards.{guards_hold}
use bearpit.Machine.Effects.{apply_effects}
use bearpit.Machine.Rows.{Outcome, Answer, outcome}
use bearpit.Machine.Act.{
  ActCall, call_ctx, available, moved, act_payload, compute_wakes, conclude_act, after_effects,
  after_guards, fire, fire_declared, act,
}

module _ (defn : MachineDef) (bindings : Bindings) (s : MachineState) (c : ActCall) where
  -- The checks that came before the outcome, in their order, and its parts.
  pub record ActPassed (o : Outcome) : Type 0 where
    pub t : TransitionDef
    pub declared : lookup c.transition defn.transitions ≡ some t
    pub from_here : available t s ≡ true
    pub by_role : contains t.by (roles_of bindings c.caller) ≡ true
    pub guarded : guards_hold t.guard bindings s (call_ctx c) ≡ ok none
    pub applied : MachineState
    pub effects :
        apply_effects t.effects defn bindings s (call_ctx c) c.now_ms ≡ ok (stepped applied)
    pub wakes : List String × List String
    pub woken : compute_wakes defn bindings s (moved t applied) c.escrow ≡ ok wakes
    pub result :
        o ≡ record { state = moved t applied; payload = act_payload c s t (moved t applied) wakes }

  abbrev Concluded : TransitionDef → MachineState → Outcome → Type 0
  Concluded t applied o =
      (wakes : List String × List String) × (compute_wakes defn bindings s (moved t applied)
          c.escrow
        ≡ ok wakes)
      × (o
          ≡ record { state = moved t applied; payload = act_payload c s t (moved t applied) wakes })

  outcome-injective :
      (o p : Outcome) → ◌≡◌ {A = Py Answer} (ok (outcome o)) (ok (outcome p)) → o ≡ p
  outcome-injective o p h = cc

  conclude_act-parts :
      (t : TransitionDef) (applied : MachineState) (o : Outcome)
      → conclude_act defn bindings s c t applied ≡ ok (outcome o)
      → Concluded t applied o
  unfolding conclude_act
  conclude_act-parts t applied o h =
      let (wakes, e, r) =
        >>=-eq-ok (compute_wakes defn bindings s (moved t applied) c.escrow) _ h in
      (wakes, e, sym (outcome-injective _ o r))

  after_effects-parts :
      (t : TransitionDef) (step : Step) (o : Outcome)
      → after_effects defn bindings s c t step ≡ ok (outcome o)
      → (applied : MachineState) × (step ≡ stepped applied) × Concluded t applied o
  after_effects-parts t (refused r) o h = cc
  after_effects-parts t (stepped applied) o h = (applied, refl, conclude_act-parts t applied o h)

  after_guards-parts :
      (t : TransitionDef) (failure : Option GuardName) (o : Outcome)
      → after_guards defn bindings s c t failure ≡ ok (outcome o)
      → (failure ≡ none)
        × ((applied : MachineState) × (apply_effects t.effects defn bindings s (call_ctx c) c.now_ms
              ≡ ok (stepped applied))
            × Concluded t applied o)
  after_guards-parts t (some name) o h = cc
  after_guards-parts t none o h =
      let (step, e, r) =
        >>=-eq-ok (apply_effects t.effects defn bindings s (call_ctx c) c.now_ms) _ h in
      let (applied, es, r') = after_effects-parts t step o r in (refl, (applied, e ∙ ap ok es, r'))

  if_not-parts :
      (b : Bool) (m : Py Answer) {r : Py Answer} (o : Outcome)
      → (if not b then r else m) ≡ ok (outcome o)
      → ((r ≡ ok (outcome o)) → ⊥)
      → (b ≡ true) × (m ≡ ok (outcome o))
  if_not-parts true m o h no_r = (refl, h)
  if_not-parts false m o h no_r = absurd (no_r h)

  fire-parts :
      (t : TransitionDef) (o : Outcome)
      → lookup c.transition defn.transitions ≡ some t
      → fire defn bindings s c t ≡ ok (outcome o)
      → ActPassed o
  unfolding fire
  fire-parts t o d h =
      let (a, h1) = if_not-parts (available t s) _ o h (λ e. cc) in
      let (b, h2) = if_not-parts (contains t.by (roles_of bindings c.caller)) _ o h1 (λ e. cc) in
      let (failure, e, h3) = >>=-eq-ok (guards_hold t.guard bindings s (call_ctx c)) _ h2 in
      let (n, (applied, ea, (wakes, ew, r))) = after_guards-parts t failure o h3 in
      record {
        t = t;
        declared = d;
        from_here = a;
        by_role = b;
        guarded = e ∙ ap ok n;
        applied = applied;
        effects = ea;
        wakes = wakes;
        woken = ew;
        result = r;
      }

  fire_declared-parts :
      (d : Option TransitionDef) (o : Outcome)
      → lookup c.transition defn.transitions ≡ d
      → fire_declared defn bindings s c d ≡ ok (outcome o)
      → ActPassed o
  fire_declared-parts none o e h = cc
  fire_declared-parts (some t) o e h = fire-parts t o e h

  -- An act is granted only if the transition is declared, is available from the current state, is
  -- fired by its role and has all its guards true; the new state is then what its effects make of
  -- the old one, moved to the target, and the event row records exactly that.
  pub act_granted : (o : Outcome) → act defn bindings s c ≡ ok (outcome o) → ActPassed o
  unfolding act
  act_granted o h = fire_declared-parts (lookup c.transition defn.transitions) o refl h
