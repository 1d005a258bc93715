-- ===== src/Machine/Reachable.antt =====
-- Well-formed states under `act`, `set_value`, `replay_steps` and `initial_state`
-- (src/bearpit/realmtools/machine.py).
use bearpit.Base.{
  ℕ, String, ◌≡◌, refl, sym, ◌∙◌, inl, inr, Bool, true, false, not, ◌&&◌, Option, none, some, List,
  [], ◌∷◌, arith, ◌==◌, contains, Bool-cases, or_else, is_some, All,
}
use bearpit.Base.Dict.{Dict, lookup}
use bearpit.Base.StrSet.{StrSet}
use bearpit.Base.Outcome.{Py, ok, raised, Holds, Holds-bind, Holds-ok, Holds-if}
use mathlib.Core.Bool.{false≢true}
use bearpit.Machine.Decl.{MachineDef, DataDef, GuardName, TransitionDef, is_set_type}
use bearpit.Machine.State.{
  Bindings, MachineState, initial_state, empties, roles_of, is_owner, is_referee,
}
use bearpit.Machine.Pointer.{Reason, Step, refused, stepped}
use bearpit.Machine.Guards.{guards_hold}
use bearpit.Machine.Effects.{apply_effects}
use bearpit.Machine.Rows.{Payload, act_row, set_row, reject_row, other, Answer, rejected, outcome}
use bearpit.Machine.Act.{
  ActCall, SetCall, call_ctx, compute_wakes, available, moved, conclude_act, after_effects,
  after_guards, fire, fire_declared, act, written, store, store_unless, set_declared, owner_reason,
  set_value,
}
use bearpit.Machine.Replay.{
  Replayed, reached, failed_at, after_answer, act_call, set_call, escrow_that_held, replay_step,
  replay_steps, Walk, go_on,
}
use bearpit.Machine.Validate.{passes, declared_state, structure}
use bearpit.Machine.Sound.{structure-to, structure-initial}
use bearpit.Machine.Invariant.{IsWellFormed, StepKeeps, same-Good}
use bearpit.Machine.Preserve.{apply_effects-Good}

-- What is asked of an answer: nothing of a rejection.
abbrev pub AnswerKeeps : (MachineState → Type 0) → Answer → Type 0
AnswerKeeps P (rejected r) = Unit
AnswerKeeps P (outcome o) = P o.state

abbrev pub ReplayedKeeps : (MachineState → Type 0) → Replayed → Type 0
ReplayedKeeps P (reached s) = P s
ReplayedKeeps P (failed_at e) = Unit

module _ (defn : MachineDef) (bindings : Bindings) (valid : structure defn ≡ passes) where
  abbrev Good : MachineState → Type 0
  Good = IsWellFormed defn bindings

  abbrev Keeps : Py Answer → Type 0
  Keeps = Holds (AnswerKeeps Good)

  -- The state moves to a declared state, or stays.
  moved-Good :
      (t : TransitionDef) (s : MachineState)
      → declared_state defn "same" t.to ≡ true
      → Good s
      → Good (moved t s)
  moved-Good t s h g = elim (Bool-cases (t.to == "same")) [
    | inl e ↦ rw e g
    | inr e ↦
        rw e (record { in_states = ground (arith, e, h); seated = g.seated; marked = g.marked })
  ]

  module _ (s : MachineState) (g : IsWellFormed defn bindings s) where
    conclude_act-Good :
        (c : ActCall) (t : TransitionDef) (applied : MachineState)
        → declared_state defn "same" t.to ≡ true
        → Good applied
        → Keeps (conclude_act defn bindings s c t applied)
    unfolding conclude_act
    conclude_act-Good c t applied h ga =
        Holds-bind (AnswerKeeps Good) (compute_wakes defn bindings s (moved t applied) c.escrow) _
          (λ wakes _. moved-Good t applied h ga)

    after_effects-Good :
        (c : ActCall) (t : TransitionDef) (step : Step)
        → declared_state defn "same" t.to ≡ true
        → StepKeeps Good step
        → Keeps (after_effects defn bindings s c t step)
    after_effects-Good c t (refused r) h gs = tt
    after_effects-Good c t (stepped applied) h gs = conclude_act-Good c t applied h gs

    after_guards-Good :
        (c : ActCall) (t : TransitionDef) (failure : Option GuardName)
        → declared_state defn "same" t.to ≡ true
        → Keeps (after_guards defn bindings s c t failure)
    after_guards-Good c t (some name) h = tt
    after_guards-Good c t none h =
        let effects = apply_effects t.effects defn bindings s (call_ctx c) c.now_ms in
        Holds-bind (AnswerKeeps Good) effects _ (λ step e. after_effects-Good c t step h (
          Holds-ok (StepKeeps Good) effects step
            (apply_effects-Good defn bindings t.effects s (call_ctx c) c.now_ms g) e))

    fire-Good :
        (c : ActCall) (t : TransitionDef)
        → declared_state defn "same" t.to ≡ true
        → Keeps (fire defn bindings s c t)
    unfolding fire
    fire-Good c t h =
        Holds-if (AnswerKeeps Good) (not (available t s)) _ _ (λ _. tt)
          (λ _.
            Holds-if (AnswerKeeps Good) (not (contains t.by (roles_of bindings c.caller))) _ _
              (λ _. tt)
              (λ _.
                Holds-bind (AnswerKeeps Good) (guards_hold t.guard bindings s (call_ctx c)) _
                  (λ failure _. after_guards-Good c t failure h)))

    fire_declared-Good :
        (c : ActCall) (o : Option TransitionDef)
        → lookup c.transition defn.transitions ≡ o
        → Keeps (fire_declared defn bindings s c o)
    fire_declared-Good c none e = tt
    fire_declared-Good c (some t) e = fire-Good c t (structure-to defn c.transition t valid e)

  -- In a machine whose structure passed the launch checks, a granted act leads from a well-formed
  -- state to a well-formed one: a declared state, a pointer that is parked or held by a member of
  -- its role, and sets that hold members only.
  pub act-IsWellFormed :
      (s : MachineState) (c : ActCall)
      → IsWellFormed defn bindings s
      → Holds (AnswerKeeps (IsWellFormed defn bindings)) (act defn bindings s c)
  unfolding act
  act-IsWellFormed s c g = fire_declared-Good s g c (lookup c.transition defn.transitions) refl

  written-Good : (s : MachineState) (c : SetCall) → Good s → Good (written c.key c.value c.owner s)
  written-Good s c g = by_owner c.owner
    where
      by_owner : (o : Option String) → Good (written c.key c.value o s)
      by_owner none = same-Good defn bindings s _ refl refl refl g
      by_owner (some o) = same-Good defn bindings s _ refl refl refl g

  module _ (s : MachineState) (g : IsWellFormed defn bindings s) (c : SetCall) where
    store_unless-Good :
        (d : DataDef) (o : Option Reason) → Keeps (store_unless defn bindings s c d o)
    unfolding store
    store_unless-Good d (some r) = tt
    store_unless-Good d none =
        Holds-bind (AnswerKeeps Good)
          (compute_wakes defn bindings s (written c.key c.value c.owner s) c.escrow) _
          (λ wakes _. written-Good s c g)

    set_declared-Good : (o : Option DataDef) → Keeps (set_declared defn bindings s c o)
    set_declared-Good none = tt
    set_declared-Good (some d) =
        Holds-if (AnswerKeeps Good) (is_set_type d.type) _ _ (λ _. tt)
          (λ _.
            Holds-if (AnswerKeeps Good) (is_owner d.visibility && not (is_some c.owner)) _ _
              (λ _. tt)
              (λ _.
                Holds-if (AnswerKeeps Good) (not (is_owner d.visibility) && is_some c.owner) _ _
                  (λ _. tt)
                  (λ _.
                    Holds-bind (AnswerKeeps Good) (owner_reason defn bindings c.owner) _
                      (λ bad _. store_unless-Good d bad))))

  -- In a machine whose structure passed the launch checks, a granted write leads from a well-formed
  -- state to a well-formed one.
  set_value-IsWellFormed :
      (s : MachineState) (c : SetCall)
      → IsWellFormed defn bindings s
      → Holds (AnswerKeeps (IsWellFormed defn bindings)) (set_value defn bindings s c)
  unfolding set_value
  set_value-IsWellFormed s c g =
      Holds-if (AnswerKeeps Good) (not (is_referee defn bindings c.caller)) _ _ (λ _. tt)
        (λ _. set_declared-Good s g c (lookup c.key defn.data_defs))

  after_answer-Good : (m : Py Answer) → Keeps m → ReplayedKeeps Good (after_answer m)
  after_answer-Good (raised e) h = tt
  after_answer-Good (ok (rejected r)) h = tt
  after_answer-Good (ok (outcome o)) h = h

  replay_step-Good :
      (ts : ℕ) (p : Payload) (s : MachineState)
      → Good s
      → ReplayedKeeps Good (replay_step defn bindings ts p s)
  unfolding replay_step
  replay_step-Good ts (reject_row r) s g = g
  replay_step-Good ts (other op) s g = tt
  replay_step-Good ts (set_row p) s g =
      after_answer-Good (set_value defn bindings s (set_call p))
        (set_value-IsWellFormed s (set_call p) g)
  replay_step-Good ts (act_row p) s g = after_answer-Good _ (
      Holds-bind (AnswerKeeps Good) (escrow_that_held defn bindings s p) _
        (λ escrow _. act-IsWellFormed s (act_call p escrow ts) g))

  go_on-Good :
      (r : Replayed) (rest : MachineState → Walk)
      → ReplayedKeeps Good r
      → ((s : MachineState) → Good s → All Good (rest s).0)
      → All Good (go_on r rest).0
  go_on-Good (failed_at e) rest h k = tt
  go_on-Good (reached s) rest h k = (h, k s h)

  -- In a machine whose structure passed the launch checks, every state that a walk over any events
  -- yields from a well-formed state is well formed, also when the walk ends early.
  pub replay_steps-IsWellFormed :
      (events : List (ℕ × Payload)) (s : MachineState)
      → IsWellFormed defn bindings s
      → All (IsWellFormed defn bindings) (replay_steps defn bindings events s).0
  unfolding replay_steps
  replay_steps-IsWellFormed [] s g = tt
  replay_steps-IsWellFormed ((ts, p) ∷ events) s g =
      go_on-Good (replay_step defn bindings ts p s) (replay_steps defn bindings events)
        (replay_step-Good ts p s g) (replay_steps-IsWellFormed events)

  empties-none :
      (p : DataDef → Bool) (k a : String) (ds : Dict DataDef)
      → contains a (or_else (lookup k (empties {V = StrSet} p [] ds)) []) ≡ false
  empties-none p k a [] = refl
  empties-none p k a ((j, d) ∷ ds) = ground (arith, empties-none p k a ds)

  -- The state in which a machine starts whose structure passed the launch checks is well formed.
  pub initial_state-IsWellFormed :
      (now_ms : ℕ) → IsWellFormed defn bindings (initial_state defn bindings now_ms)
  unfolding initial_state
  initial_state-IsWellFormed now_ms = record {
    in_states = structure-initial defn valid;
    seated = λ a h. cc;
    marked = λ k a m. absurd (false≢true (sym (empties-none _ k a defn.data_defs) ∙ m));
  }
