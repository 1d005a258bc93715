-- ===== src/Machine/Preserve.antt =====
-- Well-formed states under the effects (src/bearpit/realmtools/machine.py, `apply_effect`).
use bearpit.Base.{
  ℕ, String, ◌≡◌, refl, sym, ◌∙◌, ap, ◌⊎◌, inl, inr, true, Option, none, some, List, [], ◌∷◌, arith,
  eq_iff, contains, Bool-cases,
}
use mathlib.Core.Path.{subst}
use bearpit.Base.StrSet.{StrSet, add, discard, contains-add, contains-discard}
use bearpit.Base.Outcome.{Py, ok, Holds, Holds-bind, Holds-ok}
use bearpit.Value.{Value, null, str, Fields, get_or_null, py_str}
use bearpit.Machine.Decl.{MachineDef, EffectName, Effect, fields_of}
use bearpit.Machine.State.{Bindings, MachineState, Ctx, set_of, required, resolve}
use bearpit.Machine.Pointer.{Reason, Step, refused, stepped, advance_actor, set_actor}
use bearpit.Machine.Effects.{
  pool, member_or_reason, change_set, mark_unless, mark, marked_value, and_then, reveal_owners,
  actor_arg, apply_named, apply_effect, apply_effects,
}
use bearpit.Machine.Invariant.{
  IsWellFormed, StepKeeps, advance_to-Good, set_actor_to-Good, sets-Good, same-Good,
}

-- A value that passes names a member of the pool.
abbrev NamesMember : MachineDef → Bindings → Value → Type 0
NamesMember defn bindings v = (a : String) × (v ≡ str a) × (contains a (pool defn bindings) ≡ true)

member_or_reason-passed :
    (defn : MachineDef) (bindings : Bindings) (v : Value)
    → member_or_reason defn bindings v ≡ ok none
    → NamesMember defn bindings v
unfolding member_or_reason
member_or_reason-passed defn bindings (str a) h =
    elim (Bool-cases (contains a (pool defn bindings))) [
      | inl m ↦ (a, refl, m)
      | inr m ↦ ground (arith, m, h)
    ]
member_or_reason-passed defn bindings null h = cc
member_or_reason-passed defn bindings _ h = cc

-- A change of a set that brings in at most the agent that it names.
abbrev AddsAtMost : (String → StrSet → StrSet) → Type 0
AddsAtMost change =
    (a who : String) (s : StrSet)
    → contains a (change who s) ≡ true
    → (a ≡ who) ⊎ (contains a s ≡ true)

add-AddsAtMost : AddsAtMost add
add-AddsAtMost a who s h = ground (arith, contains-add a who s, eq_iff a who)

discard-AddsAtMost : AddsAtMost discard
discard-AddsAtMost a who s h = ground (arith, contains-discard a who s)

module _ (defn : MachineDef) (bindings : Bindings) where
  abbrev Good : MachineState → Type 0
  Good = IsWellFormed defn bindings

  abbrev Keeps : Py Step → Type 0
  Keeps = Holds (StepKeeps Good)

  change_set-Good :
      (change : String → StrSet → StrSet) (key : String) (v : Value) (s : MachineState)
      → AddsAtMost change
      → NamesMember defn bindings v
      → Good s
      → Good (change_set change key v s)
  unfolding py_str
  change_set-Good change key v s few (a, e, m) g =
      sets-Good defn bindings s key (change (py_str v) (set_of s key)) g λ b x.
        elim (few b (py_str v) (set_of s key) x) [
          | inl eq ↦ subst (λ c. contains c (pool defn bindings) ≡ true) (sym (eq ∙ ap py_str e)) m
          | inr before ↦ g.marked key b before
        ]

  mark_unless-Good :
      (change : String → StrSet → StrSet) (a : Fields) (s : MachineState) (who : Value)
      (bad : Option Reason)
      → AddsAtMost change
      → member_or_reason defn bindings who ≡ ok bad
      → Good s
      → Keeps (mark_unless change a s who bad)
  mark_unless-Good change a s who (some reason) few e g = tt
  mark_unless-Good change a s who none few e g =
      Holds-bind (StepKeeps Good) (required "key" a) _ (λ key _.
        change_set-Good change (py_str key) who s few (member_or_reason-passed defn bindings who e)
          g)

  mark-Good :
      (change : String → StrSet → StrSet) (a : Fields) (s : MachineState) (who : Value)
      → AddsAtMost change
      → Good s
      → Keeps (mark change a defn bindings s who)
  unfolding mark
  mark-Good change a s who few g =
      Holds-bind (StepKeeps Good) (member_or_reason defn bindings who) _
        (λ bad e. mark_unless-Good change a s who bad few e g)

  apply_named-Good :
      (n : EffectName) (arg : Value) (s : MachineState) (ctx : Ctx) (now : ℕ)
      → Good s
      → Keeps (apply_named n arg defn bindings s ctx now)
  unfolding apply_named advance_actor set_actor
  apply_named-Good EffectName.advance_actor arg s ctx now g =
      advance_to-Good defn bindings defn.actor s now refl g
  apply_named-Good EffectName.add_to arg s ctx now g =
      mark-Good add (fields_of arg) s (marked_value arg ctx s) add-AddsAtMost g
  apply_named-Good EffectName.remove_from arg s ctx now g =
      mark-Good discard (fields_of arg) s (marked_value arg ctx s) discard-AddsAtMost g
  apply_named-Good EffectName.reset arg s ctx now g =
      sets-Good defn bindings s (py_str arg) [] g (λ a x. cc)
  apply_named-Good EffectName.set arg s ctx now g =
      Holds-bind (StepKeeps Good) (required "key" (fields_of arg)) _
        (λ key _. same-Good defn bindings s _ refl refl refl g)
  apply_named-Good EffectName.unset arg s ctx now g = same-Good defn bindings s _ refl refl refl g
  apply_named-Good EffectName.set_actor arg s ctx now g =
      set_actor_to-Good defn bindings defn.actor s (actor_arg (resolve arg ctx s)) now refl g
  apply_named-Good EffectName.reveal arg s ctx now g =
      Holds-bind (StepKeeps Good) (required "key" (fields_of arg)) _ (λ key _.
        Holds-bind (StepKeeps Good)
          (reveal_owners (get_or_null "owners" (fields_of arg)) bindings s ctx) _
          (λ owners _. same-Good defn bindings s _ refl refl refl g))
  apply_named-Good (EffectName.unknown n) arg s ctx now g = tt

  and_then-Good :
      (step : Step) (rest : MachineState → Py Step)
      → StepKeeps Good step
      → ((next : MachineState) → Good next → Keeps (rest next))
      → Keeps (and_then step rest)
  and_then-Good (refused reason) rest g h = tt
  and_then-Good (stepped next) rest g h = h next g

  pub apply_effects-Good :
      (es : List Effect) (s : MachineState) (ctx : Ctx) (now : ℕ)
      → Good s
      → Keeps (apply_effects es defn bindings s ctx now)
  unfolding apply_effects apply_effect
  apply_effects-Good [] s ctx now g = g
  apply_effects-Good (e ∷ es) s ctx now g =
      Holds-bind (StepKeeps Good) (apply_effect e defn bindings s ctx now) _ (λ step eq.
        and_then-Good step (λ next. apply_effects es defn bindings next ctx now)
          (Holds-ok (StepKeeps Good) (apply_effect e defn bindings s ctx now) step
            (apply_named-Good e.name e.arg s ctx now g) eq)
          (λ next gn. apply_effects-Good es next ctx now gn))
