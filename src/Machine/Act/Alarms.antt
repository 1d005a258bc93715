-- ===== src/Machine/Act/Alarms.antt =====
-- Who is woken by a change of state (src/bearpit/realmtools/machine.py, `compute_wakes`).
use bearpit.Base.{
  ℕ, String, Bool, false, not, ◌&&◌, Option, none, some, List, [], ◌∷◌, ◌==◌, if◌then◌else◌,
  is_some,
}
use bearpit.Base.Dict.{Dict}
use bearpit.Base.StrSet.{StrSet, union, sorted}
use bearpit.Base.Outcome.{Py, ok, ◌>>=◌}
use bearpit.Machine.Decl.{MachineDef, Guard, WakeRule}
use bearpit.Machine.State.{Bindings, MachineState, Ctx, members_of}
use bearpit.Machine.Guards.{same_actor, guards_hold}

abbrev pub wake_ctx : Dict StrSet → Ctx
wake_ctx escrow = record { caller = none; args = []; escrow = escrow }

-- `guards_hold(...)[0]`
abbrev pub hold : List Guard → Bindings → MachineState → Ctx → Py Bool
hold gs bindings state ctx = do
  failure ← guards_hold gs bindings state ctx
  ok (not (is_some failure))

-- `bool(unless) and guards_hold(unless, ...)[0]`
abbrev pub blocked : List Guard → Bindings → MachineState → Ctx → Py Bool
blocked [] bindings state ctx = ok false
blocked (g ∷ gs) bindings state ctx = hold (g ∷ gs) bindings state ctx

-- `role: actor` fires when the pointer moved to somebody.
abbrev pub actor_wakes : WakeRule → Bindings → MachineState → MachineState → Ctx → Py Bool
actor_wakes w bindings old new ctx =
    if is_some new.actor && not (same_actor new.actor old.actor)
    then (do
      held ← hold w.when bindings new ctx
      if held then (do stopped ← blocked w.unless bindings new ctx; ok (not stopped)) else ok false)
    else ok false

-- A role rule fires when its condition has become true.
abbrev pub role_wakes : WakeRule → Bindings → MachineState → MachineState → Ctx → Py Bool
role_wakes w bindings old new ctx = do
  now_true ← hold w.when bindings new ctx
  was_true ← hold w.when bindings old ctx
  stopped ← blocked w.unless bindings new ctx
  ok (now_true && not was_true && not stopped)

abbrev pub opt_list : Option String → List String
opt_list none = []
opt_list (some a) = a ∷ []

abbrev pub Targets : Type 0
Targets = StrSet × StrSet

-- A rule with `after_s` is the host's clock rule, and never evaluated here.
abbrev pub unless_timed : Option ℕ → Targets → Py Targets → Py Targets
unless_timed (some s) acc evaluated = ok acc
unless_timed none acc evaluated = evaluated

abbrev pub add_actor : MachineState → Targets → Bool → Targets
add_actor new acc fires = (acc.0, if fires then union (opt_list new.actor) acc.1 else acc.1)

abbrev pub add_role : Bindings → String → Targets → Bool → Targets
add_role bindings role acc fires =
    ((if fires then union (members_of bindings role) acc.0 else acc.0), acc.1)

-- One turn of the loop over the rules, on the targets so far.
abbrev pub wake_rule :
    WakeRule → Bindings → MachineState → MachineState → Ctx → Targets → Py Targets
wake_rule w bindings old new ctx acc = unless_timed w.after_s acc (
    if w.role == "actor"
    then (do fires ← actor_wakes w bindings old new ctx; ok (add_actor new acc fires))
    else (do fires ← role_wakes w bindings old new ctx; ok (add_role bindings w.role acc fires)))

unfoldable pub wake_rules :
    List WakeRule → Bindings → MachineState → MachineState → Ctx → Targets → Py Targets
wake_rules [] bindings old new ctx acc = ok acc
wake_rules (w ∷ ws) bindings old new ctx acc = do
  acc' ← wake_rule w bindings old new ctx acc
  wake_rules ws bindings old new ctx acc'

unfoldable pub compute_wakes :
    MachineDef
    → Bindings
    → MachineState
    → MachineState
    → Dict StrSet
    → Py (List String × List String)
unfolding wake_rules
compute_wakes defn bindings old new escrow = do
  targets ← wake_rules defn.wake bindings old new (wake_ctx escrow) ([], [])
  ok (sorted targets.0, sorted targets.1)
