-- ===== src/Machine/Wakes.antt =====
-- The launch checks on a wake rule (src/bearpit/core/machine.py) against its evaluation
-- (src/bearpit/realmtools/machine.py, `compute_wakes`).
use bearpit.Base.{
  ℕ, ◌≡◌, true, false, not, ◌&&◌, Option, none, some, List, [], ◌∷◌, ◌++◌, ◌==◌, is_some, All,
  if◌then◌else◌,
}
use bearpit.Base.Dict.{Dict}
use bearpit.Base.StrSet.{StrSet}
use bearpit.Base.Outcome.{ok, ◌>>=◌, Returns, Returns-bind, Returns-if}
use bearpit.Machine.Decl.{MachineDef, Guard, WakeRule}
use bearpit.Machine.State.{Bindings, MachineState, Ctx}
use bearpit.Machine.Guards.{guards_hold, same_actor}
use bearpit.Machine.Act.{
  wake_ctx, hold, blocked, actor_wakes, role_wakes, Targets, unless_timed, add_actor, add_role,
  wake_rule, wake_rules, compute_wakes,
}
use bearpit.Machine.Validate.{Refusal, passes, for_all, known_guard, require}
use bearpit.Machine.Authority
use bearpit.Machine.Authority.{
  validate, authority, check_wake, check_wake_role, check_wake_guard, check_authority, reads_caller,
}
use bearpit.Machine.Sound.{both_pass, validate-parts}
use bearpit.Machine.Progress.{guards_hold-Returns, for_all-All, All-map}

-- Every guard of every wake rule has a name of the vocabulary.
abbrev pub KnownWakes : MachineDef → Type 0
KnownWakes defn = All (λ w. All (λ g. known_guard g.name ≡ true) (w.when ++ w.unless)) defn.wake

All-append {ℓ κ} :
    {A : Type ℓ} (P : A → Type κ) (xs ys : List A) → All P (xs ++ ys) → All P xs × All P ys
All-append P [] ys h = (tt, h)
All-append P (x ∷ xs) ys h = let r = All-append P xs ys h.1 in ((h.0, r.0), r.1)

module _ (defn : MachineDef) (bindings : Bindings) where
  abbrev NeverRaises : List Guard → Type 0
  NeverRaises gs =
      All (λ g. known_guard g.name ≡ true) gs
      × All (λ g. Authority.check_guard defn false g ≡ passes) gs

  module _ (ctx : Ctx) where
    hold-Returns :
        (gs : List Guard) (s : MachineState) → NeverRaises gs → Returns (hold gs bindings s ctx)
    hold-Returns gs s e =
        Returns-bind (guards_hold gs bindings s ctx) _
          (guards_hold-Returns defn bindings s ctx false gs e.0 e.1) (λ failure _. tt)

    blocked-Returns :
        (gs : List Guard) (s : MachineState) → NeverRaises gs → Returns (blocked gs bindings s ctx)
    blocked-Returns [] s e = tt
    blocked-Returns (g ∷ gs) s e = hold-Returns (g ∷ gs) s e

    module _ (w : WakeRule) (old new : MachineState) (ew : NeverRaises w.when)
        (eu : NeverRaises w.unless) where
      actor_wakes-Returns : Returns (actor_wakes w bindings old new ctx)
      actor_wakes-Returns =
          Returns-if (is_some new.actor && not (same_actor new.actor old.actor)) _ _
            (Returns-bind (hold w.when bindings new ctx) _ (hold-Returns w.when new ew) (λ held _.
              Returns-if held _ _
                (Returns-bind (blocked w.unless bindings new ctx) _
                  (blocked-Returns w.unless new eu) (λ b _. tt))
                tt))
            tt

      role_wakes-Returns : Returns (role_wakes w bindings old new ctx)
      role_wakes-Returns =
          Returns-bind (hold w.when bindings new ctx) _ (hold-Returns w.when new ew) (λ a _.
            Returns-bind (hold w.when bindings old ctx) _ (hold-Returns w.when old ew) (λ b _.
              Returns-bind (blocked w.unless bindings new ctx) _ (blocked-Returns w.unless new eu)
                (λ c _. tt)))

      wake_rule-Returns : (acc : Targets) → Returns (wake_rule w bindings old new ctx acc)
      wake_rule-Returns acc = timed w.after_s
        where
          timed :
              (o : Option ℕ)
              → Returns (
                  unless_timed o acc (
                    if w.role == "actor"
                    then (do
                      fires ← actor_wakes w bindings old new ctx
                      ok (add_actor new acc fires))
                    else (do
                      fires ← role_wakes w bindings old new ctx
                      ok (add_role bindings w.role acc fires))))
          timed (some s) = tt
          timed none =
              Returns-if (w.role == "actor") _ _
                (Returns-bind (actor_wakes w bindings old new ctx) _ actor_wakes-Returns
                  (λ f _. tt))
                (Returns-bind (role_wakes w bindings old new ctx) _ role_wakes-Returns (λ f _. tt))

    wake_rules-Returns :
        (ws : List WakeRule) (old new : MachineState) (acc : Targets)
        → All (λ w. NeverRaises w.when × NeverRaises w.unless) ws
        → Returns (wake_rules ws bindings old new ctx acc)
    unfolding wake_rules
    wake_rules-Returns [] old new acc h = tt
    wake_rules-Returns (w ∷ ws) old new acc h =
        Returns-bind (wake_rule w bindings old new ctx acc) _
          (wake_rule-Returns w old new h.0.0 h.0.1 acc)
          (λ acc' _. wake_rules-Returns ws old new acc' h.1)

  wake_guards :
      (gs : List Guard)
      → All (λ g. check_wake_guard defn g ≡ passes) gs
      → All (λ g. Authority.check_guard defn false g ≡ passes) gs
  wake_guards gs h =
      All-map _ _ gs
        (λ g p.
          (both_pass (require (not (reads_caller g.name)) Refusal.wake_guard_reads_caller) _ p).1)
        h

  evaluable_rules :
      (ws : List WakeRule)
      → All (λ w. All (λ g. known_guard g.name ≡ true) (w.when ++ w.unless)) ws
      → All (λ w. check_wake defn w ≡ passes) ws
      → All (λ w. NeverRaises w.when × NeverRaises w.unless) ws
  evaluable_rules [] k h = tt
  evaluable_rules (w ∷ ws) k h =
      let all_guards = for_all (check_wake_guard defn) (w.when ++ w.unless) in
      let checked =
        for_all-All (check_wake_guard defn) (w.when ++ w.unless)
          (both_pass (check_wake_role defn w) all_guards h.0).1 in
      let good = All-append _ w.when w.unless (wake_guards (w.when ++ w.unless) checked) in
      let known = All-append _ w.when w.unless k.0 in
      (((known.0, good.0), (known.1, good.1)), evaluable_rules ws k.1 h.1)

  -- In a machine that passed the launch checks and whose wake rules use known guards, the wakes of
  -- any change of state are computed without an exception.
  pub compute_wakes-Returns :
      (old new : MachineState) (escrow : Dict StrSet)
      → validate defn ≡ passes
      → KnownWakes defn
      → Returns (compute_wakes defn bindings old new escrow)
  unfolding compute_wakes authority
  compute_wakes-Returns old new escrow valid known =
      let rules = for_all (check_wake defn) defn.wake in
      let checked =
        both_pass (for_all (check_authority defn) defn.transitions) rules
          (validate-parts defn valid).1 in
      Returns-bind (wake_rules defn.wake bindings old new (wake_ctx escrow) ([], [])) _
        (wake_rules-Returns (wake_ctx escrow) defn.wake old new ([], [])
          (evaluable_rules defn.wake known (for_all-All (check_wake defn) defn.wake checked.1)))
        (λ targets _. tt)
