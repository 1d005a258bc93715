-- ===== src/Warden/Success.antt =====
-- When concluding a realm succeeds
-- (src/bearpit/warden/warden.py, `conclude`).
use bearpit.Base.{
  ℕ, String, ◌≡◌, refl, ap, ◌∙◌, Bool, true, false, not, ◌&&◌, List, [], ◌∷◌, if◌then◌else◌, length,
  arith,
}
use bearpit.Warden.Conclude.{
  Fired, Action, Env, Run, raises_at, must, attempt, record_outputs, reconcile, archive,
  after_teardown, lift_if_gated, waited, conclude,
}

-- A teardown that raises must at least be noted.
abbrev pub stopped_ok : (Action → Bool) → Bool
stopped_ok fails = not (fails Action.teardown && fails Action.note_teardown_error)

abbrev pub archived_ok : (Action → Bool) → Bool
archived_ok fails = not (fails Action.note_archived) && not (fails Action.write_report)

-- Everything before the teardown goes well.
abbrev pub reaches_teardown : (Action → Bool) → Bool → Fired → Bool
reaches_teardown fails has_gate fired =
    not (fails (Action.note_concluding fired))
    && not (has_gate && fails Action.lift_gate)
    && not (fails (Action.announce fired))
    && not (fails Action.wait_grace)

module _ (fails : Action → Bool) (env : Env)
    (steady : (n : ℕ) (a : Action) → env.raises n a ≡ fails a) where
  must_alive : (a : Action) (run : Run) → (must env a run).1 ≡ (run.1 && not (fails a))
  must_alive a (done, false) = refl
  must_alive a (done, true) = ap not (steady (length done) a)

  attempt_alive : (a : Action) (run : Run) → (attempt env a run).1 ≡ run.1
  attempt_alive a (done, false) = refl
  attempt_alive a (done, true) = refl

  outputs_alive : (os : List String) (run : Run) → (record_outputs env os run).1 ≡ run.1
  outputs_alive [] run = refl
  outputs_alive (o ∷ os) run =
      outputs_alive os (attempt env (Action.note_output o) run)
      ∙ attempt_alive (Action.note_output o) run

  reconcile_alive : (run : Run) → (reconcile env run).1 ≡ run.1
  reconcile_alive run = by_test env.has_reconcile
    where
      by_test : (b : Bool) → (if b then attempt env Action.reconcile_spend run else run).1 ≡ run.1
      by_test true = attempt_alive Action.reconcile_spend run
      by_test false = refl

  archive_alive :
      (run : Run)
      → (archive env run).1
        ≡ (run.1 && not (fails Action.note_archived) && not (fails Action.write_report))
  archive_alive run =
      must_alive Action.write_report (must env Action.note_archived run)
      ∙ ap (λ b. b && not (fails Action.write_report)) (must_alive Action.note_archived run)

  after_alive :
      (b : Bool) (run : Run)
      → b ≡ fails Action.teardown
      → (after_teardown env b run).1 ≡ (run.1 && stopped_ok fails && archived_ok fails)
  after_alive true run e =
      archive_alive (reconcile env (must env Action.note_teardown_error run))
      ∙ ap (λ x. x && not (fails Action.note_archived) && not (fails Action.write_report))
          (reconcile_alive (must env Action.note_teardown_error run)
            ∙ must_alive Action.note_teardown_error run)
      ∙ ground (arith, e)
  after_alive false run e =
      archive_alive (record_outputs env env.captured (reconcile env run))
      ∙ ap (λ x. x && not (fails Action.note_archived) && not (fails Action.write_report))
          (outputs_alive env.captured (reconcile env run) ∙ reconcile_alive run)
      ∙ ground (arith, e)

  opened_alive :
      (run : Run)
      → (lift_if_gated env run).1 ≡ (run.1 && not (env.has_gate && fails Action.lift_gate))
  opened_alive run = by_test env.has_gate
    where
      by_test :
          (b : Bool)
          → (if b then must env Action.lift_gate run else run).1
            ≡ (run.1 && not (b && fails Action.lift_gate))
      by_test true = must_alive Action.lift_gate run
      by_test false = ground arith

  waited_alive :
      (fired : Fired) → (waited env fired ([], true)).1 ≡ reaches_teardown fails env.has_gate fired
  waited_alive fired =
      let noted = must env (Action.note_concluding fired) ([], true) in
      let m1 = must_alive (Action.note_concluding fired) ([], true) in
      let m2 = opened_alive noted in
      let m3 = must_alive (Action.announce fired) (lift_if_gated env noted) in
      let m4 =
        must_alive Action.wait_grace (must env (Action.announce fired) (lift_if_gated env noted)) in
      m4
      ∙ ap (λ b. b && not (fails Action.wait_grace))
          (m3
            ∙ ap (λ b. b && not (fails (Action.announce fired)))
                (m2 ∙ ap (λ b. b && not (env.has_gate && fails Action.lift_gate)) m1))
      ∙ regroup (not (fails (Action.note_concluding fired)))
          (not (env.has_gate && fails Action.lift_gate)) (not (fails (Action.announce fired)))
          (not (fails Action.wait_grace))
    where
      regroup : (a b c d : Bool) → (((true && a) && b) && c) && d ≡ (a && b && c && d)
      regroup true true true d = refl
      regroup true true false d = refl
      regroup true false c d = refl
      regroup false b c d = refl

  -- Where each step always or never raises, concluding a realm gives its report exactly if nothing
  -- before the teardown raises, a teardown that raises can be noted, and the last entry and the
  -- report can be written: a failing teardown, spend reading or output record does not cost it.
  pub conclude_succeeds :
      (fired : Fired)
      → (conclude env fired ([], true)).1
        ≡ (reaches_teardown fails env.has_gate fired && stopped_ok fails && archived_ok fails)
  unfolding conclude
  conclude_succeeds fired =
      after_alive (raises_at env (waited env fired ([], true)).0 Action.teardown)
        (attempt env Action.teardown (waited env fired ([], true)))
        (steady (length (waited env fired ([], true)).0) Action.teardown)
      ∙ ap (λ b. b && stopped_ok fails && archived_ok fails)
          (attempt_alive Action.teardown (waited env fired ([], true)) ∙ waited_alive fired)
