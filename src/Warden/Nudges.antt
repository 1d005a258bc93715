-- ===== src/Warden/Nudges.antt =====
-- How often a stalled realm is nudged (src/bearpit/warden/warden.py, `watch`).
use bearpit.Base.{
  ℕ, suc, ◌+◌, ◌≤◌, ◌≡◌, refl, String, Bool, true, false, not, List, [], ◌∷◌, ◌++◌, Option, none,
  some, leb, if◌then◌else◌, arith,
}
use bearpit.Termination.{Patterns, Kind, evaluate_termination}
use bearpit.Warden.Conclude.{
  Action, Env, Run, must, attempt, record_outputs, reconcile, archive, after_teardown,
  lift_if_gated, waited, conclude, Fired, raises_at, condition, wedged, budget_exhausted,
}
use bearpit.Warden.Watch.{
  Poll, failed, seen, Settings, Loop, start, Watched, concluded, waiting, crashed, watch,
  after_poll, end_with, next_tick, track, nudged, stalled_long, one_more_silent, fewer_ticks,
  unless_crashed, max_tick_errors, progress_of, same_progress, Progress,
}

abbrev pub is_nudge : Action → Bool
is_nudge Action.nudge = true
is_nudge _ = false

unfoldable pub nudge_count : List Action → ℕ
nudge_count [] = 0
nudge_count (a ∷ rest) = (if is_nudge a then 1 else 0) + nudge_count rest

nudge_count-append :
    (xs ys : List Action) → nudge_count (xs ++ ys) ≡ nudge_count xs + nudge_count ys
unfolding nudge_count
nudge_count-append [] ys = omega arith
nudge_count-append (x ∷ xs) ys = omega (arith, nudge_count-append xs ys)

-- What was done by the end of a watch.
abbrev pub done_by : Watched → List Action
done_by (concluded f r) = r.0
done_by (waiting l) = l.run.0
done_by (crashed r) = r.0

abbrev AtMost : ℕ → Run → Type 0
AtMost n run = nudge_count run.0 ≤ n

module _ (env : Env) where
  must-AtMost :
      (a : Action) (n : ℕ) (run : Run)
      → is_nudge a ≡ false
      → AtMost n run
      → AtMost n (must env a run)
  unfolding nudge_count
  must-AtMost a n (done, false) e h = h
  must-AtMost a n (done, true) e h = ground (arith, nudge_count-append done (a ∷ []), e, h)

  must_nudge-AtMost :
      (n : ℕ) (run : Run) → AtMost n run → AtMost (suc n) (must env Action.nudge run)
  unfolding nudge_count
  must_nudge-AtMost n (done, false) h = omega (arith, h)
  must_nudge-AtMost n (done, true) h =
      ground (arith, nudge_count-append done (Action.nudge ∷ []), h)

  attempt-AtMost :
      (a : Action) (n : ℕ) (run : Run)
      → is_nudge a ≡ false
      → AtMost n run
      → AtMost n (attempt env a run)
  unfolding nudge_count
  attempt-AtMost a n (done, false) e h = h
  attempt-AtMost a n (done, true) e h = ground (arith, nudge_count-append done (a ∷ []), e, h)

  outputs-AtMost :
      (os : List String) (n : ℕ) (run : Run) → AtMost n run → AtMost n (record_outputs env os run)
  outputs-AtMost [] n run h = h
  outputs-AtMost (o ∷ os) n run h =
      outputs-AtMost os n (attempt env (Action.note_output o) run)
        (attempt-AtMost (Action.note_output o) n run refl h)

  reconcile-AtMost : (n : ℕ) (run : Run) → AtMost n run → AtMost n (reconcile env run)
  reconcile-AtMost n run h = by_test env.has_reconcile
    where
      by_test : (b : Bool) → AtMost n (if b then attempt env Action.reconcile_spend run else run)
      by_test true = attempt-AtMost Action.reconcile_spend n run refl h
      by_test false = h

  archive-AtMost : (n : ℕ) (run : Run) → AtMost n run → AtMost n (archive env run)
  archive-AtMost n run h =
      must-AtMost Action.write_report n (must env Action.note_archived run) refl
        (must-AtMost Action.note_archived n run refl h)

  after-AtMost : (b : Bool) (n : ℕ) (run : Run) → AtMost n run → AtMost n (after_teardown env b run)
  after-AtMost true n run h =
      archive-AtMost n (reconcile env (must env Action.note_teardown_error run)) (
        reconcile-AtMost n (must env Action.note_teardown_error run)
          (must-AtMost Action.note_teardown_error n run refl h))
  after-AtMost false n run h =
      archive-AtMost n (record_outputs env env.captured (reconcile env run))
        (outputs-AtMost env.captured n (reconcile env run) (reconcile-AtMost n run h))

  lift_if_gated-AtMost : (n : ℕ) (run : Run) → AtMost n run → AtMost n (lift_if_gated env run)
  lift_if_gated-AtMost n run h = by_test env.has_gate
    where
      by_test : (b : Bool) → AtMost n (if b then must env Action.lift_gate run else run)
      by_test true = must-AtMost Action.lift_gate n run refl h
      by_test false = h

  -- Concluding nudges nobody.
  conclude-AtMost :
      (fired : Fired) (n : ℕ) (run : Run) → AtMost n run → AtMost n (conclude env fired run)
  unfolding conclude
  conclude-AtMost fired n run h =
      let noted = must env (Action.note_concluding fired) run in
      let told = must env (Action.announce fired) (lift_if_gated env noted) in
      after-AtMost (raises_at env (waited env fired run).0 Action.teardown) n
        (attempt env Action.teardown (waited env fired run))
        (attempt-AtMost Action.teardown n (waited env fired run) refl (
          must-AtMost Action.wait_grace n told refl (
            must-AtMost (Action.announce fired) n (lift_if_gated env noted) refl (
              lift_if_gated-AtMost n noted
                (must-AtMost (Action.note_concluding fired) n run refl h)))))

module _ (py : Patterns) (env : Env) (cfg : Settings) where
  -- The counter of the loop counts the nudges, and stays within the limit.
  record Counted (l : Loop) : Type 0 where
    all_counted : AtMost l.nudges l.run
    limited : l.nudges ≤ cfg.max_nudges

  abbrev Bounded : Watched → Type 0
  Bounded r = nudge_count (done_by r) ≤ cfg.max_nudges

  end_with-Bounded : (fired : Fired) (l : Loop) → Counted l → Bounded (end_with py env cfg fired l)
  end_with-Bounded fired l c =
      conclude-AtMost env fired cfg.max_nudges l.run (omega (arith, c.all_counted, c.limited))

  next_tick-Counted : (l : Loop) → Counted l → Counted (next_tick py env cfg l)
  next_tick-Counted l c = record {
    all_counted = must-AtMost env Action.sleep l.nudges l.run refl c.all_counted;
    limited = c.limited;
  }

  track-Counted : (p : Progress) (l : Loop) → Counted l → Counted (track py env cfg p l)
  track-Counted p l c =
      by_tests (same_progress p l.last_progress)
        (stalled_long py env cfg (one_more_silent py env cfg l)) refl
    where
      silent : Loop
      silent = one_more_silent py env cfg l

      by_tests :
          (b s : Bool)
          → stalled_long py env cfg silent ≡ s
          → Counted (
              if b
              then (if s then nudged py env cfg silent else silent)
              else record l { last_progress = some p; silent_ticks = 0 })
      by_tests true true e = record {
        all_counted =
            must_nudge-AtMost env l.nudges (must env Action.note_nudge l.run)
              (must-AtMost env Action.note_nudge l.nudges l.run refl c.all_counted);
        limited = ground (arith, e);
      }
      by_tests true false e = record { all_counted = c.all_counted; limited = c.limited }
      by_tests false s e = record { all_counted = c.all_counted; limited = c.limited }

  unless_crashed-Bounded :
      (l : Loop) (rest : Loop → Watched)
      → Counted l
      → Bounded (rest l)
      → Bounded (unless_crashed py env cfg l rest)
  unless_crashed-Bounded l rest c h = by_test l.run.1
    where
      by_test : (b : Bool) → Bounded (if b then rest l else crashed l.run)
      by_test true = h
      by_test false = omega (arith, c.all_counted, c.limited)

  after_poll-Bounded :
      (p : Poll) (l : Loop) (rest : Loop → Watched)
      → Counted l
      → ((k : Loop) → Counted k → Bounded (rest k))
      → Bounded (after_poll py env cfg p l rest)
  after_poll-Bounded failed l rest c h = by_test (leb max_tick_errors (suc l.consec_errors))
    where
      next : Loop
      next = next_tick py env cfg (record l { consec_errors = suc l.consec_errors })

      counted : Counted next
      counted =
          next_tick-Counted (record l { consec_errors = suc l.consec_errors })
            (record { all_counted = c.all_counted; limited = c.limited })

      by_test :
          (b : Bool)
          → Bounded
              (if b then end_with py env cfg wedged l else unless_crashed py env cfg next rest)
      by_test true = end_with-Bounded wedged l c
      by_test false = unless_crashed-Bounded next rest counted (h next counted)
  after_poll-Bounded (seen snap) l rest c h = by_kind (evaluate_termination py cfg.conditions snap)
    where
      calm : Loop
      calm = record l { consec_errors = 0 }

      next : Loop
      next = next_tick py env cfg (track py env cfg (progress_of snap) calm)

      counted : Counted next
      counted = next_tick-Counted (track py env cfg (progress_of snap) calm) (
          track-Counted (progress_of snap) calm
            (record { all_counted = c.all_counted; limited = c.limited }))

      by_kind :
          (o : Option Kind)
          → Bounded (elim o [
            | some kind ↦ end_with py env cfg (condition kind) l
            | none ↦ unless_crashed py env cfg next rest
          ])
      by_kind (some kind) = end_with-Bounded (condition kind) l c
      by_kind none = unless_crashed-Bounded next rest counted (h next counted)

  watch-Bounded : (ps : List Poll) (l : Loop) → Counted l → Bounded (watch py env cfg ps l)
  unfolding watch
  watch-Bounded [] l c = by_test (fewer_ticks py env cfg l)
    where
      by_test :
          (b : Bool) → Bounded (if b then waiting l else end_with py env cfg budget_exhausted l)
      by_test true = omega (arith, c.all_counted, c.limited)
      by_test false = end_with-Bounded budget_exhausted l c
  watch-Bounded (p ∷ ps) l c = by_test (not (fewer_ticks py env cfg l)) (watch-Bounded ps)
    where
      by_test :
          (b : Bool)
          → ((k : Loop) → Counted k → Bounded (watch py env cfg ps k))
          → Bounded (
              if b
              then end_with py env cfg budget_exhausted l
              else after_poll py env cfg p l (watch py env cfg ps))
      by_test true h = end_with-Bounded budget_exhausted l c
      by_test false h = after_poll-Bounded p l (watch py env cfg ps) c h

  -- A watch from its start nudges the realm at most as often as its limit says, however long it
  -- stalls and however it ends.
  pub watch-nudge_count :
      (ps : List Poll) → nudge_count (done_by (watch py env cfg ps start)) ≤ cfg.max_nudges
  unfolding nudge_count
  watch-nudge_count ps =
      watch-Bounded ps start (record { all_counted = omega arith; limited = omega arith })
