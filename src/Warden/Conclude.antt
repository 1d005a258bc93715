-- ===== src/Warden/Conclude.antt =====
-- The concluding sequence (src/bearpit/warden/warden.py, `conclude`), as the list of what it does.
-- Each step can raise. A step that must succeed ends the sequence when it raises; the others do
-- not.
use bearpit.Base.{ℕ, String, Bool, true, false, not, List, [], ◌∷◌, ◌++◌, if◌then◌else◌, length}
use bearpit.Termination.{Kind}

-- Why a realm ends: a condition that fired, or one of the two reasons of the watch itself.
pub data Fired : Type 0 where
  condition : Kind → Fired
  wedged budget_exhausted : Fired

-- What the Warden does, in the order in which it does it. An output is the name of its record.
pub data Action : Type 0 where
  note_concluding : Fired → Action
  lift_gate : Action
  announce : Fired → Action
  wait_grace teardown note_teardown_error reconcile_spend : Action
  note_output : String → Action
  note_archived write_report : Action
  note_nudge nudge sleep : Action

-- What the calls come to: which of them raise, by how much was done before, what a teardown
-- captures, and which of the two callbacks are given.
pub record Env : Type 0 where
  pub raises : ℕ → Action → Bool
  pub captured : List String
  pub has_gate : Bool
  pub has_reconcile : Bool

-- What was done, and whether no exception is on its way out.
abbrev pub Run : Type 0
Run = List Action × Bool

module _ (env : Env) where
  abbrev pub raises_at : List Action → Action → Bool
  raises_at done a = env.raises (length done) a

  -- A step whose exception goes out.
  abbrev pub must : Action → Run → Run
  must a (done, false) = (done, false)
  must a (done, true) = (done ++ (a ∷ []), not (raises_at done a))

  -- A step whose exception is caught.
  abbrev pub attempt : Action → Run → Run
  attempt a (done, false) = (done, false)
  attempt a (done, true) = (done ++ (a ∷ []), true)

  abbrev pub record_outputs : List String → Run → Run
  record_outputs [] run = run
  record_outputs (o ∷ os) run = record_outputs os (attempt (Action.note_output o) run)

  abbrev pub reconcile : Run → Run
  reconcile run = if env.has_reconcile then attempt Action.reconcile_spend run else run

  abbrev pub archive : Run → Run
  archive run = must Action.write_report (must Action.note_archived run)

  -- From the teardown on; a teardown that raises captures nothing.
  abbrev pub after_teardown : Bool → Run → Run
  after_teardown true run = archive (reconcile (must Action.note_teardown_error run))
  after_teardown false run = archive (record_outputs env.captured (reconcile run))

  abbrev pub tear_down : Run → Run
  tear_down run = after_teardown (raises_at run.0 Action.teardown) (attempt Action.teardown run)

  abbrev pub lift_if_gated : Run → Run
  lift_if_gated run = if env.has_gate then must Action.lift_gate run else run

  -- Up to the end of the grace period.
  abbrev pub waited : Fired → Run → Run
  waited fired run =
      must Action.wait_grace
        (must (Action.announce fired) (lift_if_gated (must (Action.note_concluding fired) run)))

  unfoldable pub conclude : Fired → Run → Run
  conclude fired run = tear_down (waited fired run)
