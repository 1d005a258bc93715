-- ===== src/Timeline/Build.antt =====
-- The rows of a realm's past for one caller (src/bearpit/realmtools/timeline.py,
-- `build_timeline`).
use bearpit.Base.{ℕ, String, Bool, true, false, List, [], ◌∷◌, Option, none, some, if◌then◌else◌}
use bearpit.Base.Outcome.{Py, ok, raised, Exn, ◌>>=◌}
use bearpit.Machine.Decl.{MachineDef}
use bearpit.Machine.State.{Bindings, MachineState, initial_state}
use bearpit.Machine.Rows.{Payload}
use bearpit.Machine.View.{View, view, log_row}
use bearpit.Machine.Replay.{ReplayError, engine_raised, Replayed, reached, failed_at, replay_step}
use bearpit.Timeline.Changes.{Change, diff_views}

pub record TimelineRow : Type 0 where
  pub ts : ℕ
  pub payload : Payload
  pub changes : List Change

-- `state` is what the caller sees at the end, and `error` what stopped the replay.
pub record Timeline : Type 0 where
  pub state : View
  pub timeline : List TimelineRow
  pub error : Option ReplayError

abbrev pub prepend_row : ℕ → Payload → List Change → Timeline → Timeline
prepend_row ts p changes rest = record rest {
  timeline = record { ts = ts; payload = p; changes = changes } ∷ rest.timeline;
}

-- A failed replay or a KeyError is reported with the rows so far; any other exception gets out.
abbrev pub is_reported : ReplayError → Bool
is_reported (engine_raised Exn.key_error) = true
is_reported (engine_raised e) = false
is_reported e = true

abbrev pub uncaught : ReplayError → Exn
uncaught (engine_raised e) = e
uncaught e = Exn.key_error

abbrev pub halted : View → ReplayError → Py Timeline
halted seen e =
    if is_reported e
    then ok (record { state = seen; timeline = []; error = some e })
    else raised (uncaught e)

module _ (defn : MachineDef) (bindings : Bindings) (caller : String) where
  -- A row that the caller may see comes with what it changed in the caller's view; a hidden one is
  -- passed over, with its changes.
  abbrev pub show_row : ℕ → Option Payload → View → View → Py Timeline → Py Timeline
  show_row ts none seen after rest = rest
  show_row ts (some p) seen after rest = do
    changes ← diff_views defn seen after
    others ← rest
    ok (prepend_row ts p changes others)

  -- One event; the walk ends where it does not replay.
  abbrev pub after_event :
      ℕ → Payload → View → Replayed → (MachineState → View → Py Timeline) → Py Timeline
  after_event ts p seen (failed_at e) rest = halted seen e
  after_event ts p seen (reached next) rest =
      let after = view defn bindings next caller in
      show_row ts (log_row defn bindings p caller) seen after (rest next after)

  unfoldable pub timeline_from : List (ℕ × Payload) → MachineState → View → Py Timeline
  timeline_from [] s seen = ok (record { state = seen; timeline = []; error = none })
  timeline_from ((ts, p) ∷ events) s seen =
      after_event ts p seen (replay_step defn bindings ts p s) (timeline_from events)

  unfoldable pub build_timeline : List (ℕ × Payload) → ℕ → Py Timeline
  unfolding timeline_from
  build_timeline events start_ms =
      let s = initial_state defn bindings start_ms in
      timeline_from events s (view defn bindings s caller)
