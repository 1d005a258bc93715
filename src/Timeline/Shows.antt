-- ===== src/Timeline/Shows.antt =====
-- A timeline against the replay that it tells (src/bearpit/realmtools/timeline.py,
-- `build_timeline`; src/bearpit/realmtools/machine.py, `replay_steps`).
use bearpit.Base.{
  ℕ, String, ◌≡◌, refl, Bool, true, false, List, [], ◌∷◌, Option, none, some, if◌then◌else◌,
}
use bearpit.Base.Outcome.{Holds, Py, ok, raised, Returns, Total, Total-bind}
use bearpit.Machine.Decl.{MachineDef}
use bearpit.Machine.State.{Bindings, MachineState, initial_state}
use bearpit.Machine.Rows.{Payload}
use bearpit.Machine.View.{view, log_row}
use bearpit.Machine.Replay.{
  ReplayError, Replayed, reached, failed_at, Walk, go_on, last_or, replay_step, replay_steps,
}
use bearpit.Timeline.Changes.{Change, diff_views}
use bearpit.Timeline.Moves.{Explains, diff_views-Explains}
use bearpit.Timeline.Build.{
  TimelineRow, Timeline, is_reported, uncaught, halted, show_row, after_event, timeline_from,
  build_timeline,
}

module _ (defn : MachineDef) (bindings : Bindings) (caller : String) where
  -- The rows that a caller gets for some events, from a state through those that they lead to: a
  -- hidden event has none, and a visible one has one, with its time, its payload and changes that
  -- explain how the caller's view moved at this event.
  pub data Told
      : List (ℕ × Payload) → MachineState → List MachineState → List TimelineRow → Type 0 where
    ended : (events : List (ℕ × Payload)) (s : MachineState) → Told events s [] []
    hidden :
        (ts : ℕ) (p : Payload) (events : List (ℕ × Payload)) (s next : MachineState)
        (states : List MachineState) (rows : List TimelineRow)
        → log_row defn bindings p caller ≡ none
        → Told events next states rows
        → Told ((ts, p) ∷ events) s (next ∷ states) rows
    visible :
        (ts : ℕ) (p q : Payload) (events : List (ℕ × Payload)) (s next : MachineState)
        (states : List MachineState) (rows : List TimelineRow) (changes : List Change)
        → log_row defn bindings p caller ≡ some q
        → Explains defn (view defn bindings s caller) (view defn bindings next caller) changes
        → Told events next states rows
        → Told
            ((ts, p) ∷ events)
            s
            (next ∷ states)
            (record { ts = ts; payload = q; changes = changes } ∷ rows)

  -- A timeline tells of a walk over some events from a state: the rows of the events that were
  -- replayed, what stopped it, and the caller's view of the last state.
  pub record Tells (events : List (ℕ × Payload)) (s : MachineState) (w : Walk) (t : Timeline)
      : Type 0 where
    pub rows : Told events s w.0 t.timeline
    pub stopped : t.error ≡ w.1
    pub last_view : t.state ≡ view defn bindings (last_or s w.0) caller

  -- The caller's views before and after each step of a walk can be compared.
  abbrev pub Comparable : MachineState → List MachineState → Type 0
  Comparable s [] = Unit
  Comparable s (next ∷ states) =
      Returns (diff_views defn (view defn bindings s caller) (view defn bindings next caller))
      × Comparable next states

  abbrev walk : List (ℕ × Payload) → MachineState → Walk
  walk = replay_steps defn bindings

  -- The walk does not end in an exception that `build_timeline` lets out.
  abbrev pub Reported : Walk → Type 0
  Reported (states, none) = Unit
  Reported (states, some e) = is_reported e ≡ true

  halted-Tells :
      (s : MachineState) (events : List (ℕ × Payload)) (e : ReplayError)
      → is_reported e ≡ true
      → Total (Tells events s ([], some e)) (halted (view defn bindings s caller) e)
  halted-Tells s events e h = by_test (is_reported e) h
    where
      by_test :
          (b : Bool)
          → b ≡ true
          → Total (Tells events s ([], some e)) (
              if b
              then ok
                  (record { state = view defn bindings s caller; timeline = []; error = some e })
              else raised (uncaught e))
      by_test true h = record { rows = ended events s; stopped = refl; last_view = refl }
      by_test false h = cc

  compared :
      (s next : MachineState)
      → Returns (diff_views defn (view defn bindings s caller) (view defn bindings next caller))
      → Total
          (Explains defn (view defn bindings s caller) (view defn bindings next caller))
          (diff_views defn (view defn bindings s caller) (view defn bindings next caller))
  compared s next r =
      Total-Holds _ (diff_views defn (view defn bindings s caller) (view defn bindings next caller))
        r (diff_views-Explains defn (view defn bindings s caller) (view defn bindings next caller))
    where
      Total-Holds :
          (P : List Change → Type 0) (m : Py (List Change)) → Returns m → Holds P m → Total P m
      Total-Holds P (ok c) r h = h
      Total-Holds P (raised x) r h = absurd r

  timeline_from-Tells :
      (events : List (ℕ × Payload)) (s : MachineState)
      → Comparable s (walk events s).0
      → Reported (walk events s)
      → Total
          (Tells events s (walk events s))
          (timeline_from defn bindings caller events s (view defn bindings s caller))
  unfolding timeline_from replay_steps
  timeline_from-Tells [] s c r = record { rows = ended [] s; stopped = refl; last_view = refl }
  timeline_from-Tells ((ts, p) ∷ events) s c r =
      by_step (replay_step defn bindings ts p s) c r (timeline_from-Tells events)
    where
      by_row :
          (next : MachineState) (o : Option Payload)
          → log_row defn bindings p caller ≡ o
          → Returns (diff_views defn (view defn bindings s caller) (view defn bindings next caller))
          → (m : Py Timeline) → Total (Tells events next (walk events next)) m
          → Total (Tells ((ts, p) ∷ events) s (next ∷ (walk events next).0, (walk events next).1)) (
              show_row defn bindings caller ts o
                (view defn bindings s caller)
                (view defn bindings next caller)
                m)
      by_row next none e c (ok t) told = record {
        rows = hidden ts p events s next (walk events next).0 t.timeline e told.rows;
        stopped = told.stopped;
        last_view = told.last_view;
      }
      by_row next none e c (Py.raised x) told = absurd told
      by_row next (some q) e c m told =
          Total-bind (Explains defn (view defn bindings s caller) (view defn bindings next caller))
            _ (diff_views defn (view defn bindings s caller) (view defn bindings next caller)) _
            (compared s next c)
            (λ changes _ moves.
              Total-bind (Tells events next (walk events next)) _ m _ told (λ t _ h. record {
                rows =
                    visible ts p q events s next (walk events next).0 t.timeline changes e moves
                      h.rows;
                stopped = h.stopped;
                last_view = h.last_view;
              }))

      by_step :
          (r : Replayed)
          → Comparable s (go_on r (walk events)).0
          → Reported (go_on r (walk events))
          → ((n : MachineState)
              → Comparable n (walk events n).0
              → Reported (walk events n)
              → Total
                  (Tells events n (walk events n))
                  (timeline_from defn bindings caller events n (view defn bindings n caller)))
          → Total (Tells ((ts, p) ∷ events) s (go_on r (walk events))) (
              after_event defn bindings caller ts p
                (view defn bindings s caller)
                r
                (timeline_from defn bindings caller events))
      by_step (failed_at x) c r h = halted-Tells s ((ts, p) ∷ events) x r
      by_step (reached next) c r h =
          by_row next (log_row defn bindings p caller) refl c.0 _ (h next c.1 r)

  -- Where the caller's views before and after each replayed event can be compared and the replay
  -- does not end in an exception other than a KeyError, the timeline is built: it has one row for
  -- each replayed event that the caller may read, in their order, with its time, its payload, and
  -- changes that are true of the views around it and tell each of their differences; then the
  -- failure that ends the replay, if one does, and the caller's view of the last state.
  pub build_timeline-Tells :
      (events : List (ℕ × Payload)) (start_ms : ℕ)
      → Comparable
          (initial_state defn bindings start_ms)
          (replay_steps defn bindings events (initial_state defn bindings start_ms)).0
      → Reported (replay_steps defn bindings events (initial_state defn bindings start_ms))
      → Total
          (Tells events
            (initial_state defn bindings start_ms)
            (replay_steps defn bindings events (initial_state defn bindings start_ms)))
          (build_timeline defn bindings caller events start_ms)
  unfolding build_timeline
  build_timeline-Tells events start_ms c r =
      timeline_from-Tells events (initial_state defn bindings start_ms) c r
