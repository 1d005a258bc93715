-- ===== src/Warden/Watch.antt =====
-- The polling loop (src/bearpit/warden/warden.py, `watch`). The snapshots come as a list, failed
-- polls included; where it ends, the loop still waits. Times are whole seconds.
use bearpit.Base.{
  ℕ, suc, ◌+◌, ◌/◌, max, Bool, true, false, not, ◌&&◌, List, [], ◌∷◌, Option, none, some, eqb, ltb,
  leb, if◌then◌else◌, length,
}
use bearpit.Termination.{Condition, Snapshot, Patterns, evaluate_termination}
use bearpit.Warden.Conclude.{
  Action, Env, Run, must, conclude, Fired, condition, wedged, budget_exhausted,
}

abbrev pub max_tick_errors : ℕ
max_tick_errors = 5

-- One poll: it raised, or gave a snapshot.
pub data Poll : Type 0 where
  failed : Poll
  seen : Snapshot → Poll

-- Messages, files and spend so far.
pub record Progress : Type 0 where
  pub messages : ℕ
  pub files : ℕ
  pub spent : ℕ

abbrev pub total_spend : List (ℕ × Option ℕ) → ℕ
total_spend [] = 0
total_spend ((s, c) ∷ ps) = s + total_spend ps

abbrev pub progress_of : Snapshot → Progress
progress_of snap = record {
  messages = length snap.messages;
  files = length snap.files;
  spent = total_spend snap.spend;
}

abbrev pub same_progress : Progress → Option Progress → Bool
same_progress p none = false
same_progress p (some q) = eqb p.messages q.messages && (eqb p.files q.files && eqb p.spent q.spent)

pub record Settings : Type 0 where
  pub conditions : List Condition
  pub interval_s : ℕ
  pub max_ticks : Option ℕ
  pub has_nudge : Bool
  pub stall_after_s : ℕ
  pub max_nudges : ℕ

abbrev pub stall_ticks : Settings → ℕ
stall_ticks cfg = if ltb 0 cfg.interval_s then max 1 (cfg.stall_after_s / cfg.interval_s) else 1

-- The variables of the loop.
pub record Loop : Type 0 where
  pub tick : ℕ
  pub last_progress : Option Progress
  pub silent_ticks : ℕ
  pub nudges : ℕ
  pub consec_errors : ℕ
  pub run : Run

abbrev pub start : Loop
start = record {
  tick = 0;
  last_progress = none;
  silent_ticks = 0;
  nudges = 0;
  consec_errors = 0;
  run = ([], true);
}

-- How the loop ends, or that it has not: an exception that is not caught ends it too.
pub data Watched : Type 0 where
  concluded : Fired → Run → Watched
  waiting : Loop → Watched
  crashed : Run → Watched

module _ (py : Patterns) (env : Env) (cfg : Settings) where
  abbrev pub next_tick : Loop → Loop
  next_tick l = record l { tick = suc l.tick; run = must env Action.sleep l.run }

  abbrev pub nudged : Loop → Loop
  nudged l = record l {
    nudges = suc l.nudges;
    silent_ticks = 0;
    run = must env Action.nudge (must env Action.note_nudge l.run);
  }

  abbrev pub stalled_long : Loop → Bool
  stalled_long l =
      cfg.has_nudge && (ltb l.nudges cfg.max_nudges && leb (stall_ticks cfg) l.silent_ticks)

  abbrev pub one_more_silent : Loop → Loop
  one_more_silent l = record l { silent_ticks = suc l.silent_ticks }

  -- A tick whose snapshot ended nothing.
  abbrev pub track : Progress → Loop → Loop
  track p l =
      if same_progress p l.last_progress
      then (if stalled_long (one_more_silent l)
          then nudged (one_more_silent l)
          else one_more_silent l)
      else record l { last_progress = some p; silent_ticks = 0 }

  abbrev pub end_with : Fired → Loop → Watched
  end_with fired l = concluded fired (conclude env fired l.run)

  abbrev pub fewer_ticks : Loop → Bool
  fewer_ticks l = elim cfg.max_ticks [ none ↦ true | some n ↦ ltb l.tick n ]

  abbrev pub unless_crashed : Loop → (Loop → Watched) → Watched
  unless_crashed l rest = if l.run.1 then rest l else crashed l.run

  abbrev pub after_poll : Poll → Loop → (Loop → Watched) → Watched
  after_poll failed l rest =
      if leb max_tick_errors (suc l.consec_errors)
      then end_with wedged l
      else unless_crashed (next_tick (record l { consec_errors = suc l.consec_errors })) rest
  after_poll (seen snap) l rest = elim (evaluate_termination py cfg.conditions snap) [
    | some kind ↦ end_with (condition kind) l
    | none ↦
        unless_crashed (next_tick (track (progress_of snap) (record l { consec_errors = 0 }))) rest
  ]

  unfoldable pub watch : List Poll → Loop → Watched
  watch [] l = if fewer_ticks l then waiting l else end_with budget_exhausted l
  watch (p ∷ ps) l =
      if not (fewer_ticks l) then end_with budget_exhausted l else after_poll p l (watch ps)
