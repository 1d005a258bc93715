-- ===== src/Warden/Tests.antt =====
-- Runs of the Warden, and the theorems applied to them (src/bearpit/warden/warden.py).
use bearpit.Base.{◌≡◌, ◌≤◌, refl, Bool, true, false, ◌&&◌, none, some, List, [], ◌∷◌, arith, ◌==◌}
use bearpit.Termination.{Condition, Snapshot, Patterns, Kind, MatchMode}
use bearpit.Warden.Conclude.{Fired, Action, Env, conclude}
use bearpit.Warden.Watch.{Poll, failed, seen, Settings, start, watch}
use bearpit.Warden.Order.{teardown_first, conclude-teardown_first}
use bearpit.Warden.Success.{reaches_teardown, stopped_ok, archived_ok, conclude_succeeds}
use bearpit.Warden.Ending.{Agrees, Ended, first_end, watch-first_end, watch-Ended}
use bearpit.Warden.Nudges.{nudge_count, done_by, watch-nudge_count}

abbrev same_texts : Patterns
same_texts = record {
  contains_text = λ s t. s == t;
  search = λ s t. s == t;
  fnmatch = λ s t. s == t;
  seconds = λ s. 60;
}

-- The teardown raises; nothing else does.
abbrev bad_teardown : Action → Bool
bad_teardown Action.teardown = true
bad_teardown _ = false

abbrev bad_docker : Env
bad_docker = record {
  raises = λ n a. bad_teardown a;
  captured = "report.md" ∷ [];
  has_gate = true;
  has_reconcile = true;
}

conclude_succeeds_example : (conclude bad_docker Fired.wedged ([], true)).1 ≡ (
    reaches_teardown bad_teardown true Fired.wedged
    && stopped_ok bad_teardown
    && archived_ok bad_teardown)
conclude_succeeds_example = conclude_succeeds bad_teardown bad_docker (λ n a. refl) Fired.wedged

conclude-teardown_first_example :
    teardown_first (conclude bad_docker Fired.wedged ([], true)).0 ≡ true
conclude-teardown_first_example = conclude-teardown_first bad_docker Fired.wedged

abbrev quiet : Snapshot
quiet = record {
  elapsed_s = 30;
  messages = [];
  files = [];
  file_contents = [];
  spend = [];
  verdict = none;
  idle_s = 2;
  manual_stop = false;
  participants = 2;
  participants_alive = 2;
  machine_state = none;
  machine_terminal_reached = false;
}

abbrev ruled : Condition
ruled = record {
  kind = Kind.referee_verdict;
  limit = none;
  path = none;
  content_match = none;
  count = none;
  channel = none;
  pattern = none;
  match_mode = MatchMode.substring;
  scope = none;
}

abbrev settings : Settings
settings = record {
  conditions = ruled ∷ [];
  interval_s = 5;
  max_ticks = some 3;
  has_nudge = true;
  stall_after_s = 5;
  max_nudges = 1;
}

abbrev polls : List Poll
polls = seen quiet ∷ failed ∷ seen quiet ∷ []

watch-first_end_example :
    Agrees
      (watch same_texts bad_docker settings polls start)
      (first_end same_texts (ruled ∷ []) (some 3) 0 0 polls)
watch-first_end_example = watch-first_end same_texts bad_docker settings polls start

watch-Ended_example : Ended (watch same_texts bad_docker settings polls start)
watch-Ended_example = watch-Ended same_texts bad_docker settings polls start 3 refl (omega arith)

watch-nudge_count_example :
    nudge_count (done_by (watch same_texts bad_docker settings polls start)) ≤ 1
watch-nudge_count_example = watch-nudge_count same_texts bad_docker settings polls
