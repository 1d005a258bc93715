-- ===== src/Tests.antt =====
-- The theorems on turns, endings, limits, votes and seals, applied to small inputs.
use bearpit.Base.{
  ◌-◌, inl, inr, Bool-cases, ◌+◌, ◌*◌, ◌≤◌, ◌<◌, String, true, false, ◌≡◌, refl, Option, none, some,
  [], ◌∷◌, ◌==◌, All, length, eq_iff, arith,
}
use bearpit.Base.Dict.{Dict}
use bearpit.Base.Outcome.{Total, Holds}
use bearpit.Turns.State.{Config, CuePolicy, Turns, initial}
use bearpit.Turns.Speech.{Text}
use bearpit.Turns.Observe.{said, observe}
use bearpit.Turns.Seats.{IsSeated, IsForHolder}
use bearpit.Turns.Resolutions.{apply_resolutions}
use bearpit.Turns.Removals.{apply_resolutions-IsSeated}
use bearpit.Turns.Ticks.{observe-IsSeated}
use bearpit.Termination.{
  Kind, MatchMode, Condition, Snapshot, Patterns, evaluate_termination, evaluate_termination-first,
}
use bearpit.RateLimit.{Rates, TokenBucket, bucket_allow, spent, spent-bounded}
use bearpit.Tally.{TallyText, Winner, result, majority, votes_of, votes_for, majority_sound}
use bearpit.Lifecycle
use bearpit.Lifecycle.{
  RealmState, AgentState, Goes, Reaches, ended, stages_left, transitions_bounded,
}
use bearpit.Escrow.{
  Cipher, Escrow, Sealing, sealed_submit, reveal, accepted, submit, reveal_round, sealed_at,
}
use bearpit.Escrow.Recovery.{
  IsCoherent, Faithful, submit-IsCoherent, reveal_round-IsCoherent, Revealed, submit-Revealed,
}

abbrev plain_text : Text
plain_text = record {
  strip = λ s. s;
  strip_blank = λ s. s;
  squeeze = λ s. s;
  lower = λ s. s;
  is_runtime_error = λ s. false;
  without_blocks = λ s. s;
  before_mark = λ s. none;
}

abbrev debate : Config
debate = record {
  realm = "d1";
  timeout = 90;
  reannounce = 45;
  cue = CuePolicy.each_round;
  min_rounds = 1;
  drives = true;
  retire_after = 2;
  referee_id = some "@d1-chair:x";
  verdict_tool = true;
}

abbrev floor_with_bob : Turns
unfolding initial
floor_with_bob = record (initial ("@d1-ann:x" ∷ "@d1-bob:x" ∷ [])) { started = true; position = 1 }

floor_with_bob-IsSeated : IsSeated debate floor_with_bob
unfolding floor_with_bob
floor_with_bob-IsSeated = record { in_range = λ e. omega arith; parked = λ w e. cc }

observe-IsSeated_example :
    Total
      (λ r. IsSeated debate r.0 × All (IsForHolder r.0) r.1)
      (observe plain_text debate 20 21 (said "@d1-bob:x" "I disagree" ∷ []) floor_with_bob)
observe-IsSeated_example =
    observe-IsSeated plain_text debate 20 21 (said "@d1-bob:x" "I disagree" ∷ []) floor_with_bob
      floor_with_bob-IsSeated

apply_resolutions-IsSeated_example :
    Holds
      (λ r. IsSeated debate r.0 × All (IsForHolder r.0) r.1)
      (apply_resolutions plain_text debate 30 31 (some "bob" ∷ none ∷ []) floor_with_bob)
apply_resolutions-IsSeated_example =
    apply_resolutions-IsSeated plain_text debate 30 31 (some "bob" ∷ none ∷ []) floor_with_bob
      floor_with_bob-IsSeated

abbrev exact_patterns : Patterns
exact_patterns = record {
  contains_text = λ n h. n == h;
  search = λ n h. n == h;
  fnmatch = λ p g. p == g;
  seconds = λ s. 60;
}

abbrev any_condition : Condition
any_condition = record {
  kind = Kind.duration;
  limit = some "1m";
  path = none;
  content_match = none;
  count = none;
  channel = none;
  pattern = none;
  match_mode = MatchMode.substring;
  scope = none;
}

abbrev verdict_given : Condition
verdict_given = record any_condition { kind = Kind.referee_verdict }

abbrev early_verdict : Snapshot
early_verdict = record {
  elapsed_s = 30;
  messages = [];
  files = [];
  file_contents = [];
  spend = [];
  verdict = some "ann wins";
  idle_s = 2;
  manual_stop = false;
  participants = 2;
  participants_alive = 0;
  machine_state = none;
  machine_terminal_reached = false;
}

evaluate_termination-first_example :
    evaluate_termination exact_patterns (any_condition ∷ verdict_given ∷ []) early_verdict
    ≡ some Kind.referee_verdict
evaluate_termination-first_example =
    evaluate_termination-first exact_patterns (any_condition ∷ []) [] verdict_given early_verdict
      refl refl

abbrev half_a_second : Rates
half_a_second = record { rate = 1; capacity = 10; one = 2 }

-- A bucket that a clock running back left in debt.
abbrev in_debt : TokenBucket
in_debt = record { tokens = 0; owed = 2; last = some 3 }

spent-bounded_example : spent half_a_second in_debt (30 ∷ 30 ∷ 35 ∷ []) ≤ 10 + (35 - 30) * 1
spent-bounded_example =
    spent-bounded half_a_second in_debt 30 (30 ∷ 35 ∷ []) (omega arith, (omega arith, tt))

six_spent : spent half_a_second in_debt (30 ∷ 30 ∷ 35 ∷ []) ≡ 6
unfolding spent bucket_allow
six_spent = refl

abbrev plain_votes : TallyText
plain_votes = record { strip = λ s. s; lower = λ s. s; read_int = λ s. none }

abbrev ballots : Dict String
ballots = ("ann", "red") ∷ ("bob", "blue") ∷ ("cat", "red") ∷ []

majority_of_ballots : majority plain_votes ballots ≡ result (Winner.option "red")
unfolding majority
majority_of_ballots = refl

majority_sound_example :
    length (votes_of plain_votes ballots)
    < votes_for plain_votes "red" (votes_of plain_votes ballots) * 2
majority_sound_example = majority_sound plain_votes ballots "red" majority_of_ballots

draft_fails : Goes RealmState.draft (RealmState.provisioning ∷ RealmState.failed ∷ [])
unfolding Lifecycle.realm_transition
draft_fails =
    Goes.moves RealmState.draft RealmState.provisioning _ refl
      (Goes.moves RealmState.provisioning RealmState.failed _ refl (Goes.rests RealmState.failed))

transitions_bounded_example : length (RealmState.provisioning ∷ RealmState.failed ∷ []) ≤ 4
transitions_bounded_example =
    transitions_bounded RealmState.draft (RealmState.provisioning ∷ RealmState.failed ∷ [])
      draft_fails

-- A cipher that puts a mark before the text.
abbrev unmark : String → Option String
unmark String.[] = none
unmark (String.◌∷◌ c s) = some s

abbrev marked : Cipher
marked = record { encrypt = λ s. String.◌∷◌ "!" s; decrypt = unmark }

marked-blank : (p : String) → String.◌∷◌ "!" p ≡ String.[] → ⊥
marked-blank p h = cc

marked-Faithful : Faithful marked
marked-Faithful p = (
  refl,
  elim (Bool-cases (String.◌∷◌ "!" p == "")) [
    | inl e ↦ absurd (marked-blank p ((eq_iff (String.◌∷◌ "!" p) "").0 e))
    | inr e ↦ e
  ],
)

abbrev opened : Escrow
opened = record {
  participants = "ann" ∷ "bob" ∷ [];
  sealed = [];
  revealed = [];
  loaded = true;
  events = [];
}

opened-IsCoherent : IsCoherent marked opened
unfolding bearpit.Escrow.read_submits bearpit.Escrow.read_reveals
opened-IsCoherent = record {
  is_loaded = refl;
  same_sealed = λ r a. refl;
  same_revealed = λ r. refl;
}

abbrev ann_sealed : Escrow
ann_sealed = record opened {
  sealed = ("one", ("ann", "rock") ∷ []) ∷ [];
  events = sealed_submit "one" "ann" (some "!rock") ∷ [];
}

ann_seals : submit marked "one" "ann" "rock" opened ≡ accepted ann_sealed
unfolding submit
ann_seals = refl

ann_sealed-IsCoherent : IsCoherent marked ann_sealed
ann_sealed-IsCoherent =
    submit-IsCoherent marked marked-Faithful "one" "ann" "rock" refl refl opened ann_sealed
      opened-IsCoherent ann_seals

submit-IsCoherent_example : IsCoherent marked ann_sealed
submit-IsCoherent_example =
    submit-IsCoherent marked marked-Faithful "one" "ann" "rock" refl refl opened ann_sealed
      opened-IsCoherent ann_seals

abbrev ann_revealed : Escrow
ann_revealed = record ann_sealed {
  revealed = "one" ∷ [];
  events = sealed_submit "one" "ann" (some "!rock") ∷ reveal "one" (("ann", "rock") ∷ []) ∷ [];
}

ann_reveals : reveal_round marked "one" ann_sealed ≡ accepted (ann_revealed, ("ann", "rock") ∷ [])
unfolding reveal_round
ann_reveals = refl

reveal_round-IsCoherent_example : IsCoherent marked ann_revealed
reveal_round-IsCoherent_example =
    reveal_round-IsCoherent marked "one" ann_sealed ann_revealed (("ann", "rock") ∷ [])
      ann_sealed-IsCoherent ann_reveals

submit-Revealed_example : Revealed marked "one" "ann" "rock" ann_sealed
submit-Revealed_example =
    submit-Revealed marked marked-Faithful "one" "ann" "rock" refl refl opened ann_sealed
      opened-IsCoherent ann_seals
