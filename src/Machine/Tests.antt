-- ===== src/Machine/Tests.antt =====
-- Runs of a small machine, and the theorems applied to them
-- (src/bearpit/realmtools/machine.py).
use bearpit.Base.{All, contains, String, true, false, ◌≡◌, refl, none, some, [], ◌∷◌}
use bearpit.Base.Seq.{first}
use bearpit.Base.Outcome.{ok, Returns, Holds}
use mathlib.Core.Path.{subst}
use bearpit.Base.Dict.{lookup}
use bearpit.Machine.Recovery.Rounds.{Distinct, round_ids}
use bearpit.Value.{Value, null, str, list, dict, nil, cons, end, field}
use bearpit.Machine.Decl.{TransitionDef, Log}
use bearpit.Machine.State.{is_referee, Bindings, Ctx, MachineState, initial_state, expected}
use bearpit.Machine.Pointer.{rotation, eligible, advance_actor, next_actor}
use bearpit.Machine.Guards.{guards_hold}
use bearpit.Machine.Rows.{Outcome, outcome, ActRow, other, act_row, set_row}
use bearpit.Machine.Writes.{replay_step-set}
use bearpit.Machine.Secrecy.{set_value-secret}
use bearpit.Machine.View.{view}
use bearpit.Machine.Act.{set_record, ActCall, SetCall, call_ctx, compute_wakes, act, set_value}
use bearpit.Machine.Replay.{reached, replay_step, replay_steps}
use bearpit.Machine.Validate.{passes, structure}
use bearpit.Machine.Authority.{validate}
use bearpit.Machine.Invariant.{IsWellFormed}
use bearpit.Machine.Reachable.{
  AnswerKeeps, act-IsWellFormed, replay_steps-IsWellFormed, initial_state-IsWellFormed,
}
use bearpit.Machine.Progress.{transition_guards-Returns}
use bearpit.Machine.Recovery.Steps.{DistinctRounds, replay_step-act}
use bearpit.Machine.Pointer.Rotation.{turn_order, advance_actor-first, next_actor_sound}
use bearpit.Machine.Wakes.{KnownWakes, compute_wakes-Returns}
use bearpit.Machine.Samples.{
  fold, pointer, hand, game, table, lobby, bob_to_play, bob_folds, bob_folded, bob_row, bob_outcome,
}

game-validate : validate game ≡ passes
unfolding validate bearpit.Value.py_str bearpit.Value.value_eq
game-validate = refl

game-structure : structure game ≡ passes
unfolding structure bearpit.Value.py_str
game-structure = refl

game-KnownWakes : KnownWakes game
game-KnownWakes = (tt, ((refl, tt), tt))

bob_folds-act : act game table bob_to_play bob_folds ≡ ok (outcome bob_outcome)
unfolding act bearpit.Machine.State.roles_of guards_hold bearpit.Machine.Guards.check_guard expected
    bearpit.Value.py_str bearpit.Machine.State.resolve bearpit.Machine.Effects.apply_effects
    bearpit.Machine.Effects.apply_effect bearpit.Machine.Effects.member_or_reason compute_wakes
    advance_actor
bob_folds-act = refl

abbrev dealer_starts : ActCall
dealer_starts = record { caller = "dee"; transition = "start"; args = []; escrow = []; now_ms = 7 }

abbrev start_row : ActRow
start_row = record {
  transition = "start";
  caller = "dee";
  args = [];
  from = "lobby";
  to = "play";
  actor = some "ann";
  log = Log.public;
  wake = [];
  wake_actor = "ann" ∷ [];
}

abbrev deals_to_bob : SetCall
deals_to_bob = record {
  caller = "dee";
  key = "hand";
  value = str "two kings";
  owner = some "bob";
  escrow = [];
}

-- Bob's hand was shown to all before the new deal.
abbrev dealt : MachineState
dealt = record bob_to_play {
  owner_data = ("hand", ("bob", str "two kings") ∷ []) ∷ [];
  revealed = ("hand", []) ∷ [];
}

abbrev dealt_outcome : Outcome
dealt_outcome = record { state = dealt; payload = set_row (set_record deals_to_bob hand ([], [])) }

abbrev deals_worse : SetCall
deals_worse = record deals_to_bob { value = str "two twos" }

abbrev dealt_worse : MachineState
dealt_worse = record dealt { owner_data = ("hand", ("bob", str "two twos") ∷ []) ∷ [] }

abbrev dealt_worse_outcome : Outcome
dealt_worse_outcome = record {
  state = dealt_worse;
  payload = set_row (set_record deals_worse hand ([], []));
}

deals_to_bob-set_value : set_value game table bob_to_play deals_to_bob ≡ ok (outcome dealt_outcome)
unfolding set_value is_referee bearpit.Machine.Effects.member_or_reason compute_wakes guards_hold
    bearpit.Machine.Guards.check_guard expected bearpit.Value.py_str lobby
deals_to_bob-set_value = refl

deals_worse-set_value :
    set_value game table bob_to_play deals_worse ≡ ok (outcome dealt_worse_outcome)
unfolding set_value is_referee bearpit.Machine.Effects.member_or_reason compute_wakes guards_hold
    bearpit.Machine.Guards.check_guard expected bearpit.Value.py_str lobby
deals_worse-set_value = refl

ann-no_referee : is_referee game table "ann" ≡ false
unfolding is_referee
ann-no_referee = refl

abbrev bob_resolves : Ctx
bob_resolves = call_ctx bob_folds

fold_found : (t : TransitionDef) → lookup "fold" game.transitions ≡ some t → fold ≡ t
fold_found t h = cc

bids_distinct : DistinctRounds game table bob_to_play bob_folds
bids_distinct t h =
    subst (λ (x : TransitionDef). Distinct (round_ids "bob" [] table bob_to_play x.guard))
      (fold_found t h) (refl, tt)

replay_step-act_example : replay_step game table 40 bob_row bob_to_play ≡ reached bob_folded
replay_step-act_example =
    replay_step-act game table bob_to_play bob_folds bob_outcome game-validate game-KnownWakes
      bids_distinct bob_folds-act

transition_guards-Returns_example : Returns (guards_hold fold.guard table bob_to_play bob_resolves)
transition_guards-Returns_example =
    transition_guards-Returns game table bob_to_play bob_resolves "fold" fold game-validate refl

compute_wakes-Returns_example : Returns (compute_wakes game table bob_to_play bob_folded [])
compute_wakes-Returns_example =
    compute_wakes-Returns game table bob_to_play bob_folded [] game-validate game-KnownWakes

act-IsWellFormed_example :
    Holds
      (AnswerKeeps (IsWellFormed game table))
      (act game table (initial_state game table 5) dealer_starts)
act-IsWellFormed_example =
    act-IsWellFormed game table game-structure (initial_state game table 5) dealer_starts
      (initial_state-IsWellFormed game table game-structure 5)

replay_steps-IsWellFormed_example :
    All
      (IsWellFormed game table)
      (replay_steps game table
        ((7, act_row start_row) ∷ (9, other "noop") ∷ [])
        (initial_state game table 5)).0
replay_steps-IsWellFormed_example =
    replay_steps-IsWellFormed game table game-structure
      ((7, act_row start_row) ∷ (9, other "noop") ∷ []) (initial_state game table 5)
      (initial_state-IsWellFormed game table game-structure 5)

advance_actor-first_example : advance_actor game table bob_to_play 9 ≡ record bob_to_play {
  actor = first (eligible game bob_to_play) (turn_order (some "bob") (rotation pointer table));
  actor_since = 9;
}
advance_actor-first_example = advance_actor-first game pointer table bob_to_play 9 refl

next_actor_sound_example :
    ((c : String)
      → next_actor pointer table bob_to_play ≡ some c
      → (eligible game bob_to_play c ≡ true) × (contains c (rotation pointer table) ≡ true))
    × ((c : String)
        → next_actor pointer table bob_to_play ≡ none
        → contains c (rotation pointer table) ≡ true
        → eligible game bob_to_play c ≡ false)
next_actor_sound_example = next_actor_sound game pointer table bob_to_play refl

replay_step-set_example :
    replay_step game table 50 (set_row (set_record deals_to_bob hand ([], []))) bob_to_play
    ≡ reached dealt
replay_step-set_example =
    replay_step-set game table bob_to_play deals_to_bob dealt_outcome 50 game-validate
      game-KnownWakes deals_to_bob-set_value

set_value-secret_example : view game table dealt "ann" ≡ view game table dealt_worse "ann"
set_value-secret_example =
    set_value-secret game table bob_to_play deals_to_bob (str "two twos") "ann" dealt_outcome
      dealt_worse_outcome hand (refl, (refl, (refl, tt))) ann-no_referee refl refl refl
      deals_to_bob-set_value deals_worse-set_value
