-- ===== src/Turns/Floor.antt =====
-- Granting the floor and passing it on (src/bearpit/warden/turns.py, `_grant`, `_cue_referee`,
-- `_roll_round_if_wrapped`, `_advance`, `_resume` and `start`). A function that reads the clock a
-- second time has that reading as `later`.
use bearpit.Base.{
  ℕ, String, Bool, true, false, ◌&&◌, Option, none, some, List, [], ◌∷◌, ◌++◌, map, ltb, leb,
  if◌then◌else◌, is_some, is_empty, length, suc, zero,
}
use bearpit.Base.Dict.{erase}
use bearpit.Base.Outcome.{Py, ok, ◌>>=◌}
use bearpit.Turns.State.{
  CuePolicy, Awaiting, Config, Turns, Notice, TurnEvent, Out, grant, open_all, mute_all, announce,
  notify_referee, event, Run, emit, at_position, current,
}
use bearpit.Turns.Speech.{Text, short_name, context_line}

-- `_roll_round_if_wrapped`: the round that was completed, if the position ran past the end.
abbrev pub wrapped : Turns → Option ℕ
wrapped s = if ltb s.position (length s.order) then none else some s.round

abbrev pub rolled : Turns → Turns
rolled s =
    if ltb s.position (length s.order) then s else record s { position = 0; round = suc s.round }

-- `xs.pop(i)`
abbrev pub pop_at {ℓ} : {A : Type ℓ} → ℕ → List A → List A
pop_at i [] = []
pop_at zero (x ∷ xs) = xs
pop_at (suc i) (x ∷ xs) = x ∷ pop_at i xs

-- A driving referee who is known: play waits for it.
abbrev pub is_held : Config → Bool
is_held cfg = cfg.drives && is_some cfg.referee_id

module _ (text : Text) (cfg : Config) where
  abbrev on_turn_event : Turns → String → Out
  on_turn_event s floor = event (TurnEvent.on_turn s.round s.order s.position floor cfg.min_rounds)

  -- `_grant`
  unfoldable pub grant_floor : ℕ → Turns → Run
  grant_floor later s = do
    floor ← at_position s
    ok (
      record s { last_announce = later },
      grant floor
          ∷ announce floor false (map (context_line text cfg) s.recent)
          ∷ on_turn_event s floor
          ∷ [],
    )

  abbrev named_messages : Turns → List (String × String)
  named_messages s = map (λ m. (short_name m.0 cfg.realm, m.1)) s.round_msgs

  abbrev round_notice : Turns → ℕ → Notice
  round_notice s completed =
      if cfg.drives
      then Notice.resolve_round completed (map (λ p. short_name p cfg.realm) s.order)
          (named_messages s) cfg.verdict_tool
      else Notice.round_passed completed (named_messages s)

  abbrev pub cue_by : CuePolicy → Option ℕ → Turns → Py (List Out)
  cue_by CuePolicy.each_turn completed s = do
    floor ← current s
    ok (notify_referee (Notice.now_on_turn floor s.round) ∷ [])
  cue_by CuePolicy.each_round (some completed) s =
      ok (notify_referee (round_notice s completed) ∷ [])
  cue_by CuePolicy.each_round none s = ok []
  cue_by CuePolicy.never completed s = ok []

  -- `_cue_referee`
  unfoldable pub cue_referee : Option ℕ → Turns × List Out → Run
  cue_referee completed (s, sent) = do cues ← cue_by cfg.cue completed s; ok (s, sent ++ cues)

  -- The rotation pauses until the referee has done its step.
  unfoldable pub hold_for : Awaiting → Option ℕ → Turns → Run
  unfolding cue_referee
  hold_for what completed s =
      cue_referee completed (record s { awaiting = some what }, mute_all ∷ [])

  unfoldable pub grant_and_cue : ℕ → Option ℕ → Turns → Run
  unfolding grant_floor cue_referee
  grant_and_cue later completed s = do granted ← grant_floor later s; cue_referee completed granted

  -- `start`
  unfoldable pub start : ℕ → ℕ → Turns → Run
  unfolding hold_for grant_and_cue
  start now later s =
      if is_empty s.order
      then ok (s, [])
      else if is_held cfg
      then hold_for Awaiting.opener none
          (record s { started = true; turn_start = now; last_announce = now })
      else grant_and_cue later none (record s { started = true; turn_start = now })

  abbrev pub round_event : Turns → ℕ → Out
  round_event s completed =
      event (TurnEvent.round_complete completed s.round s.order s.position cfg.min_rounds)

  abbrev pub clear_round : Turns × List Out → Turns × List Out
  clear_round (s, sent) = (record s { round_msgs = [] }, sent)

  -- `_advance` from the point where the round has been rolled.
  unfoldable pub settle : ℕ → ℕ → Option ℕ → Turns → Run
  unfolding hold_for grant_and_cue
  settle now later none s = grant_and_cue later none s
  settle now later (some completed) s = do
    after ←
        if is_held cfg
        then hold_for Awaiting.round (some completed) (record s { last_announce = now })
        else grant_and_cue later (some completed) s
    ok (emit (round_event s completed ∷ []) (clear_round after))

  -- With nobody left the sequence is over.
  unfoldable pub pass_on : ℕ → ℕ → Turns → Run
  unfolding settle
  pass_on now later s =
      if is_empty s.order
      then ok (record s { started = false }, open_all ∷ [])
      else settle now later (wrapped s) (record (rolled s) { turn_start = now })

  -- `_advance`
  unfoldable pub advance : ℕ → ℕ → Bool → Turns → Run
  unfolding pass_on
  advance now later false s = pass_on now later (record s { position = suc s.position })
  advance now later true s = do
    gone ← at_position s
    after ←
        pass_on now later
          (record s { order = pop_at s.position s.order; misses = erase gone s.misses })
    ok (emit (event (TurnEvent.retired gone s.round) ∷ []) after)

  -- `_resume`
  unfoldable pub resume : ℕ → ℕ → Turns → Run
  unfolding grant_floor
  resume now later s = grant_floor later (record s {
    awaiting = none;
    position = if leb (length s.order) s.position then 0 else s.position;
    turn_start = now;
  })
