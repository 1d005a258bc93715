-- ===== src/Turns/Observe.antt =====
-- One tick of the turn manager over who has posted (src/bearpit/warden/turns.py, `observe` and
-- `_observe_awaiting`).
use bearpit.Base.{
  ℕ, ◌+◌, ◌-◌, suc, String, Bool, true, false, not, ◌&&◌, ◌||◌, Option, none, some, List, [], ◌∷◌,
  ◌++◌, map, ltb, leb, ◌==◌, if◌then◌else◌, is_empty, length, drop, or_else, contains,
}
use bearpit.Base.Dict.{insert, lookup}
use bearpit.Base.Outcome.{ok, raised, assertion_error, ◌>>=◌}
use bearpit.Turns.State.{
  Awaiting, Config, Turns, Notice, TurnEvent, announce, notify_referee, event, Run, emit,
  at_position,
}
use bearpit.Turns.Speech.{Text, speech_text}
use bearpit.Turns.Floor.{advance, resume}

-- An entry of the feed: a bare id, or a sender and a text.
pub data Entry : Type 0 where
  bare : String → Entry
  said : String → String → Entry

module _ (text : Text) (cfg : Config) where
  abbrev spoken : String → String → List (String × String) → List (String × String)
  spoken sender t rest = if t == "" then rest else (sender, t) ∷ rest

  -- The messages that say something.
  unfoldable pub substantive : List Entry → List (String × String)
  substantive [] = []
  substantive (bare a ∷ es) = spoken a (speech_text text "") (substantive es)
  substantive (said a body ∷ es) = spoken a (speech_text text body) (substantive es)

  abbrev pub bare_ids : List Entry → List String
  bare_ids [] = []
  bare_ids (bare a ∷ es) = a ∷ bare_ids es
  bare_ids (said a body ∷ es) = bare_ids es

  abbrev pub senders : List (String × String) → List String
  senders ms = map (λ m. m.0) ms

  -- Only the first message of each sender counts toward the round.
  abbrev pub collect : List (String × String) → List (String × String) → List (String × String)
  collect msgs [] = msgs
  collect msgs (m ∷ ms) = collect (if contains m.0 (senders msgs) then msgs else msgs ++ m ∷ []) ms

  abbrev recent_window : ℕ
  recent_window = 12

  -- `xs[-n:]`
  abbrev last_of {ℓ} : {A : Type ℓ} → ℕ → List A → List A
  last_of n xs = drop (length xs - n) xs

  abbrev collect_unless :
      Option Awaiting → List (String × String) → List (String × String) → List (String × String)
  collect_unless none msgs new = collect msgs new
  collect_unless (some w) msgs new = msgs

  -- The state after the new entries were read.
  abbrev pub heard : List Entry → List (String × String) → Turns → Turns
  heard speakers new s = record s {
    cursor = length speakers;
    round_msgs = collect_unless s.awaiting s.round_msgs new;
    recent = last_of recent_window (s.recent ++ new);
  }

  -- `_observe_awaiting`
  unfoldable pub observe_awaiting : ℕ → ℕ → Awaiting → String → List (String × String) → Turns → Run
  unfolding resume
  observe_awaiting now later what referee new s =
      let resumed = resume text cfg now later s in
      if contains referee (senders new)
      then resumed
      else if leb (s.turn_start + cfg.timeout) now
      then (do
        after ← resumed
        ok (emit (event (TurnEvent.referee_timeout what s.round) ∷ []) after))
      else if leb (s.last_announce + cfg.reannounce) now
      then ok (record s { last_announce = now }, notify_referee (Notice.waiting_on_you what) ∷ [])
      else ok (s, [])

  abbrev pub missed : String → Turns → ℕ
  missed floor s = suc (or_else (lookup floor s.misses) 0)

  abbrev pub retires : ℕ → Bool
  retires misses = ltb 0 cfg.retire_after && leb cfg.retire_after misses

  -- The floor is live, and `floor` has it.
  unfoldable pub observe_live : ℕ → ℕ → String → List String → Turns → Run
  unfolding advance
  observe_live now later floor new_senders s =
      if contains floor new_senders
      then advance text cfg now later false (record s { misses = insert floor 0 s.misses })
      else if leb (s.turn_start + cfg.timeout) now
      then advance text cfg now later (retires (missed floor s))
          (record s { misses = insert floor (missed floor s) s.misses })
      else if leb (s.last_announce + cfg.reannounce) now
      then ok (record s { last_announce = now }, announce floor true [] ∷ [])
      else ok (s, [])

  -- `observe` after the entries were read; the rotation is paused only with a referee.
  abbrev pub observe_heard :
      ℕ → ℕ → Option Awaiting → Option String → List (String × String) → List String → Turns → Run
  observe_heard now later (some what) (some referee) new plain s =
      observe_awaiting now later what referee new s
  observe_heard now later (some what) none new plain s = raised assertion_error
  observe_heard now later none referee new plain s = do
    floor ← at_position s
    observe_live now later floor (senders new ++ plain) s

  -- `observe`
  unfoldable pub observe : ℕ → ℕ → List Entry → Turns → Run
  unfolding observe_awaiting observe_live substantive
  observe now later speakers s =
      if not s.started || is_empty s.order
      then ok (s, [])
      else (let fresh = drop s.cursor speakers in
          let new = substantive fresh in
          observe_heard now later s.awaiting cfg.referee_id new (bare_ids fresh)
            (heard speakers new s))
