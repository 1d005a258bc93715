-- ===== src/Turns/Resolutions.antt =====
-- The eliminations that the referee called for (src/bearpit/warden/turns.py,
-- `apply_resolutions`).
use bearpit.Base.{
  ℕ, ◌-◌, suc, String, Bool, true, false, not, ◌||◌, Option, none, some, List, [], ◌∷◌, ltb, ◌==◌,
  if◌then◌else◌, is_empty, Option, is_some,
}
use bearpit.Base.Dict.{Dict, insert, lookup, erase}
use bearpit.Base.Outcome.{Py, ok, value_error, or_raise, ◌>>=◌}
use bearpit.Turns.State.{
  Awaiting, Config, Turns, TurnEvent, Out, open_all, event, Run, emit, current,
}
use bearpit.Turns.Speech.{Text, short_name}
use bearpit.Turns.Floor.{grant_floor, resume, wrapped, rolled, round_event, pop_at}

abbrev pub index_from : String → List String → ℕ → Option ℕ
index_from a [] i = none
index_from a (x ∷ xs) i = if a == x then some i else index_from a xs (suc i)

-- `xs.index(a)`
abbrev pub index_of : String → List String → Py ℕ
index_of a xs = or_raise (index_from a xs 0) value_error

abbrev same_holder : Option String → Option String → Bool
same_holder none none = true
same_holder (some a) (some b) = a == b
same_holder _ _ = false

module _ (text : Text) (cfg : Config) where
  -- `by_name`: of participants with one name, the last.
  abbrev pub by_name : List String → Dict String → Dict String
  by_name [] d = d
  by_name (p ∷ ps) d = by_name ps (insert (text.lower (short_name p cfg.realm)) p d)

  abbrev target : Dict String → Option String → Option String
  target names none = none
  target names (some n) = if n == "" then none else lookup (text.lower n) names

  abbrev and_target : Option String → List String → List String
  and_target none ts = ts
  and_target (some t) ts = t ∷ ts

  -- The participants that the resolutions name.
  abbrev pub targets : Dict String → List (Option String) → List String
  targets names [] = []
  targets names (r ∷ rs) = and_target (target names r) (targets names rs)

  abbrev pub without : ℕ → String → Turns → Turns
  without i a s = record s {
    order = pop_at i s.order;
    misses = erase a s.misses;
    position = if ltb i s.position then s.position - 1 else s.position;
  }

  -- The loop that takes the targets out. One that is no longer in the order raises ValueError.
  unfoldable pub remove_all : List String → Turns → Run
  remove_all [] s = ok (s, [])
  remove_all (a ∷ rest) s = do
    i ← index_of a s.order
    after ← remove_all rest (without i a s)
    ok (emit (event (TurnEvent.removed a s.round) ∷ []) after)

  -- The holder has changed, or a lap ended: the floor is handed on.
  abbrev pub hand_on : ℕ → ℕ → Option String → Option ℕ → Turns → Run
  hand_on now later held completed s = do
    holder ← current s
    if not (same_holder holder held) || is_some completed
        then grant_floor text cfg later (record s { turn_start = now })
        else ok (s, [])

  -- Removing players may have ended a lap.
  abbrev pub end_lap : ℕ → ℕ → Option String → Option ℕ → Turns → Run
  end_lap now later held none s = hand_on now later held none s
  end_lap now later held (some completed) s = do
    after ← hand_on now later held (some completed) (record s { round_msgs = [] })
    ok (emit (round_event text cfg s completed ∷ []) after)

  abbrev pub reopen : ℕ → ℕ → Option String → List String → Option Awaiting → Turns → Run
  reopen now later held ts (some Awaiting.round) s = resume text cfg now later s
  reopen now later held ts (some Awaiting.opener) s = ok (s, [])
  reopen now later held [] none s = ok (s, [])
  reopen now later held (t ∷ ts) none s = end_lap now later held (wrapped s) (rolled s)

  unfoldable pub after_removal : ℕ → ℕ → Option String → List String → Turns → Run
  after_removal now later held ts s =
      if is_empty s.order
      then ok (record s { started = false }, open_all ∷ [])
      else reopen now later held ts s.awaiting s

  abbrev pub and_reopen : ℕ → ℕ → Option String → List String → Turns × List Out → Run
  and_reopen now later held ts (s, sent) = do
    after ← after_removal now later held ts s
    ok (emit sent after)

  -- `apply_resolutions`
  unfoldable pub apply_resolutions : ℕ → ℕ → List (Option String) → Turns → Run
  unfolding remove_all after_removal
  apply_resolutions now later resolutions s =
      if not s.started || is_empty resolutions then ok (s, []) else (do
        held ← current s
        let ts = targets (by_name s.order []) resolutions
        removed ← remove_all ts s
        and_reopen now later held ts removed)
