-- ===== src/Arbiter.antt =====
-- The arbiter (src/bearpit/realmtools/arbiter.py) in one realm: scores, violations, eliminations
-- and the verdict. Points with their rounded addition are a parameter, as are the reading of an
-- eliminated name and `str.lower`. Whether the chronicle takes a row is an argument of the call:
-- where it raises, what the call did before stays. A read that raises changes nothing.
mod Tests
use bearpit.Base.{
  ℕ, String, Bool, true, false, not, ◌&&◌, ◌≡◌, refl, sym, ◌∙◌, ap, Option, none, some, List, [],
  ◌∷◌, ◌++◌, arith, ◌==◌, leb, if◌then◌else◌, is_empty, or_else, contains, map, ◌+++◌,
}
use bearpit.Base.Dict.{Dict, lookup, insert}

pub record Identity : Type 0 where
  pub agent_id : String
  pub is_referee : Bool
  pub roster : List String

-- `negated` is `-abs(x)`; `plus` is the sum, rounded to six places.
pub record Points : Type 1 where
  pub Amount : Type 0
  pub none_yet : Amount
  pub plus : Amount → Amount → Amount
  pub negated : Amount → Amount

pub record Names : Type 0 where
  pub bare_name : String → String
  pub lower : String → String

module _ (points : Points) (names : Names) where
  pub data Event : Type 0 where
    scored : String → points.Amount → String → String → Event
    violation : String → String → String → Event
    elimination : Option String → String → String → Event
    verdict : String → String → Dict points.Amount → String → Event
    turn : ℕ → ℕ → Event

  -- The events of the realm, and its board in memory, if it has been filled.
  pub record Arbiter : Type 0 where
    pub events : List Event
    pub scores : Option (Dict points.Amount)

  pub data Reply : Type 0 where
    board : Dict points.Amount → Reply
    flagged : String → String → Reply
    unknown_name : String → Reply
    eliminated : Option String → Reply
    too_early : ℕ → Reply
    ruled already_ruled : String → Dict points.Amount → Reply
    not_permitted append_failed : Reply

  abbrev add_points : String → points.Amount → Dict points.Amount → Dict points.Amount
  add_points a d b = insert a (points.plus (or_else (lookup a b) points.none_yet) d) b

  -- The SCORE events, summed.
  unfoldable pub summed : List Event → Dict points.Amount → Dict points.Amount
  summed [] b = b
  summed (scored a d reason by ∷ es) b = summed es (add_points a d b)
  summed (violation a reason by ∷ es) b = summed es b
  summed (elimination a reason by ∷ es) b = summed es b
  summed (verdict o r sb by ∷ es) b = summed es b
  summed (turn r m ∷ es) b = summed es b

  -- `_board`
  abbrev pub board_of : Arbiter → Dict points.Amount
  board_of s = or_else s.scores (summed s.events [])

  abbrev append : Event → Arbiter → Arbiter
  append e s = record s { events = s.events ++ e ∷ [] }

  -- The call's last step: its row, and its result.
  abbrev append_then : Bool → Event → Reply → Arbiter → Arbiter × Reply
  append_then stored e answer s = if stored then (append e s, answer) else (s, append_failed)

  -- The board in memory changes first; then the row is appended.
  abbrev score_with :
      Identity
      → String
      → points.Amount
      → String
      → Dict points.Amount
      → Bool
      → Arbiter
      → Arbiter × Reply
  score_with who a d reason b stored s =
      append_then stored (scored a d reason who.agent_id) (board b) (record s { scores = some b })

  unfoldable pub score :
      Identity → String → points.Amount → String → Bool → Arbiter → Arbiter × Reply
  score who a d reason stored s =
      if not who.is_referee
      then (s, not_permitted)
      else score_with who a d reason (add_points a d (board_of s)) stored s

  unfoldable pub flag : Identity → String → String → Bool → Arbiter → Arbiter × Reply
  flag who a reason stored s =
      if not who.is_referee
      then (s, not_permitted)
      else append_then stored (violation a reason who.agent_id) (flagged a reason) s

  -- A penalty is a flag and a deduction, which is not reached where the flag is not taken.
  unfoldable pub penalize :
      Identity → String → points.Amount → String → Bool → Bool → Arbiter → Arbiter × Reply
  unfolding score flag
  penalize who a amount reason flag_stored stored s =
      let flagged_state = (flag who a reason flag_stored s).0 in
      if not who.is_referee
      then (s, not_permitted)
      else if flag_stored
      then score who a (points.negated amount) ("penalty: " +++ reason) stored flagged_state
      else (s, append_failed)

  abbrev no_elimination : List String
  no_elimination = "none" ∷ "nobody" ∷ "no one" ∷ "no-one" ∷ "n/a" ∷ "tie" ∷ "-" ∷ "" ∷ []

  abbrev target_of : String → Option String
  target_of name = if contains name no_elimination then none else some name

  abbrev unknown_target : Identity → Option String → Bool
  unknown_target who none = false
  unknown_target who (some a) =
      not (is_empty who.roster) && not (contains a (map names.lower who.roster))

  abbrev eliminate_target : Identity → Option String → String → Bool → Arbiter → Arbiter × Reply
  eliminate_target who target reason stored s =
      if unknown_target who target
      then (s, unknown_name (or_else target ""))
      else append_then stored (elimination target reason who.agent_id) (eliminated target) s

  unfoldable pub eliminate : Identity → String → String → Bool → Arbiter → Arbiter × Reply
  eliminate who a reason stored s =
      if not who.is_referee
      then (s, not_permitted)
      else eliminate_target who (target_of (names.bare_name a)) reason stored s

  -- The verdict that stands, with its board; a verdict of the arbiter is always final.
  unfoldable pub standing : List Event → Option (String × Dict points.Amount)
  standing [] = none
  standing (verdict o r sb by ∷ es) = some (o, sb)
  standing (scored a d reason by ∷ es) = standing es
  standing (violation a reason by ∷ es) = standing es
  standing (elimination a reason by ∷ es) = standing es
  standing (turn r m ∷ es) = standing es

  -- The round and the minimum of the latest TURN event, given those of an earlier one.
  abbrev latest_turn : Option (ℕ × ℕ) → List Event → Option (ℕ × ℕ)
  latest_turn t [] = t
  latest_turn t (turn r m ∷ es) = latest_turn (some (r, m)) es
  latest_turn t (verdict o r sb by ∷ es) = latest_turn t es
  latest_turn t (scored a d reason by ∷ es) = latest_turn t es
  latest_turn t (violation a reason by ∷ es) = latest_turn t es
  latest_turn t (elimination a reason by ∷ es) = latest_turn t es

  abbrev is_too_early : Option (ℕ × ℕ) → Bool
  is_too_early none = false
  is_too_early (some (r, m)) = leb r m

  abbrev minimum : Option (ℕ × ℕ) → ℕ
  minimum none = 0
  minimum (some (r, m)) = m

  abbrev rule_unless :
      Identity
      → String
      → String
      → Option (String × Dict points.Amount)
      → Bool
      → Arbiter
      → Arbiter × Reply
  rule_unless who outcome reasons (some (o, sb)) stored s = (s, already_ruled o sb)
  rule_unless who outcome reasons none stored s =
      let t = latest_turn none s.events in
      if is_too_early t
      then (s, too_early (minimum t))
      else (append_then stored (verdict outcome reasons (board_of s) who.agent_id)
          (ruled outcome (board_of s)) (record s { scores = some (board_of s) }))

  unfoldable pub rule : Identity → String → String → Bool → Arbiter → Arbiter × Reply
  unfolding standing summed
  rule who outcome reasons stored s =
      if not who.is_referee
      then (s, not_permitted)
      else rule_unless who outcome reasons (standing s.events) stored s

  summed-append :
      (xs ys : List Event) (b : Dict points.Amount) → summed (xs ++ ys) b ≡ summed ys (summed xs b)
  unfolding summed
  summed-append [] ys b = refl
  summed-append (scored a d reason by ∷ xs) ys b = summed-append xs ys _
  summed-append (violation a reason by ∷ xs) ys b = summed-append xs ys b
  summed-append (elimination a reason by ∷ xs) ys b = summed-append xs ys b
  summed-append (verdict o r sb by ∷ xs) ys b = summed-append xs ys b
  summed-append (turn r m ∷ xs) ys b = summed-append xs ys b

  -- The board in memory is the sum of the SCORE events.
  abbrev pub IsLedger : Arbiter → Type 0
  IsLedger s = board_of s ≡ summed s.events []

  -- Scoring keeps the board in memory equal to the sum of the SCORE events in the chronicle, where
  -- the chronicle takes the row.
  pub score-IsLedger :
      (who : Identity) (a : String) (d : points.Amount) (reason : String) (stored : Bool)
      (s : Arbiter)
      → stored ≡ true
      → IsLedger s
      → IsLedger (score who a d reason stored s).0
  unfolding score summed
  score-IsLedger who a d reason false s taken g = cc
  score-IsLedger who a d reason true s taken g = by_role who.is_referee
    where
      by_role :
          (b : Bool)
          → IsLedger
              (if not b
                then (s, not_permitted)
                else score_with who a d reason (add_points a d (board_of s)) true s).0
      by_role false = g
      by_role true =
          ap (add_points a d) g
          ∙ sym (summed-append s.events (scored a d reason who.agent_id ∷ []) [])

  standing-append :
      (xs ys : List Event) (v : String × Dict points.Amount)
      → standing xs ≡ some v
      → standing (xs ++ ys) ≡ some v
  unfolding standing
  standing-append [] ys v h = cc
  standing-append (verdict o r sb by ∷ xs) ys v h = h
  standing-append (scored a d reason by ∷ xs) ys v h = standing-append xs ys v h
  standing-append (violation a reason by ∷ xs) ys v h = standing-append xs ys v h
  standing-append (elimination a reason by ∷ xs) ys v h = standing-append xs ys v h
  standing-append (turn r m ∷ xs) ys v h = standing-append xs ys v h

  -- Once a verdict stands, whatever is recorded after it, ruling again changes nothing and a
  -- referee is told the verdict that stands.
  pub rule-standing :
      (who : Identity) (outcome reasons : String) (stored : Bool) (s : Arbiter) (later : List Event)
      (v : String × Dict points.Amount)
      → who.is_referee ≡ true
      → standing s.events ≡ some v
      → rule who outcome reasons stored (record s { events = s.events ++ later })
        ≡ (record s { events = s.events ++ later }, already_ruled v.0 v.1)
  unfolding rule
  rule-standing who outcome reasons stored s later v r h =
      simp (r, standing-append s.events later v h)
