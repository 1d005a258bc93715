-- ===== src/Arbiter/Tests.antt =====
-- The theorems on the arbiter, applied to small inputs (src/bearpit/realmtools/arbiter.py).
use bearpit.Arbiter.{
  Points, Names, Identity, Arbiter, verdict, turn, already_ruled, IsLedger, score, rule, standing,
  score-IsLedger, rule-standing,
}
use bearpit.Base.{ℕ, ◌+◌, ◌++◌, ◌≡◌, refl, true, false, none, some, [], ◌∷◌}

abbrev whole_points : Points
whole_points = record { Amount = ℕ; none_yet = 0; plus = ◌+◌; negated = λ n. 0 }

abbrev same_names : Names
same_names = record { bare_name = λ s. s; lower = λ s. s }

abbrev chair : Identity
chair = record { agent_id = "chair"; is_referee = true; roster = "ann" ∷ "bob" ∷ [] }

abbrev no_points_yet : Arbiter whole_points same_names
no_points_yet = record { events = []; scores = none }

score-IsLedger_example :
    IsLedger whole_points same_names
      (score whole_points same_names chair "ann" 3 "clear" true no_points_yet).0
score-IsLedger_example =
    score-IsLedger whole_points same_names chair "ann" 3 "clear" true no_points_yet refl refl

-- Where the row is not taken, the board is ahead of the chronicle.
board_ahead :
    (score whole_points same_names chair "ann" 3 "clear" false no_points_yet).0
    ≡ record { events = []; scores = some (("ann", 3) ∷ []) }
unfolding score bearpit.Arbiter.summed
board_ahead = refl

abbrev ann_won : Arbiter whole_points same_names
ann_won = record { events = verdict "ann" "3 to 0" [] "chair" ∷ []; scores = some [] }

ann_won-standing : standing whole_points same_names ann_won.events ≡ some ("ann", [])
unfolding standing
ann_won-standing = refl

rule-standing_example :
    rule whole_points same_names chair "bob" "on reflection" true
      (record ann_won { events = ann_won.events ++ turn 2 1 ∷ [] })
    ≡ (record ann_won { events = ann_won.events ++ turn 2 1 ∷ [] }, already_ruled "ann" [])
rule-standing_example =
    rule-standing whole_points same_names chair "bob" "on reflection" true ann_won (turn 2 1 ∷ [])
      ("ann", []) refl ann_won-standing
