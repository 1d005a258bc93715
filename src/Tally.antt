-- ===== src/Tally.antt =====
-- The deterministic rulesets over revealed submissions (src/bearpit/realmtools/tally.py). Bids are
-- natural numbers; `str.strip`, `str.lower` and the reading of an integer are parameters.
use bearpit.Base.{
  ℕ, ◌+◌, ◌*◌, ◌<◌, suc, String, Bool, true, false, not, ◌&&◌, ◌||◌, ◌≡◌, Option, none, some, List,
  [], ◌∷◌, arith, ◌==◌, eqb, ltb, if◌then◌else◌, is_empty, or_else, all, length, select, map,
  contains, eq_iff, min, max,
}
use bearpit.Base.Dict.{
  Dict, lookup, has_key, insert, keys, lookup-insert, UniqueKeys, insert-UniqueKeys,
}
use bearpit.Base.StrSet.{StrSet, of_list}

pub data Winner : Type 0 where
  agent option : String → Winner
  tie : Winner

pub data Tallied : Type 0 where
  result : Winner → Tallied
  needs_beats no_integer unknown_ruleset : Tallied

pub record TallyText : Type 0 where
  pub strip : String → String
  pub lower : String → String
  pub read_int : String → Option ℕ

module _ (text : TallyText) where
  abbrev token : String → String
  token s = text.lower (text.strip s)

  abbrev sole : List String → (String → Winner) → Winner
  sole (a ∷ []) win = win a
  sole _ win = Winner.tie

  -- The beat map, with its tokens normalised.
  abbrev pub beat_map : Dict (List String) → Dict StrSet → Dict StrSet
  beat_map [] d = d
  beat_map ((k, v) ∷ raw) d = beat_map raw (insert (token k) (of_list (map token v)) d)

  abbrev pub moves_of : Dict String → Dict String
  moves_of sub = map (λ e. (e.0, token e.1)) sub

  abbrev others : String → Dict String → List String
  others a moves = map (λ e. e.1) (select (λ e. not (e.0 == a)) moves)

  abbrev beaten : Dict StrSet → StrSet → String → Bool
  beaten beats mine o = not (has_key o beats) || contains o mine

  abbrev wins_with : Dict StrSet → List String → Option StrSet → Bool
  wins_with beats rest none = false
  wins_with beats rest (some mine) = not (is_empty rest) && all (beaten beats mine) rest

  unfoldable pub wins : Dict StrSet → Dict String → String × String → Bool
  wins beats moves (a, m) = wins_with beats (others a moves) (lookup m beats)

  unfoldable pub dominance : Dict (List String) → Dict String → Tallied
  unfolding wins
  dominance raw sub =
      if is_empty raw
      then needs_beats
      else (let beats = beat_map raw [] in
          let moves = moves_of sub in
          result (sole (keys (select (wins beats moves) moves)) Winner.agent))

  abbrev and_bid : String → Option ℕ → Option (Dict ℕ) → Option (Dict ℕ)
  and_bid a (some n) (some rest) = some ((a, n) ∷ rest)
  and_bid a _ _ = none

  abbrev pub bids_of : Dict String → Option (Dict ℕ)
  bids_of [] = some []
  bids_of ((a, raw) ∷ sub) = and_bid a (text.read_int (text.strip raw)) (bids_of sub)

  abbrev picked : (ℕ → ℕ → ℕ) → ℕ → Dict ℕ → ℕ
  picked pick best [] = best
  picked pick best ((a, n) ∷ bids) = picked pick (pick best n) bids

  abbrev pub leader : (ℕ → ℕ → ℕ) → Dict ℕ → Winner
  leader pick [] = Winner.tie
  leader pick ((a, n) ∷ bids) =
      sole (keys (select (λ e. eqb e.1 (picked pick n bids)) ((a, n) ∷ bids))) Winner.agent

  abbrev bid_result : (ℕ → ℕ → ℕ) → Option (Dict ℕ) → Tallied
  bid_result pick none = no_integer
  bid_result pick (some bids) = result (leader pick bids)

  unfoldable pub bid : (ℕ → ℕ → ℕ) → Dict String → Tallied
  bid pick sub = bid_result pick (bids_of sub)

  -- `Counter`: the options in the order of their first vote.
  abbrev pub add_vote : String → Dict ℕ → Dict ℕ
  add_vote v counts = insert v (suc (or_else (lookup v counts) 0)) counts

  abbrev pub counted : List String → Dict ℕ → Dict ℕ
  counted [] counts = counts
  counted (v ∷ vs) counts = counted vs (add_vote v counts)

  abbrev pub votes_of : Dict String → List String
  votes_of sub = map (λ e. text.strip e.1) sub

  abbrev pub counts_of : Dict String → Dict ℕ
  counts_of sub = counted (votes_of sub) []

  -- `most_common()`: the first of the highest, and whether another one has as many.
  abbrev top : String → ℕ → Bool → Dict ℕ → Winner
  top best n shared [] = if shared then Winner.tie else Winner.option best
  top best n shared ((v, m) ∷ counts) =
      if ltb n m then top v m false counts else top best n (shared || eqb m n) counts

  abbrev plurality_of : Dict ℕ → Winner
  plurality_of [] = Winner.tie
  plurality_of ((v, n) ∷ counts) = top v n false counts

  unfoldable pub plurality : Dict String → Tallied
  plurality sub = result (plurality_of (counts_of sub))

  abbrev pub total : Dict ℕ → ℕ
  total [] = 0
  total ((v, n) ∷ counts) = n + total counts

  abbrev pub over_half : ℕ → Dict ℕ → Winner
  over_half n [] = Winner.tie
  over_half n ((v, c) ∷ counts) = if ltb n (c * 2) then Winner.option v else over_half n counts

  unfoldable pub majority : Dict String → Tallied
  majority sub = let counts = counts_of sub in result (over_half (total counts) counts)

  unfoldable pub unanimous : Dict String → Tallied
  unanimous sub = result (sole (of_list (votes_of sub)) Winner.option)

  -- `_RULESETS` without registered extensions.
  unfoldable pub tally : String → Dict (List String) → Dict String → Tallied
  unfolding dominance bid plurality majority unanimous
  tally name beats sub =
      if name == "dominance"
      then dominance beats sub
      else if name == "high-bid"
      then bid max sub
      else if name == "low-bid"
      then bid min sub
      else if name == "plurality"
      then plurality sub
      else if name == "majority"
      then majority sub
      else if name == "unanimous"
      then unanimous sub
      else unknown_ruleset

  -- The votes for an option.
  abbrev pub votes_for : String → List String → ℕ
  votes_for v [] = 0
  votes_for v (w ∷ vs) = (if v == w then 1 else 0) + votes_for v vs

  counted-votes :
      (v : String) (vs : List String) (d : Dict ℕ)
      → or_else (lookup v (counted vs d)) 0 ≡ votes_for v vs + or_else (lookup v d) 0
  counted-votes v [] d = omega arith
  counted-votes v (w ∷ vs) d = ground (
    arith,
    counted-votes v vs (add_vote w d),
    lookup-insert w v (suc (or_else (lookup w d) 0)) d,
    eq_iff v w,
    eq_iff w v,
  )

  total-add_vote : (v : String) (d : Dict ℕ) → total (add_vote v d) ≡ suc (total d)
  total-add_vote v [] = omega arith
  total-add_vote v ((w, n) ∷ d) = ground (arith, total-add_vote v d)

  counted-total : (vs : List String) (d : Dict ℕ) → total (counted vs d) ≡ length vs + total d
  counted-total [] d = omega arith
  counted-total (v ∷ vs) d = omega (arith, counted-total vs (add_vote v d), total-add_vote v d)

  counted-UniqueKeys : (vs : List String) (d : Dict ℕ) → UniqueKeys d → UniqueKeys (counted vs d)
  counted-UniqueKeys [] d u = u
  counted-UniqueKeys (v ∷ vs) d u =
      counted-UniqueKeys vs (add_vote v d) (insert-UniqueKeys v (suc (or_else (lookup v d) 0)) d u)

  over_half-found :
      (n : ℕ) (counts : Dict ℕ) (v : String)
      → over_half n counts ≡ Winner.option v
      → has_key v counts ≡ true
  over_half-found n [] v h = cc
  over_half-found n ((w, c) ∷ counts) v h =
      ground (arith, over_half-found n counts v, h, eq_iff w v)

  over_half_sound :
      (n : ℕ) (counts : Dict ℕ) (v : String)
      → UniqueKeys counts
      → over_half n counts ≡ Winner.option v
      → n < or_else (lookup v counts) 0 * 2
  over_half_sound n [] v u h = cc
  over_half_sound n ((w, c) ∷ counts) v u h =
      ground (arith, over_half-found n counts v, over_half_sound n counts v u.1, h, u.0, eq_iff w v)

  result-injective : (v w : Winner) → result v ≡ result w → v ≡ w
  result-injective v w h = cc

  -- The option that wins by majority has more than half of all votes.
  pub majority_sound :
      (sub : Dict String) (v : String)
      → majority sub ≡ result (Winner.option v)
      → length (votes_of sub) < votes_for v (votes_of sub) * 2
  unfolding majority
  majority_sound sub v h =
      let votes = votes_of sub in
      omega (
        arith,
        over_half_sound (total (counts_of sub)) (counts_of sub) v (counted-UniqueKeys votes [] tt)
            (result-injective _ _ h),
        counted-votes v votes [],
        counted-total votes [],
      )
