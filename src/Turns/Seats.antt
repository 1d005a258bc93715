-- ===== src/Turns/Seats.antt =====
-- Where the position stands and who is granted the floor, for the parts of a tick
-- (src/bearpit/warden/turns.py, `_grant`, `_cue_referee` and `_advance`).
use bearpit.Base.{
  ℕ, suc, zero, ◌<◌, String, ◌≡◌, refl, ap, true, false, Option, none, some, List, [], ◌∷◌, ◌++◌,
  arith, is_empty, length, get_elem?, All,
}
use bearpit.Base.Outcome.{ok, Total, Total-bind, Total-if, or_raise, index_error}
use bearpit.Turns.State.{
  CuePolicy, Awaiting, Config, Turns, TurnEvent, Out, grant, open_all, mute_all, announce,
  notify_referee, event, emit, at_position, current,
}
use bearpit.Turns.Speech.{Text}
use bearpit.Turns.Floor.{
  grant_floor, cue_by, cue_referee, is_held, hold_for, grant_and_cue, settle, clear_round,
}

-- What is asked of a call of the bus, given the state that it leads to.
abbrev pub IsForHolder : Turns → Out → Type 0
IsForHolder s (grant a) = (get_elem? s.order s.position ≡ some a) × (s.awaiting ≡ none)
IsForHolder s _ = Unit

pub record IsSeated (cfg : Config) (s : Turns) : Type 0 where
  pub in_range : is_empty s.order ≡ false → s.position < length s.order
  pub parked : (w : Awaiting) → s.awaiting ≡ some w → (s.position ≡ 0) × (is_held cfg ≡ true)

abbrev pub Seat : Config → Turns × List Out → Type 0
Seat cfg (s, sent) = IsSeated cfg s × All (IsForHolder s) sent

get_elem?-in {ℓ} :
    {A : Type ℓ} (xs : List A) (i : ℕ) → i < length xs → (a : A) × (get_elem? xs i ≡ some a)
get_elem?-in [] i h = absurd (omega (arith, h))
get_elem?-in (x ∷ xs) zero h = (x, refl)
get_elem?-in (x ∷ xs) (suc i) h = get_elem?-in xs i (omega (arith, h))

pub at_position-in :
    (s : Turns)
    → s.position < length s.order
    → (a : String) × (get_elem? s.order s.position ≡ some a) × (at_position s ≡ ok a)
at_position-in s h =
    let (a, e) = get_elem?-in s.order s.position h in (a, e, ap (λ o. or_raise o index_error) e)

pub current-Total :
    (s : Turns)
    → (is_empty s.order ≡ false → s.position < length s.order)
    → Total (λ _. Unit) (current s)
current-Total s h =
    Total-if (λ _. Unit) (is_empty s.order) _ _ (λ _. tt)
      (λ e. let (a, g, r) = at_position-in s (h e) in rw r tt)

pub All-append {ℓ κ} :
    {A : Type ℓ} (P : A → Type κ) (xs ys : List A) → All P xs → All P ys → All P (xs ++ ys)
All-append P [] ys h k = k
All-append P (x ∷ xs) ys h k = (h.0, All-append P xs ys h.1 k)

module _ (text : Text) (cfg : Config) where
  -- The floor of a rotation that is not paused is granted to its holder.
  pub grant_floor-Seat :
      (later : ℕ) (s : Turns)
      → s.position < length s.order
      → s.awaiting ≡ none
      → Total (Seat cfg) (grant_floor text cfg later s)
  unfolding grant_floor
  grant_floor-Seat later s h n =
      let (a, g, r) = at_position-in s h in
      rw r (
        (record { in_range = λ _. h; parked = λ w e. absurd (no_pause w e) }),
        (((g, n), (tt, (tt, tt)))),
      )
    where
      no_pause : (w : Awaiting) → s.awaiting ≡ some w → ⊥
      no_pause w e = cc

  abbrev IsCue : List Out → Type 0
  IsCue cues = (s : Turns) → All (IsForHolder s) cues

  cue_by-IsCue :
      (p : CuePolicy) (completed : Option ℕ) (s : Turns)
      → (is_empty s.order ≡ false → s.position < length s.order)
      → Total IsCue (cue_by text cfg p completed s)
  cue_by-IsCue CuePolicy.each_turn completed s h =
      Total-bind (λ _. Unit) IsCue (current s) _ (current-Total s h) (λ a _ _ u. (tt, tt))
  cue_by-IsCue CuePolicy.each_round none s h = λ u. tt
  cue_by-IsCue CuePolicy.each_round (some c) s h = λ u. (tt, tt)
  cue_by-IsCue CuePolicy.never completed s h = λ u. tt

  cue_referee-Seat :
      (completed : Option ℕ) (r : Turns × List Out)
      → Seat cfg r
      → Total (Seat cfg) (cue_referee text cfg completed r)
  unfolding cue_referee
  cue_referee-Seat completed (s, sent) (g, f) =
      Total-bind IsCue (Seat cfg) (cue_by text cfg cfg.cue completed s) _
        (cue_by-IsCue cfg.cue completed s g.in_range)
        (λ cues _ c. (g, All-append (IsForHolder s) sent cues f (c s)))

  pub hold_for-Seat :
      (w : Awaiting) (completed : Option ℕ) (s : Turns)
      → s.position ≡ 0
      → (is_empty s.order ≡ false → s.position < length s.order)
      → is_held cfg ≡ true
      → Total (Seat cfg) (hold_for text cfg w completed s)
  unfolding hold_for
  hold_for-Seat w completed s z h held =
      cue_referee-Seat completed (record s { awaiting = some w }, mute_all ∷ [])
        (record { in_range = h; parked = λ _ _. (z, held) }, (tt, tt))

  pub grant_and_cue-Seat :
      (later : ℕ) (completed : Option ℕ) (s : Turns)
      → s.position < length s.order
      → s.awaiting ≡ none
      → Total (Seat cfg) (grant_and_cue text cfg later completed s)
  unfolding grant_and_cue
  grant_and_cue-Seat later completed s h n =
      Total-bind (Seat cfg) (Seat cfg) (grant_floor text cfg later s) _
        (grant_floor-Seat later s h n) (λ r _ g. cue_referee-Seat completed r g)

  pub emit-Seat :
      (e : TurnEvent) (r : Turns × List Out) → Seat cfg r → Seat cfg (emit (event e ∷ []) r)
  emit-Seat e (s, sent) (g, f) = (g, (tt, f))

  clear_round-Seat : (r : Turns × List Out) → Seat cfg r → Seat cfg (clear_round text cfg r)
  clear_round-Seat (s, sent) (g, f) =
      (record { in_range = g.in_range; parked = g.parked }, same sent f)
    where
      same :
          (xs : List Out)
          → All (IsForHolder s) xs
          → All (IsForHolder (record s { round_msgs = [] })) xs
      same [] h = tt
      same (grant a ∷ xs) h = (h.0, same xs h.1)
      same (open_all ∷ xs) h = (tt, same xs h.1)
      same (mute_all ∷ xs) h = (tt, same xs h.1)
      same (announce a b c ∷ xs) h = (tt, same xs h.1)
      same (notify_referee n ∷ xs) h = (tt, same xs h.1)
      same (event e ∷ xs) h = (tt, same xs h.1)

  -- After the round was rolled the position is inside the rotation; it is the first one if the
  -- round was completed.
  pub settle-Seat :
      (now later : ℕ) (completed : Option ℕ) (s : Turns)
      → s.position < length s.order
      → ((c : ℕ) → completed ≡ some c → s.position ≡ 0)
      → s.awaiting ≡ none
      → Total (Seat cfg) (settle text cfg now later completed s)
  unfolding settle
  settle-Seat now later none s h z n = grant_and_cue-Seat later none s h n
  settle-Seat now later (some c) s h z n =
      Total-bind (Seat cfg) (Seat cfg) _ _
        (Total-if (Seat cfg) (is_held cfg) _ _
          (λ held.
            hold_for-Seat Awaiting.round (some c) (record s { last_announce = now }) (z c refl)
              (λ _. h) held)
          (λ _. grant_and_cue-Seat later (some c) s h n))
        (λ r _ g.
          emit-Seat (TurnEvent.round_complete c s.round s.order s.position cfg.min_rounds)
            (clear_round text cfg r) (clear_round-Seat r g))
