-- ===== src/Turns/Ticks.antt =====
-- Where the position stands and who is granted the floor, for whole operations
-- (src/bearpit/warden/turns.py, `_advance`, `observe` and `start`).
use bearpit.Base.{
  ℕ, suc, ◌<◌, ◌+◌, String, ◌≡◌, refl, sym, ◌∙◌, Bool, true, false, not, ◌||◌, Option, none, some,
  List, [], ◌∷◌, arith, if◌then◌else◌, is_empty, length, All, ltb, leb, ltb→lt, contains, drop,
}
use mathlib.Core.Bool.{true≢false}
use bearpit.Base.Dict.{erase, insert}
use bearpit.Base.Outcome.{Total, Total-bind, Total-if}
use bearpit.Turns.State.{
  Awaiting, Config, Turns, TurnEvent, Notice, Out, announce, notify_referee, initial,
}
use bearpit.Turns.Speech.{Text}
use bearpit.Turns.Floor.{pop_at, is_held, settle, pass_on, advance, resume, start}
use bearpit.Turns.Observe.{
  Entry, substantive, senders, heard, observe_awaiting, missed, retires, observe_live,
  observe_heard, observe,
}
use bearpit.Turns.Seats.{
  IsForHolder, IsSeated, Seat, at_position-in, grant_floor-Seat, hold_for-Seat, grant_and_cue-Seat,
  emit-Seat, settle-Seat,
}

pub nonempty : (xs : List String) → is_empty xs ≡ false → 0 < length xs
nonempty [] e = cc
nonempty (x ∷ xs) e = omega arith

reseated : (i n : ℕ) → 0 < n → (if leb n i then 0 else i) < n
reseated i n h = ground arith

module _ (text : Text) (cfg : Config) where
  pub not_paused : (s : Turns) (w : Awaiting) → s.awaiting ≡ none → s.awaiting ≡ some w → ⊥
  not_paused s w n e = cc

  pub pass_on-Seat :
      (now later : ℕ) (s : Turns)
      → s.awaiting ≡ none
      → Total (Seat cfg) (pass_on text cfg now later s)
  unfolding pass_on
  pass_on-Seat now later s n =
      Total-if (Seat cfg) (is_empty s.order) _ _
        (λ e. (
          record {
            in_range = λ f. absurd (true≢false (sym e ∙ f));
            parked = λ w q. absurd (not_paused s w n q);
          },
          (tt, tt),
        ))
        (λ e. by_place e (ltb s.position (length s.order)) refl)
    where
      by_place :
          is_empty s.order ≡ false
          → (b : Bool) → ltb s.position (length s.order) ≡ b
          → Total (Seat cfg) (
              settle text cfg now later
                (if b then none else some s.round)
                (record (if b then s else record s { position = 0; round = suc s.round }) {
                  turn_start = now;
                }))
      by_place e true h =
          settle-Seat text cfg now later none (record s { turn_start = now })
            (ltb→lt s.position (length s.order) h) (λ c q. cc) n
      by_place e false h =
          settle-Seat text cfg now later (some s.round)
            (record s { position = 0; round = suc s.round; turn_start = now }) (nonempty s.order e)
            (λ c q. refl) n

  -- Passing the floor on from its holder, who may leave the rotation.
  pub advance-Seat :
      (now later : ℕ) (retire : Bool) (s : Turns)
      → s.position < length s.order
      → s.awaiting ≡ none
      → Total (Seat cfg) (advance text cfg now later retire s)
  unfolding advance
  advance-Seat now later false s h n =
      pass_on-Seat now later (record s { position = suc s.position }) n
  advance-Seat now later true s h n =
      let (a, g, r) = at_position-in s h in
      rw r (
        Total-bind (Seat cfg) (Seat cfg) _ _
          (pass_on-Seat now later
            (record s { order = pop_at s.position s.order; misses = erase a s.misses }) n)
          (λ q _ k. emit-Seat text cfg (TurnEvent.retired a s.round) q k))

  pub resume-Seat :
      (now later : ℕ) (s : Turns)
      → is_empty s.order ≡ false
      → Total (Seat cfg) (resume text cfg now later s)
  unfolding resume
  resume-Seat now later s e =
      grant_floor-Seat text cfg later
        (record s {
          awaiting = none;
          position = if leb (length s.order) s.position then 0 else s.position;
          turn_start = now;
        })
        (reseated s.position (length s.order) (nonempty s.order e)) refl

  -- Starting any rotation that has not begun returns, and leaves the position inside the rotation,
  -- with play waiting only for a driving referee; and whoever was granted the floor is its holder,
  -- with play not waiting.
  start-IsSeated :
      (now later : ℕ) (order : List String)
      → Total (Seat cfg) (start text cfg now later (initial order))
  unfolding start initial
  start-IsSeated now later order =
      Total-if (Seat cfg) (is_empty order) _ _
        (λ e. (record { in_range = λ f. nonempty order f; parked = λ w q. cc }, tt))
        (λ e.
          Total-if (Seat cfg) (is_held cfg) _ _
            (λ held.
              hold_for-Seat text cfg Awaiting.opener none
                (record (initial order) { started = true; turn_start = now; last_announce = now })
                refl (λ f. nonempty order f) held)
            (λ _.
              grant_and_cue-Seat text cfg later none
                (record (initial order) { started = true; turn_start = now }) (nonempty order e)
                refl))

  module _ (now later : ℕ) (s : Turns) (g : IsSeated cfg s) (e : is_empty s.order ≡ false) where
    -- A tick that sends nothing to the holder of the floor.
    waits :
        (o : Out)
        → ((u : Turns) → IsForHolder u o)
        → Seat cfg (record s { last_announce = now }, o ∷ [])
    waits o h = (
      record { in_range = g.in_range; parked = g.parked },
      (h (record s { last_announce = now }), tt),
    )

    observe_awaiting-Seat :
        (what : Awaiting) (referee : String) (new : List (String × String))
        → Total (Seat cfg) (observe_awaiting text cfg now later what referee new s)
    unfolding observe_awaiting
    observe_awaiting-Seat what referee new =
        Total-if (Seat cfg) (contains referee (senders text cfg new)) _ _
          (λ _. resume-Seat now later s e)
          (λ _.
            Total-if (Seat cfg) (leb (s.turn_start + cfg.timeout) now) _ _
              (λ _.
                Total-bind (Seat cfg) (Seat cfg) _ _ (resume-Seat now later s e)
                  (λ r _ k. emit-Seat text cfg (TurnEvent.referee_timeout what s.round) r k))
              (λ _.
                Total-if (Seat cfg) (leb (s.last_announce + cfg.reannounce) now) _ _
                  (λ _. waits (notify_referee (Notice.waiting_on_you what)) (λ u. tt))
                  (λ _. (g, tt))))

    observe_live-Seat :
        (floor : String) (new_senders : List String)
        → s.awaiting ≡ none
        → Total (Seat cfg) (observe_live text cfg now later floor new_senders s)
    unfolding observe_live
    observe_live-Seat floor new_senders n =
        Total-if (Seat cfg) (contains floor new_senders) _ _
          (λ _.
            advance-Seat now later false (record s { misses = insert floor 0 s.misses })
              (g.in_range e) n)
          (λ _.
            Total-if (Seat cfg) (leb (s.turn_start + cfg.timeout) now) _ _
              (λ _.
                advance-Seat now later (retires text cfg (missed text cfg floor s))
                  (record s { misses = insert floor (missed text cfg floor s) s.misses })
                  (g.in_range e) n)
              (λ _.
                Total-if (Seat cfg) (leb (s.last_announce + cfg.reannounce) now) _ _
                  (λ _. waits (announce floor true []) (λ u. tt)) (λ _. (g, tt))))

    observe_heard-Seat :
        (a : Option Awaiting) (new : List (String × String)) (plain : List String)
        → s.awaiting ≡ a
        → Total (Seat cfg) (observe_heard text cfg now later a cfg.referee_id new plain s)
    observe_heard-Seat none new plain n =
        let (floor, f, r) = at_position-in s (g.in_range e) in rw r (observe_live-Seat floor _ n)
    observe_heard-Seat (some w) new plain n = with_referee cfg.referee_id refl
      where
        with_referee :
            (o : Option String)
            → cfg.referee_id ≡ o
            → Total (Seat cfg) (observe_heard text cfg now later (some w) o new plain s)
        with_referee (some referee) q = observe_awaiting-Seat w referee new
        with_referee none q = absurd (true≢false (sym ((g.parked w n).1) ∙ ground (arith, q)))

  -- A tick over any feed returns, and leaves the position inside the rotation; play waits only for
  -- a driving referee, at the first place of a round; and whoever was granted the floor in this
  -- tick is its holder now, with play not waiting.
  pub observe-IsSeated :
      (now later : ℕ) (speakers : List Entry) (s : Turns)
      → IsSeated cfg s
      → Total
          (λ r. IsSeated cfg r.0 × All (IsForHolder r.0) r.1)
          (observe text cfg now later speakers s)
  unfolding observe
  observe-IsSeated now later speakers s g =
      Total-if (Seat cfg) (not s.started || is_empty s.order) _ _ (λ _. (g, tt))
        (λ e.
          observe_heard-Seat now later
            (heard text cfg speakers (substantive text cfg (drop s.cursor speakers)) s)
            (record { in_range = g.in_range; parked = g.parked })
            (right-false (not s.started) (is_empty s.order) e) s.awaiting _ _ refl)
    where
      right-false : (a b : Bool) → (a || b) ≡ false → b ≡ false
      right-false false b h = h
      right-false true b h = cc
