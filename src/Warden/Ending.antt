-- ===== src/Warden/Ending.antt =====
-- When and with what a watched realm ends (src/bearpit/warden/warden.py, `watch`).
use bearpit.Base.{
  ℕ, suc, ◌+◌, ◌≤◌, ◌≡◌, refl, sym, ap, Bool, true, false, not, List, [], ◌∷◌, Option, none, some,
  ltb, leb, if◌then◌else◌, length, arith, is_some,
}
use mathlib.Core.Path.{subst}
use bearpit.Termination.{Condition, Patterns, Kind, evaluate_termination}
use bearpit.Warden.Conclude.{Env, Fired, condition, wedged, budget_exhausted}
use bearpit.Warden.Watch.{
  Poll, failed, seen, Settings, Loop, Watched, concluded, waiting, crashed, watch, after_poll,
  end_with, next_tick, track, nudged, stalled_long, one_more_silent, fewer_ticks, unless_crashed,
  max_tick_errors, progress_of, same_progress, Progress,
}

module _ (py : Patterns) (conditions : List Condition) (budget : Option ℕ) where
  abbrev spent : ℕ → Bool
  spent tick = elim budget [ none ↦ false | some n ↦ not (ltb tick n) ]

  abbrev end_at : Poll → ℕ → (ℕ → Option Fired) → Option Fired
  end_at failed errors rest =
      if leb max_tick_errors (suc errors) then some wedged else rest (suc errors)
  end_at (seen snap) errors rest = elim (evaluate_termination py conditions snap) [
    | some kind ↦ some (condition kind)
    | none ↦ rest 0
  ]

  -- What ends the watch, told without its progress and nudges: the tick budget that is spent, a
  -- condition that fires, or the fifth failure in a row, whichever poll comes to it first.
  unfoldable pub first_end : ℕ → ℕ → List Poll → Option Fired
  first_end tick errors [] = if spent tick then some budget_exhausted else none
  first_end tick errors (p ∷ ps) =
      if spent tick then some budget_exhausted else end_at p errors (λ e. first_end (suc tick) e ps)

-- A watch that ended in that way, or waits where there is no end; or an exception got out.
abbrev pub Agrees : Watched → Option Fired → Type 0
Agrees (concluded f r) (some g) = f ≡ g
Agrees (concluded f r) none = ⊥
Agrees (waiting l) (some g) = ⊥
Agrees (waiting l) none = Unit
Agrees (crashed r) end = r.1 ≡ false

abbrev pub Ended : Watched → Type 0
Ended (waiting l) = ⊥
Ended _ = Unit

-- The tick budget is spent at the latest.
first_end_comes :
    (py : Patterns) (conditions : List Condition) (n : ℕ) (ps : List Poll) (tick errors : ℕ)
    → n ≤ tick + length ps
    → is_some (first_end py conditions (some n) tick errors ps) ≡ true
unfolding first_end
first_end_comes py conditions n [] tick errors h = ground (arith, h)
first_end_comes py conditions n (p ∷ ps) tick errors h =
    by_test (not (ltb tick n)) p
      (λ e. first_end_comes py conditions n ps (suc tick) e (omega (arith, h)))
  where
    by_test :
        (b : Bool) (p : Poll)
        → ((e : ℕ) → is_some (first_end py conditions (some n) (suc tick) e ps) ≡ true)
        → is_some (
            if b
            then some budget_exhausted
            else end_at py conditions
                (some n)
                p
                errors
                (λ e. first_end py conditions (some n) (suc tick) e ps))
          ≡ true
    by_test true p h = refl
    by_test false failed h = ground (arith, h (suc errors))
    by_test false (seen snap) h = by_kind (evaluate_termination py conditions snap)
      where
        by_kind :
            (o : Option Kind)
            → is_some (elim o [
              | some kind ↦ some (condition kind)
              | none ↦ first_end py conditions (some n) (suc tick) 0 ps
            ])
              ≡ true
        by_kind (some kind) = refl
        by_kind none = h 0

module _ (py : Patterns) (env : Env) (cfg : Settings) where
  abbrev end_of : ℕ → ℕ → List Poll → Option Fired
  end_of = first_end py cfg.conditions cfg.max_ticks

  unless_crashed-Agrees :
      (l : Loop) (rest : Loop → Watched) (end : Option Fired)
      → Agrees (rest l) end
      → Agrees (unless_crashed py env cfg l rest) end
  unless_crashed-Agrees l rest end h = by_test l.run.1 refl
    where
      by_test : (b : Bool) → l.run.1 ≡ b → Agrees (if b then rest l else crashed l.run) end
      by_test true e = h
      by_test false e = e

  fewer-spent :
      (l : Loop) → fewer_ticks py env cfg l ≡ not (spent py cfg.conditions cfg.max_ticks l.tick)
  fewer-spent l = by_budget cfg.max_ticks
    where
      by_budget :
          (o : Option ℕ)
          → (elim o [ none ↦ true | some n ↦ ltb l.tick n ])
            ≡ not (elim o [ none ↦ false | some n ↦ not (ltb l.tick n) ])
      by_budget none = refl
      by_budget (some n) = ground arith

  track_tick : (p : Progress) (l : Loop) → (track py env cfg p l).tick ≡ l.tick
  track_tick p l =
      by_tests (same_progress p l.last_progress)
        (stalled_long py env cfg (one_more_silent py env cfg l))
    where
      by_tests :
          (b c : Bool)
          → (if b
              then (if c
                  then nudged py env cfg (one_more_silent py env cfg l)
                  else one_more_silent py env cfg l)
              else record l { last_progress = some p; silent_ticks = 0 }).tick
            ≡ l.tick
      by_tests true true = refl
      by_tests true false = refl
      by_tests false c = refl

  track_errors : (p : Progress) (l : Loop) → (track py env cfg p l).consec_errors ≡ l.consec_errors
  track_errors p l =
      by_tests (same_progress p l.last_progress)
        (stalled_long py env cfg (one_more_silent py env cfg l))
    where
      by_tests :
          (b c : Bool)
          → (if b
              then (if c
                  then nudged py env cfg (one_more_silent py env cfg l)
                  else one_more_silent py env cfg l)
              else record l { last_progress = some p; silent_ticks = 0 }).consec_errors
            ≡ l.consec_errors
      by_tests true true = refl
      by_tests true false = refl
      by_tests false c = refl

  after_poll-Agrees :
      (p : Poll) (l : Loop) (rest : Loop → Watched) (end : ℕ → Option Fired)
      → ((k : Loop) → k.tick ≡ suc l.tick → Agrees (rest k) (end k.consec_errors))
      → Agrees
          (after_poll py env cfg p l rest)
          (end_at py cfg.conditions cfg.max_ticks p l.consec_errors end)
  after_poll-Agrees failed l rest end h = by_test (leb max_tick_errors (suc l.consec_errors))
    where
      next : Loop
      next = next_tick py env cfg (record l { consec_errors = suc l.consec_errors })

      by_test :
          (b : Bool)
          → Agrees
              (if b then end_with py env cfg wedged l else unless_crashed py env cfg next rest)
              (if b then some wedged else end (suc l.consec_errors))
      by_test true = refl
      by_test false = unless_crashed-Agrees next rest (end (suc l.consec_errors)) (h next refl)
  after_poll-Agrees (seen snap) l rest end h = by_kind (evaluate_termination py cfg.conditions snap)
    where
      tracked : Loop
      tracked = track py env cfg (progress_of snap) (record l { consec_errors = 0 })

      by_kind :
          (o : Option Kind)
          → Agrees
              (elim o [
                | some kind ↦ end_with py env cfg (condition kind) l
                | none ↦ unless_crashed py env cfg (next_tick py env cfg tracked) rest
              ])
              (elim o [ some kind ↦ some (condition kind) | none ↦ end 0 ])
      by_kind (some kind) = refl
      by_kind none = unless_crashed-Agrees (next_tick py env cfg tracked) rest (end 0) (
          subst (λ e. Agrees (rest (next_tick py env cfg tracked)) (end e))
            (track_errors (progress_of snap) (record l { consec_errors = 0 }))
            (h (next_tick py env cfg tracked)
              (ap suc (track_tick (progress_of snap) (record l { consec_errors = 0 })))))

  -- Progress and nudges do not decide how a watch ends: unless an exception gets out, it ends with
  -- the tick budget that is spent, the condition that fires, or the fifth failed poll in a row,
  -- whichever comes first, and waits exactly as long as none of them has come.
  pub watch-first_end :
      (ps : List Poll) (l : Loop)
      → Agrees
          (watch py env cfg ps l)
          (first_end py cfg.conditions cfg.max_ticks l.tick l.consec_errors ps)
  unfolding watch first_end
  watch-first_end [] l =
      subst
        (λ b.
          Agrees (if b then waiting l else end_with py env cfg budget_exhausted l)
            (if spent py cfg.conditions cfg.max_ticks l.tick then some budget_exhausted else none))
        (sym (fewer-spent l)) (by_test (spent py cfg.conditions cfg.max_ticks l.tick))
    where
      by_test :
          (b : Bool)
          → Agrees
              (if not b then waiting l else end_with py env cfg budget_exhausted l)
              (if b then some budget_exhausted else none)
      by_test true = refl
      by_test false = tt
  watch-first_end (p ∷ ps) l =
      subst
        (λ b.
          Agrees
            (if not b
              then end_with py env cfg budget_exhausted l
              else after_poll py env cfg p l (watch py env cfg ps))
            (if spent py cfg.conditions cfg.max_ticks l.tick
              then some budget_exhausted
              else end_at py cfg.conditions cfg.max_ticks p l.consec_errors after))
        (sym (fewer-spent l))
        (by_test (spent py cfg.conditions cfg.max_ticks l.tick) (
          after_poll-Agrees p l (watch py env cfg ps) after (λ k e.
            subst (λ t. Agrees (watch py env cfg ps k) (end_of t k.consec_errors ps)) e
              (watch-first_end ps k))))
    where
      after : ℕ → Option Fired
      after e = end_of (suc l.tick) e ps

      by_test :
          (b : Bool)
          → Agrees
              (after_poll py env cfg p l (watch py env cfg ps))
              (end_at py cfg.conditions cfg.max_ticks p l.consec_errors after)
          → Agrees
              (if not (not b)
                then end_with py env cfg budget_exhausted l
                else after_poll py env cfg p l (watch py env cfg ps))
              (if b
                then some budget_exhausted
                else end_at py cfg.conditions cfg.max_ticks p l.consec_errors after)
      by_test true h = refl
      by_test false h = h

  -- A watch with a tick budget has ended, by concluding the realm or with an exception, once as
  -- many polls were made as the budget has ticks left.
  pub watch-Ended :
      (ps : List Poll) (l : Loop) (n : ℕ)
      → cfg.max_ticks ≡ some n
      → n ≤ l.tick + length ps
      → Ended (watch py env cfg ps l)
  unfolding watch
  watch-Ended ps l n b h =
      by_end (watch py env cfg ps l) (end_of l.tick l.consec_errors ps) (watch-first_end ps l) (
        subst (λ o. is_some (first_end py cfg.conditions o l.tick l.consec_errors ps) ≡ true)
          (sym b) (first_end_comes py cfg.conditions n ps l.tick l.consec_errors h))
    where
      by_end : (r : Watched) (end : Option Fired) → Agrees r end → is_some end ≡ true → Ended r
      by_end (concluded f r) end a i = tt
      by_end (crashed r) end a i = tt
      by_end (waiting l) (some g) a i = a
      by_end (waiting l) none a i = cc
