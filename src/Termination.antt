-- ===== src/Termination.antt =====
-- When a realm ends (src/bearpit/warden/termination.py): the first condition that holds, then the
-- two that need no declaration. Money and time count whole units; the pattern languages and
-- `parse_duration` of a checked text are parameters.
use bearpit.Base.{
  ℕ, ◌+◌, String, Bool, true, false, not, ◌&&◌, ◌||◌, ◌≡◌, Option, none, some, List, [], ◌∷◌, ◌++◌,
  arith, ◌==◌, eqb, ltb, leb, if◌then◌else◌, is_some, is_empty, or_else, any, all, length, select,
}
use bearpit.Base.Dict.{Dict, lookup}

pub data Kind : Type 0 where
  manual no_active_participants duration file message budget_exhausted referee_verdict stall
        machine_terminal :
      Kind

pub data MatchMode : Type 0 where
  exact regex substring : MatchMode

pub data Scope : Type 0 where
  any_agent all_agents realm_total : Scope

-- A condition's fields; an empty text counts as none.
pub record Condition : Type 0 where
  pub kind : Kind
  pub limit : Option String
  pub path : Option String
  pub content_match : Option String
  pub count : Option ℕ
  pub channel : Option String
  pub pattern : Option String
  pub match_mode : MatchMode
  pub scope : Option Scope

pub record Snapshot : Type 0 where
  pub elapsed_s : ℕ
  pub messages : List (String × String)
  pub files : List String
  pub file_contents : Dict String
  pub spend : List (ℕ × Option ℕ)
  pub verdict : Option String
  pub idle_s : ℕ
  pub manual_stop : Bool
  pub participants : ℕ
  pub participants_alive : ℕ
  pub machine_state : Option String
  pub machine_terminal_reached : Bool

-- Python's `needle in haystack`, `re.search(needle, haystack)`, `fnmatch(path, glob)`, and the
-- seconds of a duration that was checked when it was parsed.
pub record Patterns : Type 0 where
  pub contains_text : String → String → Bool
  pub search : String → String → Bool
  pub fnmatch : String → String → Bool
  pub seconds : String → ℕ

module _ (py : Patterns) where
  unfoldable pub text_match : String → String → MatchMode → Bool
  text_match haystack needle MatchMode.exact = haystack == needle
  text_match haystack needle MatchMode.regex = py.search needle haystack
  text_match haystack needle MatchMode.substring = py.contains_text needle haystack

  abbrev given : Option String → Bool
  given none = false
  given (some s) = not (s == "")

  abbrev path_matches : Condition → String → Bool
  path_matches cond path = not (given cond.path) || py.fnmatch path (or_else cond.path "")

  abbrev content_matches : Condition → Snapshot → String → Bool
  content_matches cond snap path =
      not (given cond.content_match)
      || text_match (or_else (lookup path snap.file_contents) "") (or_else cond.content_match "")
          cond.match_mode

  unfoldable pub file_matches : Condition → Snapshot → ℕ
  unfolding text_match
  file_matches cond snap =
      length (select (λ path. path_matches cond path && content_matches cond snap path) snap.files)

  abbrev on_channel : Condition → String → Bool
  on_channel cond channel = not (given cond.channel) || channel == or_else cond.channel ""

  unfoldable pub message_matches : Condition → Snapshot → ℕ
  unfolding text_match
  message_matches cond snap = length (
      select
        (λ m.
          on_channel cond m.0
          && given cond.pattern
          && text_match m.1 (or_else cond.pattern "") cond.match_mode)
        snap.messages)

  abbrev duration_fired : Condition → Snapshot → Bool
  duration_fired cond snap = elim cond.limit [
    | none ↦ false
    | some limit ↦ leb (py.seconds limit) snap.elapsed_s
  ]

  -- Those with a cap.
  abbrev capped : List (ℕ × Option ℕ) → List (ℕ × ℕ)
  capped [] = []
  capped ((s, none) ∷ ps) = capped ps
  capped ((s, some c) ∷ ps) = (s, c) ∷ capped ps

  abbrev sum_spent : List (ℕ × ℕ) → ℕ
  sum_spent [] = 0
  sum_spent ((s, c) ∷ ps) = s + sum_spent ps

  abbrev sum_caps : List (ℕ × ℕ) → ℕ
  sum_caps [] = 0
  sum_caps ((s, c) ∷ ps) = c + sum_caps ps

  abbrev pub in_scope : Scope → Bool → List (ℕ × ℕ) → Bool
  in_scope Scope.all_agents all_capped ps = all_capped && all (λ p. leb p.1 p.0) ps
  in_scope Scope.realm_total all_capped ps = all_capped && leb (sum_caps ps) (sum_spent ps)
  in_scope Scope.any_agent all_capped ps = any (λ p. leb p.1 p.0) ps

  unfoldable pub budget_fired : Condition → Snapshot → Bool
  budget_fired cond snap =
      let ps = capped snap.spend in
      not (is_empty ps)
      && in_scope (or_else cond.scope Scope.any_agent) (eqb (length ps) (length snap.spend)) ps

  abbrev pub emptied : Snapshot → Bool
  emptied snap = ltb 0 snap.participants && eqb snap.participants_alive 0

  -- `cond.count or 1`
  abbrev wanted : Condition → ℕ
  wanted cond = elim cond.count [ none ↦ 1 | some n ↦ if eqb n 0 then 1 else n ]

  abbrev stalled : Condition → Snapshot → Bool
  stalled cond snap = given cond.limit && leb (py.seconds (or_else cond.limit "")) snap.idle_s

  -- Whether a condition of a kind holds.
  abbrev pub fires_as : Kind → Condition → Snapshot → Bool
  fires_as Kind.manual cond snap = snap.manual_stop
  fires_as Kind.no_active_participants cond snap = emptied snap
  fires_as Kind.duration cond snap = duration_fired cond snap
  fires_as Kind.file cond snap = leb (wanted cond) (file_matches cond snap)
  fires_as Kind.message cond snap = leb (wanted cond) (message_matches cond snap)
  fires_as Kind.budget_exhausted cond snap = budget_fired cond snap
  fires_as Kind.referee_verdict cond snap = is_some snap.verdict
  fires_as Kind.stall cond snap = stalled cond snap
  fires_as Kind.machine_terminal cond snap = snap.machine_terminal_reached

  abbrev pub fires : Condition → Snapshot → Bool
  fires cond snap = fires_as cond.kind cond snap

  -- The kind that is reported; the detail is a rendering of the condition.
  unfoldable pub evaluate_termination : List Condition → Snapshot → Option Kind
  evaluate_termination [] snap =
      if snap.manual_stop
      then some Kind.manual
      else if emptied snap
      then some Kind.no_active_participants
      else none
  evaluate_termination (cond ∷ conditions) snap =
      let rest = evaluate_termination conditions snap in
      if fires cond snap then some cond.kind else rest

  -- The kind that ends a realm is that of the first condition that holds, wherever it stands among
  -- the declared ones.
  pub evaluate_termination-first :
      (before after : List Condition) (cond : Condition) (snap : Snapshot)
      → any (λ c. fires c snap) before ≡ false
      → fires cond snap ≡ true
      → evaluate_termination (before ++ cond ∷ after) snap ≡ some cond.kind
  unfolding evaluate_termination
  evaluate_termination-first [] after cond snap n f = simp f
  evaluate_termination-first (b ∷ before) after cond snap n f =
      ground (arith, n, evaluate_termination-first before after cond snap, f)

  -- A realm ends exactly when a declared condition holds, or somebody has stopped it, or it has
  -- nobody left who could act.
  pub evaluate_termination-none :
      (conditions : List Condition) (snap : Snapshot)
      → is_some (evaluate_termination conditions snap)
        ≡ (any (λ c. fires c snap) conditions || (snap.manual_stop || emptied snap))
  unfolding evaluate_termination
  evaluate_termination-none [] snap = ground arith
  evaluate_termination-none (c ∷ conditions) snap =
      ground (arith, evaluate_termination-none conditions snap)
