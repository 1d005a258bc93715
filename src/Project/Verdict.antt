-- ===== src/Project/Verdict.antt =====
-- A referee that may end the realm (src/bearpit/core/schema.py, `effective_termination`) under the
-- termination test (src/bearpit/warden/termination.py).
use bearpit.Base.{
  ◌≡◌, refl, ap, ◌∙◌, Bool, true, false, not, ◌&&◌, ◌||◌, List, [], ◌∷◌, ◌++◌, if◌then◌else◌,
  is_some, any, arith,
}
use bearpit.Termination.{
  Kind, Condition, Snapshot, Patterns, fires, fires_as, emptied, evaluate_termination,
  evaluate_termination-none,
}
use bearpit.Project.Spec.{Project}
use bearpit.Project.Checks.{referees}
use bearpit.Project.Launch.{is_verdict_kind, head_may_end, on_verdict, effective_termination}

any-append {ℓ} :
    {A : Type ℓ} (p : A → Bool) (xs ys : List A) → any p (xs ++ ys) ≡ (any p xs || any p ys)
any-append p [] ys = refl
any-append p (x ∷ xs) ys = ground (arith, any-append p xs ys)

module _ (py : Patterns) (snap : Snapshot) (given : is_some snap.verdict ≡ true) where
  verdict-fires :
      (k : Kind) (c : Condition) → is_verdict_kind k ≡ true → fires_as py k c snap ≡ true
  verdict-fires Kind.referee_verdict c h = given
  verdict-fires Kind.manual c h = cc
  verdict-fires Kind.no_active_participants c h = cc
  verdict-fires Kind.duration c h = cc
  verdict-fires Kind.file c h = cc
  verdict-fires Kind.message c h = cc
  verdict-fires Kind.budget_exhausted c h = cc
  verdict-fires Kind.stall c h = cc
  verdict-fires Kind.machine_terminal c h = cc

  any-fires :
      (cs : List Condition)
      → any (λ (c : Condition). is_verdict_kind c.kind) cs ≡ true
      → any (λ c. fires py c snap) cs ≡ true
  any-fires [] h = cc
  any-fires (c ∷ cs) h = ground (arith, verdict-fires c.kind c, any-fires cs, h)

  -- The conditions that are watched have one on the verdict.
  watches-verdict :
      (p : Project)
      → head_may_end (referees p.agents) ≡ true
      → any (λ (c : Condition). is_verdict_kind c.kind) (effective_termination p) ≡ true
  unfolding effective_termination
  watches-verdict p e = by_tests (head_may_end (referees p.agents)) _ e refl
    where
      by_tests :
          (b c : Bool)
          → b ≡ true
          → any (λ (x : Condition). is_verdict_kind x.kind) p.spec.termination ≡ c
          → any
              (λ (x : Condition). is_verdict_kind x.kind)
              (if b && not c then p.spec.termination ++ (on_verdict ∷ []) else p.spec.termination)
            ≡ true
      by_tests true true e h = h
      by_tests true false e h = ground (
        arith,
        any-append (λ (x : Condition). is_verdict_kind x.kind) p.spec.termination (on_verdict ∷ []),
        h,
      )
      by_tests false c e h = cc

  -- Where the referee's powers let its verdict end the realm, a verdict ends it, whatever
  -- conditions the project declares.
  pub effective_termination_ends :
      (p : Project)
      → head_may_end (referees p.agents) ≡ true
      → is_some (evaluate_termination py (effective_termination p) snap) ≡ true
  effective_termination_ends p e =
      evaluate_termination-none py (effective_termination p) snap
      ∙ ap (λ b. b || (snap.manual_stop || emptied py snap))
          (any-fires (effective_termination p) (watches-verdict p e))
