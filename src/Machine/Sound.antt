-- ===== src/Machine/Sound.antt =====
-- Lemmas that take the launch checks apart (src/bearpit/core/machine.py, the validators).
use bearpit.Base.{String, ◌≡◌, refl, Bool, true, false, some, [], ◌∷◌, arith, eq_iff, contains}
use bearpit.Base.Dict.{Dict, lookup}
use bearpit.Machine.Decl.{MachineDef, TransitionDef}
use bearpit.Machine.Validate.{
  Verdict, passes, refuses, crashes, ◌then_check◌, require, for_all, declared_state,
  check_transition, structure, Refusal, check_initial, check_terminal, check_pointer, check_data,
  check_reachable, check_from, check_to, check_by, check_guards_known, to_undeclared,
  initial_undeclared,
}
use bearpit.Machine.Authority.{validate, authority}

pub both_pass : (a b : Verdict) → (a then_check b) ≡ passes → (a ≡ passes) × (b ≡ passes)
both_pass passes b h = (refl, h)
both_pass (refuses r) b h = cc
both_pass (crashes e) b h = cc

pub require-passes : (b : Bool) (r : Refusal) → require b r ≡ passes → b ≡ true
require-passes true r h = refl
require-passes false r h = cc

-- A check of all entries of a dict is a check of each entry that a lookup finds.
pub for_all-lookup {ℓ} :
    {V : Type ℓ} (f : String × V → Verdict) (d : Dict V) (k : String) (v : V)
    → for_all f d ≡ passes
    → lookup k d ≡ some v
    → f (k, v) ≡ passes
for_all-lookup f [] k v h e = cc
for_all-lookup f ((j, w) ∷ d) k v h e =
    let parts = both_pass (f (j, w)) (for_all f d) h in
    ground (arith, eq_iff j k, parts.0, for_all-lookup f d k v parts.1)

pub structure-transition :
    (defn : MachineDef) (name : String) (t : TransitionDef)
    → structure defn ≡ passes
    → lookup name defn.transitions ≡ some t
    → check_transition defn (name, t) ≡ passes
unfolding structure
structure-transition defn name t h found =
    let transitions = for_all (check_transition defn) defn.transitions in
    let h1 = (both_pass (check_initial defn) _ h).1 in
    let h2 = (both_pass (check_terminal defn) _ h1).1 in
    let h3 = (both_pass (check_pointer defn defn.actor) _ h2).1 in
    let h4 = (both_pass (check_data defn) _ h3).1 in
    for_all-lookup (check_transition defn) defn.transitions name t
      (both_pass transitions (check_reachable defn) h4).0 found

-- The target of a declared transition is a declared state, or `same`.
pub structure-to :
    (defn : MachineDef) (name : String) (t : TransitionDef)
    → structure defn ≡ passes
    → lookup name defn.transitions ≡ some t
    → declared_state defn "same" t.to ≡ true
structure-to defn name t h found =
    let h1 = (both_pass (check_from defn t) _ (structure-transition defn name t h found)).1 in
    require-passes (declared_state defn "same" t.to) to_undeclared
      (both_pass (check_to defn t) _ h1).0

pub structure-initial :
    (defn : MachineDef) → structure defn ≡ passes → contains defn.initial defn.states ≡ true
unfolding structure
structure-initial defn h =
    require-passes (contains defn.initial defn.states) initial_undeclared
      (both_pass (check_initial defn) _ h).0

pub validate-parts :
    (defn : MachineDef)
    → validate defn ≡ passes
    → (structure defn ≡ passes) × (authority defn ≡ passes)
unfolding validate
validate-parts defn h = both_pass (structure defn) (authority defn) h

-- The guards of a declared transition have known names.
pub structure-guards :
    (defn : MachineDef) (name : String) (t : TransitionDef)
    → structure defn ≡ passes
    → lookup name defn.transitions ≡ some t
    → check_guards_known t ≡ passes
structure-guards defn name t h found =
    let h0 = structure-transition defn name t h found in
    let h1 = both_pass (check_from defn t) _ h0 in
    let h2 = both_pass (check_to defn t) _ h1.1 in
    let h3 = both_pass (check_by defn t) _ h2.1 in (both_pass (check_guards_known t) _ h3.1).0
