-- ===== src/Machine/Progress.antt =====
-- What the launch checks on a guard ask (src/bearpit/core/machine.py, `_check_guard`) against what
-- its evaluation looks up (src/bearpit/realmtools/machine.py, `check_guard`).
use bearpit.Base.{
  ℕ, String, ◌≡◌, refl, ◌∙◌, ap, Bool, true, not, Option, none, some, List, [], ◌∷◌, length,
  or_else, All,
}
use mathlib.Core.Path.{subst}
use bearpit.Base.Dict.{Dict, lookup}
use bearpit.Base.StrSet.{StrSet, minus, of_list}
use bearpit.Base.Outcome.{
  Py, ok, raised, key_error, or_raise, ◌>>=◌, Returns, Returns-bind, Returns-if,
}
use bearpit.Value.{
  Value, null, int, negative, str, dict, Items, nil, cons, Fields, end, get, get_or_null,
}
use bearpit.Machine.Decl.{MachineDef, RoleDef, GuardName, Guard, TransitionDef, fields_of}
use bearpit.Machine.State.{
  Bindings, MachineState, Ctx, required, iterate, minus_arg, minus_sets, expected, members_of,
}
use bearpit.Machine.Guards
use bearpit.Machine.Guards.{check_guard_name, guards_hold, bound_holds, at_most, at_least}
use bearpit.Machine.Validate.{
  Verdict, passes, Refusal, require, require_py, for_all, in_dict, known_guard,
}
use bearpit.Machine.Authority
use bearpit.Machine.Authority.{
  reads_key, guard_key, is_null, known_key, check_key, check_round, check_count, check_over,
  first_given, first_bound, is_int, is_set_value, check_minus, check_minus_arg, public_log,
  check_effects, check_log, check_guards, check_role, check_authority, authority, validate,
}
use bearpit.Machine.Sound.{
  both_pass, require-passes, for_all-lookup, structure-guards, validate-parts,
}

-- The name of a declared role is a text, so it can be looked up.
in_dict-text {ℓ} :
    {V : Type ℓ} (v : Value) (d : Dict V) (r : Refusal)
    → require_py (in_dict v d) r ≡ passes
    → (s : String) × (v ≡ str s)
in_dict-text (str s) d r h = (s, refl)
in_dict-text null d r h = cc
in_dict-text _ d r h = cc

minus_sets-Returns :
    (defn : MachineDef) (sets : Dict StrSet) (xs : Items) (members : StrSet)
    → check_minus defn xs ≡ passes
    → Returns (minus_sets sets xs members)
minus_sets-Returns defn sets nil members h = tt
minus_sets-Returns defn sets (cons (str s) xs) members h =
    minus_sets-Returns defn sets xs (minus members _)
      (both_pass (require_py (is_set_value defn (str s)) Refusal.minus_not_set)
        (check_minus defn xs) h).1
minus_sets-Returns defn sets (cons null xs) members h = cc
minus_sets-Returns defn sets (cons _ xs) members h = cc

iterate-checked :
    (defn : MachineDef) (m : Py Items)
    → check_minus_arg defn m ≡ passes
    → (xs : Items) × (m ≡ ok xs) × (check_minus defn xs ≡ passes)
iterate-checked defn (raised e) h = cc
iterate-checked defn (ok xs) h = (xs, refl, h)

-- `over` is given, and is a text.
over_text :
    (a : Fields) (roles : Dict RoleDef) (r : Refusal)
    → require_py (in_dict (get_or_null "over" a) roles) r ≡ passes
    → (s : String) × (get "over" a ≡ some (str s))
over_text a roles r h = given (get "over" a) refl
  where
    at :
        (o : Option Value)
        → get "over" a ≡ o
        → require_py (in_dict (or_else o null) roles) r ≡ passes
    at o e = subst (λ x. require_py (in_dict (or_else x null) roles) r ≡ passes) e h

    given : (o : Option Value) → get "over" a ≡ o → (s : String) × (get "over" a ≡ some (str s))
    given none e = let h' = at none e in cc
    given (some v) e = let (s, eq) = in_dict-text v roles r (at (some v) e) in (s, e ∙ ap some eq)

-- Whom a guard with a declared role and declared sets asks about can be worked out.
expected-Returns {ℓ} :
    {B : Type ℓ} (defn : MachineDef) (bindings : Bindings) (state : MachineState) (a : Fields)
    (r : Refusal) (rest : StrSet → Py B)
    → require_py (in_dict (get_or_null "over" a) defn.roles) r ≡ passes
    → check_minus_arg defn (iterate (minus_arg a)) ≡ passes
    → ((members : StrSet) → Returns (rest members))
    → Returns (required "over" a >>= λ over. expected bindings state over (minus_arg a) >>= rest)
unfolding expected
expected-Returns defn bindings state a r rest ho hm hr =
    let (s, e) = over_text a defn.roles r ho in
    let (xs, ex, hx) = iterate-checked defn (iterate (minus_arg a)) hm in
    let members = members_of bindings s in
    let found =
      Returns-bind (minus_sets state.sets xs (of_list members)) rest
        (minus_sets-Returns defn state.sets xs (of_list members) hx) (λ m _. hr m) in
    rw (e, ex) found

at_most-Returns : (n : ℕ) (v : Value) → is_int v ≡ true → Returns (at_most n v)
at_most-Returns n (int k) h = tt
at_most-Returns n (negative k) h = tt
at_most-Returns n null h = cc
at_most-Returns n _ h = cc

at_least-Returns : (n : ℕ) (v : Value) → is_int v ≡ true → Returns (at_least n v)
at_least-Returns n (int k) h = tt
at_least-Returns n (negative k) h = tt
at_least-Returns n null h = cc
at_least-Returns n _ h = cc

bound_holds-Returns :
    (n : ℕ) (eq most least : Option Value)
    → is_int (first_given eq most least) ≡ true
    → Returns (bound_holds n eq most least)
bound_holds-Returns n (some v) most least h = tt
bound_holds-Returns n none (some v) least h = at_most-Returns n v h
bound_holds-Returns n none none (some v) h = at_least-Returns n v h
bound_holds-Returns n none none none h = cc

key_given :
    (o : Option Value) (r : Refusal)
    → require (not (is_null (or_else o null))) r ≡ passes
    → Returns (or_raise o key_error)
key_given none r h = cc
key_given (some v) r h = tt

-- The parts of the launch check of a guard.
abbrev IsAccepted : MachineDef → GuardName → Value → Type 0
IsAccepted defn name arg =
    (check_key defn name (guard_key arg) ≡ passes)
    × (check_count defn name (fields_of arg) ≡ passes)
    × (check_over defn name (fields_of arg) ≡ passes)
    × (check_minus_arg defn (iterate (minus_arg (fields_of arg))) ≡ passes)

set_full-Returns :
    (defn : MachineDef) (bindings : Bindings) (state : MachineState) (ctx : Ctx) (arg : Value)
    → IsAccepted defn GuardName.data_set_full arg
    → Returns (check_guard_name GuardName.data_set_full arg bindings state ctx)
unfolding check_guard_name
set_full-Returns defn bindings state ctx (dict d) (key, count, over, minus) =
    expected-Returns defn bindings state d Refusal.over_undeclared _ over minus (λ members.
      Returns-bind (required "key" d) _
        (key_given (get "key" d) Refusal.guard_needs_key (both_pass _ _ key).0) (λ k _. tt))
set_full-Returns defn bindings state ctx null (key, count, over, minus) =
    cc (over_text end defn.roles Refusal.over_undeclared over).1
set_full-Returns defn bindings state ctx arg (key, count, over, minus) =
    cc (over_text end defn.roles Refusal.over_undeclared over).1

check_guard_name-Returns :
    (defn : MachineDef) (bindings : Bindings) (state : MachineState) (ctx : Ctx) (name : GuardName)
    (arg : Value)
    → known_guard name ≡ true
    → IsAccepted defn name arg
    → Returns (check_guard_name name arg bindings state ctx)
unfolding check_guard_name
check_guard_name-Returns defn bindings state ctx GuardName.members_count arg k
      (key, count, over, minus) =
    let a = fields_of arg in
    let parts =
      both_pass (require (is_int (first_bound a)) Refusal.count_not_literal)
        (require_py (in_dict (get_or_null "over" a) defn.roles) Refusal.over_undeclared) count in
    expected-Returns defn bindings state a Refusal.over_undeclared _ parts.1 minus (λ members.
      bound_holds-Returns (length members) (get "equals" a) (get "at_most" a) (get "at_least" a)
        (require-passes (is_int (first_bound a)) Refusal.count_not_literal parts.0))
check_guard_name-Returns defn bindings state ctx GuardName.data_set_full arg k c =
    set_full-Returns defn bindings state ctx arg c
check_guard_name-Returns defn bindings state ctx GuardName.escrow_complete arg k
      (key, count, over, minus) =
    expected-Returns defn bindings state (fields_of arg) Refusal.over_undeclared _ over minus
      (λ m. tt)
check_guard_name-Returns defn bindings state ctx (GuardName.unknown n) arg k c = cc
check_guard_name-Returns defn bindings state ctx _ arg k c = tt

abbrev Known : List Guard → Type 0
Known = All (λ g. known_guard g.name ≡ true)

guard-checked :
    (defn : MachineDef) (open_log : Bool) (g : Guard)
    → Authority.check_guard defn open_log g ≡ passes
    → IsAccepted defn g.name g.arg
unfolding Authority.check_guard
guard-checked defn open_log g h =
    let a = fields_of g.arg in
    let h1 = both_pass (check_key defn g.name (guard_key g.arg)) _ h in
    let h2 = both_pass (check_round defn g.name a) _ h1.1 in
    let h3 = both_pass (check_count defn g.name a) _ h2.1 in
    let h4 = both_pass (check_over defn g.name a) _ h3.1 in
    let h5 = both_pass (check_minus_arg defn (iterate (minus_arg a))) _ h4.1 in
    (h1.0, h3.0, h4.0, h5.0)

check_guard-Returns :
    (defn : MachineDef) (bindings : Bindings) (state : MachineState) (ctx : Ctx) (open_log : Bool)
    (g : Guard)
    → known_guard g.name ≡ true
    → Authority.check_guard defn open_log g ≡ passes
    → Returns (Guards.check_guard g bindings state ctx)
unfolding Guards.check_guard
check_guard-Returns defn bindings state ctx open_log g k h =
    check_guard_name-Returns defn bindings state ctx g.name g.arg k
      (guard-checked defn open_log g h)

pub guards_hold-Returns :
    (defn : MachineDef) (bindings : Bindings) (state : MachineState) (ctx : Ctx) (open_log : Bool)
    (gs : List Guard)
    → All (λ g. known_guard g.name ≡ true) gs
    → All (λ g. Authority.check_guard defn open_log g ≡ passes) gs
    → Returns (guards_hold gs bindings state ctx)
unfolding guards_hold
guards_hold-Returns defn bindings state ctx open_log [] k h = tt
guards_hold-Returns defn bindings state ctx open_log (g ∷ gs) k h =
    Returns-bind (Guards.check_guard g bindings state ctx) _
      (check_guard-Returns defn bindings state ctx open_log g k.0 h.0)
      (λ held _.
        Returns-if held _ _ (guards_hold-Returns defn bindings state ctx open_log gs k.1 h.1) tt)

pub for_all-All {ℓ} :
    {A : Type ℓ} (f : A → Verdict) (xs : List A)
    → for_all f xs ≡ passes
    → All (λ x. f x ≡ passes) xs
for_all-All f [] h = tt
for_all-All f (x ∷ xs) h =
    let parts = both_pass (f x) (for_all f xs) h in (parts.0, for_all-All f xs parts.1)

pub All-map {ℓ κ μ} :
    {A : Type ℓ} (P : A → Type κ) (Q : A → Type μ) (xs : List A)
    → ((x : A) → P x → Q x)
    → All P xs
    → All Q xs
All-map P Q [] f h = tt
All-map P Q (x ∷ xs) f h = (f x h.0, All-map P Q xs f h.1)

role-guards :
    (defn : MachineDef) (t : TransitionDef) (o : Option RoleDef)
    → check_role defn t o ≡ passes
    → check_guards defn t ≡ passes
role-guards defn t none h = cc
role-guards defn t (some role) h =
    (both_pass (check_log t role) (check_guards defn t)
      (both_pass (check_effects defn t role) _ h).1).1

-- In a machine that passed the launch checks, the guards of a declared transition are evaluated
-- without an exception, whatever the bindings, the state and the call.
pub transition_guards-Returns :
    (defn : MachineDef) (bindings : Bindings) (state : MachineState) (ctx : Ctx) (name : String)
    (t : TransitionDef)
    → validate defn ≡ passes
    → lookup name defn.transitions ≡ some t
    → Returns (guards_hold t.guard bindings state ctx)
unfolding authority
transition_guards-Returns defn bindings state ctx name t valid found =
    let parts = validate-parts defn valid in
    let structured = structure-guards defn name t parts.0 found in
    let permitted =
      for_all-lookup (check_authority defn) defn.transitions name t
        (both_pass (for_all (check_authority defn) defn.transitions) _ parts.1).0 found in
    guards_hold-Returns defn bindings state ctx (public_log t.log) t.guard
      (All-map _ _ t.guard (λ g h. require-passes (known_guard g.name) Refusal.unknown_guard h)
        (for_all-All (λ g. require (known_guard g.name) Refusal.unknown_guard) t.guard structured))
      (for_all-All (Authority.check_guard defn (public_log t.log)) t.guard
        (role-guards defn t (lookup t.by defn.roles) permitted))
