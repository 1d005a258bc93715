-- ===== src/Machine/Recovery/Rounds.antt =====
-- The escrow that replay supplies, guard by guard (src/bearpit/realmtools/machine.py,
-- `_escrow_that_held`).
use bearpit.Base.{
  String, ◌≡◌, refl, ◌∙◌, ap, Bool, true, false, ◌||◌, none, some, List, [], ◌∷◌, ◌++◌, arith,
  eq_iff, ==_refl, contains, if◌then◌else◌,
}
use bearpit.Base.Dict.{Dict, lookup, insert, lookup-insert}
use bearpit.Base.StrSet.{StrSet, subset_refl}
use bearpit.Base.Outcome.{ok, >>=-eq-ok}
use bearpit.Value.{Value, null, dict, Fields, get_or_null, py_str}
use bearpit.Machine.Decl.{GuardName, Guard, fields_of}
use bearpit.Machine.State.{Bindings, MachineState, Ctx, required, minus_arg, expected, resolve}
use bearpit.Machine.Guards.{check_guard_name, check_guard, guards_hold}
use bearpit.Machine.Replay.{held_round, held_rounds}
use bearpit.Machine.Recovery.Escrow.{with_escrow, resolve-escrow}

-- No text twice.
abbrev pub Distinct : List String → Type 0
Distinct [] = Unit
Distinct (x ∷ xs) = (contains x xs ≡ false) × Distinct xs

module _ (caller : String) (args : Dict Value) (bindings : Bindings) (s : MachineState) where
  abbrev ctx : Dict StrSet → Ctx
  ctx e = with_escrow caller args bindings e

  abbrev round_id : Fields → String
  round_id a = py_str (resolve (get_or_null "round" a) (ctx []) s)

  -- The escrow rounds that a guard asks for.
  abbrev pub round_of : GuardName → Value → List String
  round_of GuardName.escrow_complete (dict a) = round_id a ∷ []
  round_of _ arg = []

  abbrev pub round_ids : List Guard → List String
  round_ids [] = []
  round_ids (g ∷ gs) = round_of g.name g.arg ++ round_ids gs

  -- What one guard that held adds to the escrow.
  record IsSupplied (name : GuardName) (arg : Value) (before : Dict StrSet) : Type 0 where
    after : Dict StrSet
    adds : held_round name arg bindings s (ctx []) before ≡ ok after
    others :
        (r : String) → contains r (round_of name arg) ≡ false → lookup r after ≡ lookup r before
    holds :
        (f : Dict StrSet)
        → ((r : String) → contains r (round_of name arg) ≡ true → lookup r f ≡ lookup r after)
        → check_guard_name name arg bindings s (ctx f) ≡ ok true

  round_held :
      (a : Fields) (e before : Dict StrSet)
      → check_guard_name GuardName.escrow_complete (dict a) bindings s (ctx e) ≡ ok true
      → IsSupplied GuardName.escrow_complete (dict a) before
  unfolding check_guard_name
  round_held a e before h =
      let (over, eo, h1) = >>=-eq-ok (required "over" a) _ h in
      let (members, em, h2) = >>=-eq-ok (expected bindings s over (minus_arg a)) _ h1 in
      let rid = round_id a in
      let after = insert rid members before in
      record {
        after = after;
        adds = simp (eo, em);
        others = λ r n.
            ground (arith, n, lookup-insert rid r members before, eq_iff rid r, eq_iff r rid);
        holds = λ f agree.
            let same : py_str (resolve (get_or_null "round" a) (ctx f) s) ≡ rid =
              ap py_str (resolve-escrow caller args bindings (get_or_null "round" a) s f []) in
            let found : lookup rid f ≡ some members =
              agree rid (ground (arith, ==_refl rid))
              ∙ lookup-insert rid rid members before
              ∙ ground (arith, ==_refl rid) in
            simp (eo, em) (rw (same, found, subset_refl members));
      }

  guard_held :
      (name : GuardName) (arg : Value) (e before : Dict StrSet)
      → check_guard_name name arg bindings s (ctx e) ≡ ok true
      → IsSupplied name arg before
  unfolding check_guard_name
  guard_held GuardName.escrow_complete (dict a) e before h = round_held a e before h
  guard_held GuardName.escrow_complete null e before h = cc
  guard_held GuardName.escrow_complete _ e before h = cc
  guard_held GuardName.data_equals arg e before h = record {
    after = before;
    adds = refl;
    others = λ r n. refl;
    holds = λ f agree.
        rw (resolve-escrow caller args bindings (get_or_null "value" (fields_of arg)) s f e) h;
  }
  guard_held _ arg e before h = record {
    after = before;
    adds = refl;
    others = λ r n. refl;
    holds = λ f agree. h;
  }

  -- The guards of a list hold under an escrow that keeps what was supplied for them.
  pub record AllHeld (gs : List Guard) (before : Dict StrSet) : Type 0 where
    pub after : Dict StrSet
    pub adds : held_rounds gs bindings s (ctx []) before ≡ ok after
    pub others : (r : String) → contains r (round_ids gs) ≡ false → lookup r after ≡ lookup r before
    pub holds :
        (f : Dict StrSet)
        → ((r : String) → contains r (round_ids gs) ≡ true → lookup r f ≡ lookup r after)
        → guards_hold gs bindings s (ctx f) ≡ ok none

  contains-append :
      (a : String) (xs ys : List String) → contains a (xs ++ ys) ≡ (contains a xs || contains a ys)
  contains-append a [] ys = refl
  contains-append a (x ∷ xs) ys = ground (arith, contains-append a xs ys)

  -- Rounds of the first part are none of the second.
  Distinct-apart :
      (xs ys : List String) (r : String)
      → Distinct (xs ++ ys)
      → contains r xs ≡ true
      → contains r ys ≡ false
  Distinct-apart [] ys r d m = cc
  Distinct-apart (x ∷ xs) ys r d m =
      ground (arith, m, d.0, eq_iff r x, contains-append x xs ys, Distinct-apart xs ys r d.1)

  Distinct-right : (xs ys : List String) → Distinct (xs ++ ys) → Distinct ys
  Distinct-right [] ys d = d
  Distinct-right (x ∷ xs) ys d = Distinct-right xs ys d.1

  -- A guard that did not fail held.
  first-held :
      (g : Guard) (gs : List Guard) (e : Dict StrSet)
      → guards_hold (g ∷ gs) bindings s (ctx e) ≡ ok none
      → (check_guard_name g.name g.arg bindings s (ctx e) ≡ ok true)
        × (guards_hold gs bindings s (ctx e) ≡ ok none)
  unfolding guards_hold check_guard
  first-held g gs e h =
      let (held, eh, rest) = >>=-eq-ok (check_guard_name g.name g.arg bindings s (ctx e)) _ h in
      split held eh rest
    where
      split :
          (b : Bool)
          → check_guard_name g.name g.arg bindings s (ctx e) ≡ ok b
          → (if b then guards_hold gs bindings s (ctx e) else ok (some g.name)) ≡ ok none
          → (check_guard_name g.name g.arg bindings s (ctx e) ≡ ok true)
            × (guards_hold gs bindings s (ctx e) ≡ ok none)
      split true eb r = (eb, r)
      split false eb r = cc

  both-hold :
      (g : Guard) (gs : List Guard) (f : Dict StrSet)
      → check_guard_name g.name g.arg bindings s (ctx f) ≡ ok true
      → guards_hold gs bindings s (ctx f) ≡ ok none
      → guards_hold (g ∷ gs) bindings s (ctx f) ≡ ok none
  unfolding guards_hold check_guard
  both-hold g gs f h hs = simp h hs

  pub guards_held :
      (gs : List Guard) (e before : Dict StrSet)
      → guards_hold gs bindings s (ctx e) ≡ ok none
      → Distinct (round_ids gs)
      → AllHeld gs before
  unfolding held_rounds
  guards_held [] e before h d = record {
    after = before;
    adds = refl;
    others = λ r n. refl;
    holds = λ f agree. unfold guards_hold in refl;
  }
  guards_held (g ∷ gs) e before h d =
      let mine = round_of g.name g.arg in
      let (h0, h1) = first-held g gs e h in
      let one = guard_held g.name g.arg e before h0 in
      let rest = guards_held gs e one.after h1 (Distinct-right mine (round_ids gs) d) in
      record {
        after = rest.after;
        adds = simp one.adds rest.adds;
        others = λ r n.
            rest.others r (ground (arith, n, contains-append r mine (round_ids gs)))
            ∙ one.others r (ground (arith, n, contains-append r mine (round_ids gs)));
        holds = λ f agree.
            both-hold g gs f
              (one.holds f (λ r m.
                agree r (ground (arith, m, contains-append r mine (round_ids gs)))
                ∙ rest.others r (Distinct-apart mine (round_ids gs) r d m)))
              (rest.holds f
                (λ r m. agree r (ground (arith, m, contains-append r mine (round_ids gs)))));
      }
