-- ===== src/Warden/Order.antt =====
-- The order in which a realm is concluded, whatever raises
-- (src/bearpit/warden/warden.py, `conclude`).
use bearpit.Base.{
  String, ◌≡◌, refl, Bool, true, false, not, ◌&&◌, ◌||◌, List, [], ◌∷◌, ◌++◌, if◌then◌else◌, any,
  arith,
}
use bearpit.Warden.Conclude.{
  Fired, Action, Env, Run, raises_at, must, attempt, record_outputs, reconcile, archive,
  after_teardown, lift_if_gated, waited, conclude,
}

abbrev pub is_teardown : Action → Bool
is_teardown Action.teardown = true
is_teardown _ = false

abbrev pub is_archived : Action → Bool
is_archived Action.note_archived = true
is_archived _ = false

-- No entry says that the realm is archived before its containers were to be stopped.
unfoldable pub teardown_first : List Action → Bool
teardown_first [] = true
teardown_first (a ∷ rest) = is_teardown a || not (is_archived a) && teardown_first rest

-- The containers were to be stopped.
abbrev pub torn : List Action → Bool
torn = any is_teardown

torn-append : (xs ys : List Action) → torn (xs ++ ys) ≡ (torn xs || torn ys)
torn-append [] ys = refl
torn-append (x ∷ xs) ys = ground (arith, torn-append xs ys)

first-append_torn :
    (xs ys : List Action)
    → torn xs ≡ true
    → teardown_first xs ≡ true
    → teardown_first (xs ++ ys) ≡ true
unfolding teardown_first
first-append_torn [] ys t h = cc
first-append_torn (x ∷ xs) ys t h = ground (arith, first-append_torn xs ys, t, h)

first-append_other :
    (xs : List Action) (a : Action)
    → is_archived a ≡ false
    → teardown_first xs ≡ true
    → teardown_first (xs ++ (a ∷ [])) ≡ true
unfolding teardown_first
first-append_other [] a n h = ground (arith, n)
first-append_other (x ∷ xs) a n h = ground (arith, first-append_other xs a n, h)

-- In order so far; and once the teardown was tried, in order whatever comes.
abbrev InOrder : Run → Type 0
InOrder run = teardown_first run.0 ≡ true

record Torn (run : Run) : Type 0 where
  in_order : InOrder run
  tried : run.1 ≡ true → torn run.0 ≡ true

module _ (env : Env) where
  must-InOrder :
      (a : Action) (run : Run) → is_archived a ≡ false → InOrder run → InOrder (must env a run)
  must-InOrder a (done, false) n h = h
  must-InOrder a (done, true) n h = first-append_other done a n h

  must-Torn : (a : Action) (run : Run) → Torn run → Torn (must env a run)
  must-Torn a (done, false) t = t
  must-Torn a (done, true) t = record {
    in_order = first-append_torn done (a ∷ []) (t.tried refl) t.in_order;
    tried = λ _. ground (arith, torn-append done (a ∷ []), t.tried refl);
  }

  attempt-Torn : (a : Action) (run : Run) → Torn run → Torn (attempt env a run)
  attempt-Torn a (done, false) t = t
  attempt-Torn a (done, true) t = record {
    in_order = first-append_torn done (a ∷ []) (t.tried refl) t.in_order;
    tried = λ _. ground (arith, torn-append done (a ∷ []), t.tried refl);
  }

  outputs-Torn : (os : List String) (run : Run) → Torn run → Torn (record_outputs env os run)
  outputs-Torn [] run t = t
  outputs-Torn (o ∷ os) run t = outputs-Torn os _ (attempt-Torn (Action.note_output o) run t)

  reconcile-Torn : (run : Run) → Torn run → Torn (reconcile env run)
  reconcile-Torn run t = by_test env.has_reconcile
    where
      by_test : (b : Bool) → Torn (if b then attempt env Action.reconcile_spend run else run)
      by_test true = attempt-Torn Action.reconcile_spend run t
      by_test false = t

  archive-Torn : (run : Run) → Torn run → Torn (archive env run)
  archive-Torn run t = must-Torn Action.write_report _ (must-Torn Action.note_archived run t)

  after-Torn : (b : Bool) (run : Run) → Torn run → Torn (after_teardown env b run)
  after-Torn true run t =
      archive-Torn _ (reconcile-Torn _ (must-Torn Action.note_teardown_error run t))
  after-Torn false run t = archive-Torn _ (outputs-Torn env.captured _ (reconcile-Torn run t))

  teardown-Torn : (run : Run) → InOrder run → Torn (attempt env Action.teardown run)
  teardown-Torn (done, false) h = record { in_order = h; tried = λ e. cc }
  teardown-Torn (done, true) h = record {
    in_order = first-append_other done Action.teardown refl h;
    tried = λ _. ground (arith, torn-append done (Action.teardown ∷ []));
  }

  lift_if_gated-InOrder : (run : Run) → InOrder run → InOrder (lift_if_gated env run)
  lift_if_gated-InOrder run h = by_test env.has_gate
    where
      by_test : (b : Bool) → InOrder (if b then must env Action.lift_gate run else run)
      by_test true = must-InOrder Action.lift_gate run refl h
      by_test false = h

  -- Whatever raises, a realm is never recorded as archived before the Warden tried to stop its
  -- containers.
  pub conclude-teardown_first :
      (fired : Fired) → teardown_first (conclude env fired ([], true)).0 ≡ true
  unfolding conclude teardown_first
  conclude-teardown_first fired =
      let noted = must env (Action.note_concluding fired) ([], true) in
      let told = must env (Action.announce fired) (lift_if_gated env noted) in
      let waiting = must-InOrder Action.wait_grace told refl (
        must-InOrder (Action.announce fired) (lift_if_gated env noted) refl (
          lift_if_gated-InOrder noted
            (must-InOrder (Action.note_concluding fired) ([], true) refl refl))) in
      (after-Torn (raises_at env (waited env fired ([], true)).0 Action.teardown) _
        (teardown-Torn (waited env fired ([], true)) waiting)).in_order
