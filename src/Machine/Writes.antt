-- ===== src/Machine/Writes.antt =====
-- The gates of a write and its parts, read off a granted one, and its replay
-- (src/bearpit/realmtools/machine.py, `set_value`).
use bearpit.Base.{
  String, ◌≡◌, refl, sym, ◌∙◌, ap, Bool, true, false, not, ◌&&◌, Option, none, some, List, [],
  if◌then◌else◌, is_some, ℕ,
}
use mathlib.Core.Path.{subst}
use bearpit.Base.Dict.{lookup}
use bearpit.Base.Outcome.{Py, ok, >>=-eq-ok, value_of}
use bearpit.Machine.Decl.{MachineDef, DataDef, is_set_type}
use bearpit.Machine.State.{Bindings, MachineState, is_owner, is_referee}
use bearpit.Machine.Pointer.{Reason}
use bearpit.Machine.Rows.{Outcome, Answer, outcome}
use bearpit.Machine.Act.{
  SetCall, compute_wakes, written, set_payload, owner_reason, store, store_unless, set_declared,
  set_value,
}
use bearpit.Machine.Replay.{reached, replay_step}
use bearpit.Machine.Validate.{passes}
use bearpit.Machine.Authority.{validate}
use bearpit.Machine.Wakes.{KnownWakes, compute_wakes-Returns}

module _ (defn : MachineDef) (bindings : Bindings) (s : MachineState) (c : SetCall) where
  -- The checks that came before the outcome, in their order, and its parts.
  pub record SetPassed (o : Outcome) : Type 0 where
    pub d : DataDef
    pub by_referee : is_referee defn bindings c.caller ≡ true
    pub declared : lookup c.key defn.data_defs ≡ some d
    pub no_set : is_set_type d.type ≡ false
    pub owner_given : is_owner d.visibility && not (is_some c.owner) ≡ false
    pub owner_asked : not (is_owner d.visibility) && is_some c.owner ≡ false
    pub owner_known : owner_reason defn bindings c.owner ≡ ok none
    pub wakes : List String × List String
    pub woken : compute_wakes defn bindings s (written c.key c.value c.owner s) c.escrow ≡ ok wakes
    pub result :
        o ≡ record { state = written c.key c.value c.owner s; payload = set_payload c d wakes }

  if-parts :
      (b : Bool) (m : Py Answer) {r : Py Answer} (o : Outcome)
      → (if b then r else m) ≡ ok (outcome o)
      → ((r ≡ ok (outcome o)) → ⊥)
      → (b ≡ false) × (m ≡ ok (outcome o))
  if-parts false m o h no_r = (refl, h)
  if-parts true m o h no_r = absurd (no_r h)

  outcome-injective :
      (o p : Outcome) → ◌≡◌ {A = Py Answer} (ok (outcome o)) (ok (outcome p)) → o ≡ p
  outcome-injective o p h = cc

  store_unless-parts :
      (d : DataDef) (bad : Option Reason) (o : Outcome)
      → store_unless defn bindings s c d bad ≡ ok (outcome o)
      → (bad ≡ none)
        × ((wakes : List String × List String) × (compute_wakes defn bindings s
                (written c.key c.value c.owner s)
                c.escrow
              ≡ ok wakes)
            × (o ≡ record {
              state = written c.key c.value c.owner s;
              payload = set_payload c d wakes;
            }))
  unfolding store
  store_unless-parts d (some r) o h = cc
  store_unless-parts d none o h =
      let (wakes, e, r) =
        >>=-eq-ok (compute_wakes defn bindings s (written c.key c.value c.owner s) c.escrow) _ h in
      (refl, (wakes, e, sym (outcome-injective _ o r)))

  not-false : (b : Bool) → not b ≡ false → b ≡ true
  not-false true h = refl
  not-false false h = cc

  set_declared-parts :
      (od : Option DataDef) (o : Outcome)
      → is_referee defn bindings c.caller ≡ true
      → lookup c.key defn.data_defs ≡ od
      → set_declared defn bindings s c od ≡ ok (outcome o)
      → SetPassed o
  set_declared-parts none o r e h = cc
  set_declared-parts (some d) o r e h =
      let (a, h1) = if-parts (is_set_type d.type) _ o h (λ x. cc) in
      let (b, h2) = if-parts (is_owner d.visibility && not (is_some c.owner)) _ o h1 (λ x. cc) in
      let (g, h3) = if-parts (not (is_owner d.visibility) && is_some c.owner) _ o h2 (λ x. cc) in
      let (bad, eb, h4) = >>=-eq-ok (owner_reason defn bindings c.owner) _ h3 in
      let (n, (wakes, ew, res)) = store_unless-parts d bad o h4 in
      record {
        d = d;
        by_referee = r;
        declared = e;
        no_set = a;
        owner_given = b;
        owner_asked = g;
        owner_known = eb ∙ ap ok n;
        wakes = wakes;
        woken = ew;
        result = res;
      }

  -- A write is granted only to a referee, of a declared key that is no set, with an owner exactly
  -- where the key has owners, and a known one; it changes what the write says, and the event row
  -- records the call.
  pub set_value_granted : (o : Outcome) → set_value defn bindings s c ≡ ok (outcome o) → SetPassed o
  unfolding set_value
  set_value_granted o h =
      let (r, h1) = if-parts (not (is_referee defn bindings c.caller)) _ o h (λ x. cc) in
      set_declared-parts (lookup c.key defn.data_defs) o (not-false _ r) refl h1

  -- In a machine that passed the launch checks, with known guards in its wake rules, replaying the
  -- event row of a granted write gives the state that the write gave.
  pub replay_step-set :
      (o : Outcome) (ts : ℕ)
      → validate defn ≡ passes
      → KnownWakes defn
      → set_value defn bindings s c ≡ ok (outcome o)
      → replay_step defn bindings ts o.payload s ≡ reached o.state
  unfolding replay_step set_value store
  replay_step-set o ts valid known h =
      let g = set_value_granted o h in
      let again =
        compute_wakes-Returns defn bindings s (written c.key c.value c.owner s) [] valid known in
      let (wakes, ew) =
        value_of (compute_wakes defn bindings s (written c.key c.value c.owner s) []) again in
      subst (λ (x : Outcome). replay_step defn bindings ts x.payload s ≡ reached x.state)
        (sym g.result)
        (simp (g.by_referee, g.declared, g.no_set, g.owner_given, g.owner_asked, g.owner_known, ew))
