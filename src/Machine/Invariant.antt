-- ===== src/Machine/Invariant.antt =====
-- Well-formed states of a machine (src/bearpit/realmtools/machine.py, `MachineState`), with lemmas
-- on the single changes of a state.
use bearpit.Base.{
  ℕ, String, ◌≡◌, refl, sym, ◌∙◌, ap, Bool, true, false, Option, none, some, List, [], ◌∷◌, arith,
  eq_iff, contains, select, if◌then◌else◌, or_else,
}
use mathlib.Core.Path.{subst}
use bearpit.Base.Dict.{lookup, insert, lookup-insert}
use bearpit.Base.StrSet.{StrSet, of_list, contains-of_list}
use bearpit.Value.{str}
use bearpit.Machine.Decl.{MachineDef, PointerDef}
use bearpit.Machine.State.{Bindings, MachineState, set_of, members_of}
use bearpit.Machine.Pointer.{
  Reason, Step, refused, stepped, advance_to, set_actor_to, place_unskipped, rotation, next_actor,
  first_skip,
}
use bearpit.Machine.Pointer.Rotation.{next_actor_sound}
use bearpit.Machine.Effects.{pool}

-- The pointer is declared and the agent is in its role.
abbrev pub Seated : MachineDef → Bindings → String → Type 0
Seated defn bindings a =
    (p : PointerDef) × (defn.actor ≡ some p) × (contains a (members_of bindings p.over) ≡ true)

pub record IsWellFormed (defn : MachineDef) (bindings : Bindings) (s : MachineState) : Type 0 where
  pub in_states : contains s.state defn.states ≡ true
  pub seated : (a : String) → s.actor ≡ some a → Seated defn bindings a
  pub marked :
      (k a : String) → contains a (set_of s k) ≡ true → contains a (pool defn bindings) ≡ true

-- What is asked of the answer of an effect.
abbrev pub StepKeeps : (MachineState → Type 0) → Step → Type 0
StepKeeps P (refused r) = Unit
StepKeeps P (stepped s) = P s

contains-select :
    (p : String → Bool) (a : String) (xs : List String)
    → contains a (select p xs) ≡ true
    → p a ≡ true
contains-select p a [] h = cc
contains-select p a (x ∷ xs) h = ground (arith, eq_iff a x, contains-select p a xs)

rotation-member :
    (p : PointerDef) (bindings : Bindings) (a : String)
    → contains a (rotation p bindings) ≡ true
    → contains a (members_of bindings p.over) ≡ true
unfolding rotation
rotation-member p bindings a h =
    let members = members_of bindings p.over in
    sym (contains-of_list a members)
    ∙ contains-select (λ b. contains b (of_list members)) a bindings.roster h

module _ (defn : MachineDef) (bindings : Bindings) where
  abbrev pub Good : MachineState → Type 0
  Good = IsWellFormed defn bindings

  -- The pointer given to somebody of its role, or to nobody.
  pub place-Good :
      (s : MachineState) (who : Option String) (now : ℕ)
      → Good s
      → ((a : String) → who ≡ some a → Seated defn bindings a)
      → Good (record s { actor = who; actor_since = now })
  place-Good s who now g h = record { in_states = g.in_states; seated = h; marked = g.marked }

  pub advance_to-Good :
      (o : Option PointerDef) (s : MachineState) (now : ℕ)
      → defn.actor ≡ o
      → Good s
      → Good (advance_to o bindings s now)
  advance_to-Good none s now e g = g
  advance_to-Good (some p) s now e g = place-Good s (next_actor p bindings s) now g λ a found.
      (p, e, rotation-member p bindings a ((next_actor_sound defn p bindings s e).0 a found).1)

  pub set_actor_to-Good :
      (o : Option PointerDef) (s : MachineState) (who : Option String) (now : ℕ)
      → defn.actor ≡ o
      → Good s
      → StepKeeps Good (set_actor_to o bindings s who now)
  set_actor_to-Good none s who now e g = tt
  set_actor_to-Good (some p) s none now e g = place-Good s none now g (λ a h. cc)
  set_actor_to-Good (some p) s (some who) now e g =
      named (contains who (members_of bindings p.over)) refl (first_skip s who p.skip)
    where
      named :
          (b : Bool)
          → contains who (members_of bindings p.over) ≡ b
          → (o : Option String)
          → StepKeeps Good (
              if b
              then place_unskipped s who o now
              else refused (Reason.not_member (str who) (some p.over)))
      named false m o = tt
      named true m (some k) = tt
      named true m none = place-Good s (some who) now g (λ a h.
          (p, e, subst (λ o. contains (or_else o a) (members_of bindings p.over) ≡ true) h m))

  -- A set changed at one key.
  pub sets-Good :
      (s : MachineState) (key : String) (new : StrSet)
      → Good s
      → ((a : String) → contains a new ≡ true → contains a (pool defn bindings) ≡ true)
      → Good (record s { sets = insert key new s.sets })
  sets-Good s key new g h = record {
    in_states = g.in_states;
    seated = g.seated;
    marked = λ k a m. ground (arith, h a, g.marked k a, m, lookup-insert key k new s.sets);
  }

  -- Changes elsewhere do not matter.
  pub same-Good :
      (s t : MachineState)
      → t.state ≡ s.state
      → t.actor ≡ s.actor
      → t.sets ≡ s.sets
      → Good s
      → Good t
  same-Good s t e f h g = record {
    in_states = ap (λ x. contains x defn.states) e ∙ g.in_states;
    seated = λ a x. g.seated a (sym f ∙ x);
    marked = λ k a x. g.marked k a (subst (λ d. contains a (or_else (lookup k d) []) ≡ true) h x);
  }
