-- ===== src/Machine/Pointer.antt =====
-- The pointer (src/bearpit/realmtools/machine.py): who may have it, and how it moves.
pub mod Rotation
use bearpit.Base.{
  ℕ, zero, suc, ◌+◌, ◌%◌, String, Bool, true, false, not, Option, none, some, List, [], ◌∷◌, ◌==◌,
  contains, any, select, length, get_elem?, is_empty, if◌then◌else◌,
}
use bearpit.Base.StrSet.{of_list}
use bearpit.Value.{Value, str}
use bearpit.Machine.Decl.{MachineDef, PointerDef}
use bearpit.Machine.State.{Bindings, MachineState, set_of, members_of}

-- In none of the skip sets of the pointer.
abbrev pub unskipped : PointerDef → MachineState → String → Bool
unskipped p state agent = not (any (λ s. contains agent (set_of state s)) p.skip)

unfoldable pub eligible : MachineDef → MachineState → String → Bool
eligible defn state agent = elim defn.actor [ none ↦ false | some p ↦ unskipped p state agent ]

-- `_rotation`: the roster, without those outside the pointer's role.
unfoldable pub rotation : PointerDef → Bindings → List String
rotation p bindings =
    select (λ a. contains a (of_list (members_of bindings p.over))) bindings.roster

-- `order.index(a)`
abbrev pub index_of : String → List String → Option ℕ
index_of a [] = none
index_of a (x ∷ xs) =
    if a == x then some 0 else elim (index_of a xs) [ none ↦ none | some i ↦ some (suc i) ]

-- `order.index(actor) + 1 if actor in order else 0`
unfoldable pub start_of : Option String → List String → ℕ
start_of none order = 0
start_of (some a) order = elim (index_of a order) [ none ↦ 0 | some i ↦ suc i ]

-- `for i in range(len(order))`, with the rounds that are left.
unfoldable pub next_from : (String → Bool) → List String → ℕ → ℕ → ℕ → Option String
next_from ok order start i zero = none
next_from ok order start i (suc left) = elim (get_elem? order ((start + i) % length order)) [
  | none ↦ next_from ok order start (suc i) left
  | some cand ↦ elim (ok cand) [ true ↦ some cand | false ↦ next_from ok order start (suc i) left ]
]

-- The actor after the current one.
unfoldable pub next_actor : PointerDef → Bindings → MachineState → Option String
unfolding rotation start_of next_from
next_actor p bindings state =
    let order = rotation p bindings in
    next_from (unskipped p state) order (start_of state.actor order) 0 (length order)

abbrev pub advance_to : Option PointerDef → Bindings → MachineState → ℕ → MachineState
advance_to none bindings state now_ms = state
advance_to (some p) bindings state now_ms = record state {
  actor = next_actor p bindings state;
  actor_since = now_ms;
}

unfoldable pub advance_actor : MachineDef → Bindings → MachineState → ℕ → MachineState
unfolding next_actor
advance_actor defn bindings state now_ms = advance_to defn.actor bindings state now_ms

-- Why a value may not be put where an agent belongs.
pub data Reason : Type 0 where
  no_pointer : Reason
  not_member : Value → Option String → Reason
  skipped : String → String → Reason

pub data Step : Type 0 where
  refused : Reason → Step
  stepped : MachineState → Step

-- The first skip set that holds the agent.
abbrev pub first_skip : MachineState → String → List String → Option String
first_skip state who [] = none
first_skip state who (s ∷ ss) =
    if contains who (set_of state s) then some s else first_skip state who ss

abbrev pub place : MachineState → Option String → ℕ → Step
place state who now_ms = stepped (record state { actor = who; actor_since = now_ms })

abbrev pub place_unskipped : MachineState → String → Option String → ℕ → Step
place_unskipped state who (some s) now_ms = refused (Reason.skipped who s)
place_unskipped state who none now_ms = place state (some who) now_ms

abbrev pub set_actor_to : Option PointerDef → Bindings → MachineState → Option String → ℕ → Step
set_actor_to none bindings state who now_ms = refused Reason.no_pointer
set_actor_to (some p) bindings state none now_ms = place state none now_ms
set_actor_to (some p) bindings state (some who) now_ms =
    if contains who (members_of bindings p.over)
    then place_unskipped state who (first_skip state who p.skip) now_ms
    else refused (Reason.not_member (str who) (some p.over))

unfoldable pub set_actor : MachineDef → Bindings → MachineState → Option String → ℕ → Step
set_actor defn bindings state who now_ms = set_actor_to defn.actor bindings state who now_ms
