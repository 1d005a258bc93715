-- ===== src/Machine/Pointer/Rotation.antt =====
-- What `advance_actor` picks, described without positions: the first eligible agent after the
-- current one, going once round the rotation.
use bearpit.Base.{
  ℕ, zero, suc, ◌+◌, ◌%◌, ◌≤◌, ◌<◌, String, ◌≡◌, refl, sym, ap, ◌∙◌, inl, inr, Bool, true, false,
  Option, none, some, List, [], ◌∷◌, ◌++◌, arith, ◌==◌, eq_iff, contains, length, get_elem?, take,
  drop, if◌then◌else◌, ◌||◌, Option-cases, length-append,
}
use mathlib.Core.Path.{fun_ext}
use native.Mathlib.Nat.{zero-add}
use mathlib.Core.List.{append-nil, append_assoc}
use bearpit.Base.Seq.{first, get_elem?-around, length-drop, length-take}
use bearpit.Machine.Decl.{MachineDef, PointerDef}
use bearpit.Machine.State.{Bindings, MachineState}
use bearpit.Machine.Pointer.{
  unskipped, eligible, rotation, index_of, start_of, next_from, next_actor, advance_to,
  advance_actor,
}

-- The agents behind `a`, then those up to and including `a`, on top of what was passed.
abbrev pub behind : String → List String → List String → List String
behind a [] passed = passed
behind a (x ∷ xs) passed =
    if a == x then xs ++ (passed ++ x ∷ []) else behind a xs (passed ++ x ∷ [])

-- The order in which the others come after the current actor.
abbrev pub turn_order : Option String → List String → List String
turn_order none order = order
turn_order (some a) order = behind a order []

-- The search by positions is the search of the list that it reads.
next_from-first :
    (ok : String → Bool) (order : List String) (start i : ℕ) (ys : List String)
    → ((j : ℕ)
        → j < length ys
        → get_elem? order ((start + (i + j)) % length order) ≡ get_elem? ys j)
    → next_from ok order start i (length ys) ≡ first ok ys
unfolding next_from
next_from-first ok order start i [] h = refl
next_from-first ok order start i (y ∷ ys) h =
    let here : get_elem? order ((start + i) % length order) ≡ some y =
      ap (λ (k : ℕ). get_elem? order ((start + k) % length order)) (omega arith)
      ∙ h 0 (omega arith) in
    let later = next_from-first ok order start (suc i) ys (λ j hj.
      ap (λ (k : ℕ). get_elem? order ((start + k) % length order)) (omega arith)
      ∙ h (suc j) (omega arith)) in
    ground (arith, here, later)

abbrev cut : ℕ → List String → List String
cut k xs = drop k xs ++ take k xs

length-cut : (k : ℕ) (xs : List String) → k ≤ length xs → length (cut k xs) ≡ length xs
length-cut k xs h =
    omega (arith, length-append (drop k xs) (take k xs), length-drop k xs, length-take k xs h)

index_of-lt : (a : String) (xs : List String) (i : ℕ) → index_of a xs ≡ some i → i < length xs
index_of-lt a [] i h = cc
index_of-lt a (x ∷ xs) zero h = omega arith
index_of-lt a (x ∷ xs) (suc i) h = ground (arith, index_of-lt a xs i)

start_of-le : (actor : Option String) (order : List String) → start_of actor order ≤ length order
unfolding start_of
start_of-le none order = omega arith
start_of-le (some a) order = elim (Option-cases (index_of a order)) [
  | inl e ↦ rw (e, start_of) (omega arith)
  | inr (i, e) ↦ rw (e, start_of) (index_of-lt a order i e)
]

behind-absent :
    (a : String) (xs passed : List String)
    → index_of a xs ≡ none
    → behind a xs passed ≡ passed ++ xs
behind-absent a [] passed h = simp append-nil
behind-absent a (x ∷ xs) passed h =
    ground (arith, behind-absent a xs (passed ++ x ∷ []), append_assoc passed (x ∷ []) xs)

behind-found :
    (a : String) (xs passed : List String) (i : ℕ)
    → index_of a xs ≡ some i
    → behind a xs passed ≡ drop (suc i) xs ++ (passed ++ take (suc i) xs)
behind-found a [] passed i h = cc
behind-found a (x ∷ xs) passed zero h = ground arith
behind-found a (x ∷ xs) passed (suc i) h =
    ground (
      arith,
      behind-found a xs (passed ++ x ∷ []) i,
      append_assoc passed (x ∷ []) (take (suc i) xs),
    )

turn_order-cut :
    (actor : Option String) (order : List String)
    → turn_order actor order ≡ cut (start_of actor order) order
unfolding start_of
turn_order-cut none order = simp append-nil
turn_order-cut (some a) order = elim (Option-cases (index_of a order)) [
  | inl e ↦ rw (e, start_of) (behind-absent a order [] e ∙ sym (append-nil order))
  | inr (i, e) ↦ rw (e, start_of) (behind-found a order [] i e)
]

next_actor-first :
    (p : PointerDef) (bindings : Bindings) (state : MachineState)
    → next_actor p bindings state
      ≡ first (unskipped p state) (turn_order state.actor (rotation p bindings))
unfolding next_actor
next_actor-first p bindings state =
    let order = rotation p bindings in
    let k = start_of state.actor order in
    let le = start_of-le state.actor order in
    let n = length-cut k order le in
    rw (turn_order-cut state.actor order) (
      ap (next_from (unskipped p state) order k 0) (sym n)
      ∙ next_from-first (unskipped p state) order k 0 (cut k order)
          (λ j hj. rw zero-add (get_elem?-around k order j le (omega (arith, n)))))

unskipped-eligible :
    (defn : MachineDef) (p : PointerDef) (state : MachineState)
    → defn.actor ≡ some p
    → unskipped p state ≡ eligible defn state
unfolding eligible
unskipped-eligible defn p state h = fun_ext (λ a. rw (h, eligible))

-- With a pointer declared, advance_actor gives it to the first eligible agent in the order that
-- follows the current actor round the rotation, or parks it at none; it stamps the time and leaves
-- the rest of the state alone.
pub advance_actor-first :
    (defn : MachineDef) (p : PointerDef) (bindings : Bindings) (state : MachineState) (now_ms : ℕ)
    → defn.actor ≡ some p
    → advance_actor defn bindings state now_ms ≡ record state {
      actor = first (eligible defn state) (turn_order state.actor (rotation p bindings));
      actor_since = now_ms;
    }
unfolding advance_actor
advance_actor-first defn p bindings state now_ms h =
    rw (← unskipped-eligible defn p state h, ← next_actor-first p bindings state)
      (ap (λ o. advance_to o bindings state now_ms) h)

contains-append :
    (a : String) (xs ys : List String) → contains a (xs ++ ys) ≡ (contains a xs || contains a ys)
contains-append a [] ys = refl
contains-append a (x ∷ xs) ys = ground (arith, contains-append a xs ys)

contains-behind :
    (c a : String) (xs passed : List String)
    → contains c (behind a xs passed) ≡ (contains c passed || contains c xs)
contains-behind c a [] passed = ground arith
contains-behind c a (x ∷ xs) passed = ground (
  arith,
  contains-append c xs (passed ++ x ∷ []),
  contains-append c passed (x ∷ []),
  contains-behind c a xs (passed ++ x ∷ []),
)

pub contains-turn_order :
    (c : String) (actor : Option String) (order : List String)
    → contains c (turn_order actor order) ≡ contains c order
contains-turn_order c none order = refl
contains-turn_order c (some a) order = contains-behind c a order []

first-chosen :
    (ok : String → Bool) (xs : List String) (c : String)
    → first ok xs ≡ some c
    → (ok c ≡ true) × (contains c xs ≡ true)
first-chosen ok [] c h = cc
first-chosen ok (x ∷ xs) c h = ground (arith, first-chosen ok xs c, eq_iff c x)

first-none :
    (ok : String → Bool) (xs : List String) (c : String)
    → first ok xs ≡ none
    → contains c xs ≡ true
    → ok c ≡ false
first-none ok [] c h m = cc
first-none ok (x ∷ xs) c h m = ground (arith, first-none ok xs c, eq_iff c x)

-- Whoever gets the pointer by rotation is in the rotation and eligible; and the pointer is parked
-- only when nobody in the rotation is eligible.
pub next_actor_sound :
    (defn : MachineDef) (p : PointerDef) (bindings : Bindings) (state : MachineState)
    → defn.actor ≡ some p
    → ((c : String)
        → next_actor p bindings state ≡ some c
        → (eligible defn state c ≡ true) × (contains c (rotation p bindings) ≡ true))
      × ((c : String)
          → next_actor p bindings state ≡ none
          → contains c (rotation p bindings) ≡ true
          → eligible defn state c ≡ false)
next_actor_sound defn p bindings state h =
    let order = rotation p bindings in
    let turns = turn_order state.actor order in
    let e = next_actor-first p bindings state in
    rw (← unskipped-eligible defn p state h) (
      (λ c found.
          let r = first-chosen (unskipped p state) turns c (sym e ∙ found) in
          (r.0, sym (contains-turn_order c state.actor order) ∙ r.1)),
      (λ c parked m.
          first-none (unskipped p state) turns c (sym e ∙ parked)
            (contains-turn_order c state.actor order ∙ m)),
    )
