-- ===== src/Base/Seq.antt =====
-- Positions in a list that is cut in two and put together the other way round.
use Prim.Native.Nat.{ℕ, zero, suc, ◌+◌, ◌-◌, ◌%◌, ◌≤◌, ◌<◌}
use mathlib.Core.Path.{◌≡◌, refl, sym, ap, ◌∙◌}
use mathlib.Core.Bool.{Bool}
use mathlib.Core.Option.{Option, none, some}
use mathlib.Core.List.{List, [], ◌∷◌, ◌++◌}
use native.Mathlib.Omega.{arith}
use native.Mathlib.Nat.{mod-eq_of_lt, mod-eq-sub-mod}
use native.Mathlib.Decide.{dec_lt}
use bearpit.Base.Tests.{if◌then◌else◌}
use bearpit.Base.Lists.{length, get_elem?, take, drop}

module _ {ℓ} {A : Type ℓ} where
  -- The first element that passes a test.
  abbrev pub first : (A → Bool) → List A → Option A
  first p [] = none
  first p (x ∷ xs) = if p x then some x else first p xs

  pub get_elem?-drop :
      (k : ℕ) (xs : List A) (i : ℕ) → get_elem? (drop k xs) i ≡ get_elem? xs (k + i)
  get_elem?-drop zero xs i = ground arith
  get_elem?-drop (suc k) [] i = refl
  get_elem?-drop (suc k) (x ∷ xs) i = ground (arith, get_elem?-drop k xs i)

  pub get_elem?-take :
      (k : ℕ) (xs : List A) (i : ℕ) → i < k → get_elem? (take k xs) i ≡ get_elem? xs i
  get_elem?-take zero xs i h = absurd (omega arith)
  get_elem?-take (suc k) [] i h = refl
  get_elem?-take (suc k) (x ∷ xs) zero h = refl
  get_elem?-take (suc k) (x ∷ xs) (suc i) h = get_elem?-take k xs i (omega arith)

  pub get_elem?-append_left :
      (xs ys : List A) (i : ℕ) → i < length xs → get_elem? (xs ++ ys) i ≡ get_elem? xs i
  get_elem?-append_left [] ys i h = absurd (omega arith)
  get_elem?-append_left (x ∷ xs) ys zero h = refl
  get_elem?-append_left (x ∷ xs) ys (suc i) h = get_elem?-append_left xs ys i (omega arith)

  pub get_elem?-append_right :
      (xs ys : List A) (i : ℕ) → get_elem? (xs ++ ys) (length xs + i) ≡ get_elem? ys i
  get_elem?-append_right [] ys i = ground arith
  get_elem?-append_right (x ∷ xs) ys i = ground (arith, get_elem?-append_right xs ys i)

  pub length-drop : (k : ℕ) (xs : List A) → length (drop k xs) ≡ length xs - k
  length-drop zero xs = omega arith
  length-drop (suc k) [] = omega arith
  length-drop (suc k) (x ∷ xs) = omega (arith, length-drop k xs)

  pub length-take : (k : ℕ) (xs : List A) → k ≤ length xs → length (take k xs) ≡ k
  length-take zero xs h = refl
  length-take (suc k) [] h = absurd (omega arith)
  length-take (suc k) (x ∷ xs) h = omega (arith, length-take k xs)

  -- Counting on from `k` around the end of the list reads the list from its position `k`.
  pub get_elem?-around :
      (k : ℕ) (xs : List A) (i : ℕ)
      → k ≤ length xs
      → i < length xs
      → get_elem? xs ((k + i) % length xs) ≡ get_elem? (drop k xs ++ take k xs) i
  get_elem?-around k xs i hk hi = elim (dec_lt (k + i) (length xs)) [
    | yes p ↦ rw (mod-eq_of_lt p) (
        rw (get_elem?-append_left (drop k xs) (take k xs) i (omega (arith, length-drop k xs)))
          (sym (get_elem?-drop k xs i)))
    | no p ↦
        let j = k + i - length xs in
        let e : (k + i) % length xs ≡ j =
          mod-eq-sub-mod (omega arith) ∙ mod-eq_of_lt (omega arith) in
        let split : i ≡ length (drop k xs) + j = omega (arith, length-drop k xs) in
        rw e (
          sym (
            ap (get_elem? (drop k xs ++ take k xs)) split
            ∙ get_elem?-append_right (drop k xs) (take k xs) j
            ∙ get_elem?-take k xs j (omega arith)))
  ]
