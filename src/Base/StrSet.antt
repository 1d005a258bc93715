-- ===== src/Base/StrSet.antt =====
-- A Python `set[str]` as a list of texts; the operations keep it free of duplicates.
use Prim.Native.String.{String}
use mathlib.Core.Path.{◌≡◌, refl}
use mathlib.Core.Bool.{Bool, true, not, ◌&&◌, ◌||◌}
use mathlib.Core.List.{List, [], ◌∷◌}
use native.Mathlib.Omega.{arith}
use text.Mathlib.Text.{◌==◌}
use text.Mathlib.TextEquality.{eq_iff}
use bearpit.Base.Tests.{if◌then◌else◌}
use bearpit.Base.Text.{str_leb, ==_refl}
use bearpit.Base.Lists.{contains, all, select}

abbrev pub StrSet : Type 0
StrSet = List String

-- `s.add(a)`
abbrev pub add : String → StrSet → StrSet
add a s = if contains a s then s else a ∷ s

-- `s.discard(a)`
abbrev pub discard : String → StrSet → StrSet
discard a [] = []
discard a (x ∷ s) = if a == x then discard a s else x ∷ discard a s

-- `set(xs)`
abbrev pub of_list : List String → StrSet
of_list [] = []
of_list (x ∷ xs) = add x (of_list xs)

-- `s - t`
abbrev pub minus : StrSet → StrSet → StrSet
minus s t = select (λ a. not (contains a t)) s

-- `s | t`
abbrev pub union : StrSet → StrSet → StrSet
union [] t = t
union (a ∷ s) t = add a (union s t)

-- `s <= t`
abbrev pub subset : StrSet → StrSet → Bool
subset s t = all (λ a. contains a t) s

-- `sorted(s)`
abbrev pub insert_sorted : String → List String → List String
insert_sorted a [] = a ∷ []
insert_sorted a (x ∷ xs) = if str_leb a x then a ∷ x ∷ xs else x ∷ insert_sorted a xs

abbrev pub sorted : List String → List String
sorted [] = []
sorted (x ∷ xs) = insert_sorted x (sorted xs)

pub contains-add : (a b : String) (s : StrSet) → contains a (add b s) ≡ (a == b || contains a s)
contains-add a b s = ground (arith, eq_iff a b)

pub contains-discard :
    (a b : String) (s : StrSet) → contains a (discard b s) ≡ (not (b == a) && contains a s)
contains-discard a b [] = ground arith
contains-discard a b (x ∷ s) =
    ground (arith, eq_iff a x, eq_iff b x, eq_iff b a, contains-discard a b s)

pub contains-of_list : (a : String) (xs : List String) → contains a (of_list xs) ≡ contains a xs
contains-of_list a [] = refl
contains-of_list a (x ∷ xs) =
    ground (arith, eq_iff a x, contains-add a x (of_list xs), contains-of_list a xs)

pub contains-minus :
    (a : String) (s t : StrSet) → contains a (minus s t) ≡ (contains a s && not (contains a t))
contains-minus a [] t = refl
contains-minus a (x ∷ s) t = ground (arith, eq_iff a x, contains-minus a s t)

pub contains-union :
    (a : String) (s t : StrSet) → contains a (union s t) ≡ (contains a s || contains a t)
contains-union a [] t = refl
contains-union a (x ∷ s) t = ground (arith, contains-add a x (union s t), contains-union a s t)

-- A set lies inside another as soon as each of its members does, which includes itself.
pub subset_of :
    (s t : StrSet) → ((a : String) → contains a s ≡ true → contains a t ≡ true) → subset s t ≡ true
subset_of [] t h = refl
subset_of (x ∷ s) t h =
    ground (arith, h x, ==_refl x, subset_of s t (λ a m. h a (ground (arith, m))))

pub subset_refl : (s : StrSet) → subset s s ≡ true
subset_refl s = subset_of s s (λ a m. m)
