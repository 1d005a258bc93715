-- ===== src/Base/Dict.antt =====
-- A Python dict with text keys, in insertion order.
use Prim.Native.String.{String}
use mathlib.Core.Path.{◌≡◌, refl}
use mathlib.Core.Bool.{Bool, true, false}
use mathlib.Core.Option.{Option, none, some}
use mathlib.Core.List.{List, [], ◌∷◌}
use native.Mathlib.Omega.{arith}
use text.Mathlib.Text.{◌==◌}
use text.Mathlib.TextEquality.{eq_iff}
use bearpit.Base.Tests.{if◌then◌else◌, is_some}

abbrev pub Dict {ℓ} : Type ℓ → Type ℓ
Dict V = List (String × V)

module _ {ℓ} {V : Type ℓ} where
  -- `d.get(k)`
  abbrev pub lookup : String → Dict V → Option V
  lookup k [] = none
  lookup k ((j, v) ∷ d) = if j == k then some v else lookup k d

  -- `k in d`
  abbrev pub has_key : String → Dict V → Bool
  has_key k d = is_some (lookup k d)

  -- `d[k] = v`
  abbrev pub insert : String → V → Dict V → Dict V
  insert k v [] = (k, v) ∷ []
  insert k v ((j, w) ∷ d) = if j == k then (j, v) ∷ d else (j, w) ∷ insert k v d

  -- `d.pop(k, None)`. Every entry of the key goes, so it is gone from any list.
  abbrev pub erase : String → Dict V → Dict V
  erase k [] = []
  erase k ((j, w) ∷ d) = if j == k then erase k d else (j, w) ∷ erase k d

  abbrev pub keys : Dict V → List String
  keys [] = []
  keys ((j, w) ∷ d) = j ∷ keys d

module _ {ℓ} {V : Type ℓ} where
  pub lookup-insert :
      (k j : String) (v : V) (d : Dict V)
      → lookup j (insert k v d) ≡ (if k == j then some v else lookup j d)
  lookup-insert k j v [] = refl
  lookup-insert k j v ((i, w) ∷ d) =
      ground (arith, eq_iff k j, eq_iff i k, eq_iff i j, lookup-insert k j v d)

  pub lookup-erase :
      (k j : String) (d : Dict V) → lookup j (erase k d) ≡ (if k == j then none else lookup j d)
  lookup-erase k j [] = ground arith
  lookup-erase k j ((i, w) ∷ d) =
      ground (arith, eq_iff k j, eq_iff i k, eq_iff i j, lookup-erase k j d)

module _ {ℓ} {V : Type ℓ} where
  -- Each key stands once, as in any dict.
  abbrev pub UniqueKeys : Dict V → Type 0
  UniqueKeys [] = Unit
  UniqueKeys ((k, v) ∷ d) = (has_key k d ≡ false) × UniqueKeys d

  absent :
      (k j : String) (v : V) (d : Dict V)
      → has_key k d ≡ false
      → lookup j d ≡ some v
      → (k == j) ≡ false
  absent k j v [] h m = cc
  absent k j v ((i, w) ∷ d) h m = ground (arith, eq_iff k j, eq_iff i k, eq_iff i j, absent k j v d)

  -- Under a key that the rest of the dict has, a first entry is not found.
  pub lookup-rest :
      (k j : String) (w v : V) (d : Dict V)
      → has_key k d ≡ false
      → lookup j d ≡ some v
      → lookup j ((k, w) ∷ d) ≡ some v
  lookup-rest k j w v d h m = ground (arith, absent k j v d h m, m)

  pub insert-UniqueKeys :
      (k : String) (v : V) (d : Dict V) → UniqueKeys d → UniqueKeys (insert k v d)
  insert-UniqueKeys k v [] u = (refl, tt)
  insert-UniqueKeys k v ((j, w) ∷ d) u = by_test (insert-UniqueKeys k v d u.1) (j == k) refl
    where
      by_test :
          UniqueKeys (insert k v d)
          → (b : Bool) → (j == k) ≡ b
          → UniqueKeys (if b then (j, v) ∷ d else (j, w) ∷ insert k v d)
      by_test rest true e = u
      by_test rest false e =
          (ground (arith, lookup-insert k j v d, e, eq_iff j k, eq_iff k j, u.0), rest)
