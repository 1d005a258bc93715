-- ===== src/Tokens/Split.antt =====
-- Splitting a text that was joined (src/bearpit/realmtools/tokens.py, `join` and `split`).
use bearpit.Base.{
  ℕ, String, ◌≡◌, refl, ap, ◌∙◌, Bool, true, false, not, ◌&&◌, List, [], ◌∷◌, Option, none,
  if◌then◌else◌, ◌+++◌, All, arith,
}
use text.Mathlib.TextLemmas.{cons-append, nil-append}
use Prim.Native.Char.{Char}
use bearpit.Tokens.Mint.{same_char, join, onto_first, may_cut, one_less, split}

-- The character does not occur.
abbrev pub free_of : Char → String → Bool
free_of c String.[] = true
free_of c (String.◌∷◌ d s) = not (same_char d c) && free_of c s

-- A text without the separator is one part.
pub split-free :
    (c : Char) (room : Option ℕ) (x : String) → free_of c x ≡ true → split c room x ≡ x ∷ []
unfolding split
split-free c room String.[] h = refl
split-free c room (String.◌∷◌ d x) h = by_test (same_char d c) h (split-free c room x)
  where
    by_test :
        (b : Bool)
        → (not b && free_of c x) ≡ true
        → (free_of c x ≡ true → split c room x ≡ x ∷ [])
        → (if b && may_cut room
            then String.[] ∷ split c (one_less room) x
            else onto_first d (split c room x))
          ≡ String.◌∷◌ d x ∷ []
    by_test true h go = cc
    by_test false h go = ap (onto_first d) (go h)

same_char_refl : (c : Char) → same_char c c ≡ true
same_char_refl c = ground arith

-- A part without the separator, and what comes after the separator.
pub split-part :
    (c : Char) (room : Option ℕ) (x s : String)
    → free_of c x ≡ true
    → may_cut room ≡ true
    → split c room (x +++ String.◌∷◌ c s) ≡ x ∷ split c (one_less room) s
unfolding split
split-part c room String.[] s h m =
    ap (split c room) (nil-append (String.◌∷◌ c s))
    ∙ ap
        (λ b.
          if b && may_cut room
          then String.[] ∷ split c (one_less room) s
          else onto_first c (split c room s))
        (same_char_refl c)
    ∙ ap (λ b. if b then String.[] ∷ split c (one_less room) s else onto_first c (split c room s)) m
split-part c room (String.◌∷◌ d x) s h m =
    ap (split c room) (cons-append d x (String.◌∷◌ c s))
    ∙ by_test (same_char d c) h (λ f. split-part c room x s f m)
  where
    by_test :
        (b : Bool)
        → (not b && free_of c x) ≡ true
        → (free_of c x ≡ true → split c room (x +++ String.◌∷◌ c s) ≡ x ∷ split c (one_less room) s)
        → (if b && may_cut room
            then String.[] ∷ split c (one_less room) (x +++ String.◌∷◌ c s)
            else onto_first d (split c room (x +++ String.◌∷◌ c s)))
          ≡ String.◌∷◌ d x ∷ split c (one_less room) s
    by_test true h go = cc
    by_test false h go = ap (onto_first d) (go h)

-- Parts that are free of the separator come back from their join.
pub split-join :
    (c : Char) (x : String) (xs : List String)
    → free_of c x ≡ true
    → All (λ y. free_of c y ≡ true) xs
    → split c none (join c (x ∷ xs)) ≡ x ∷ xs
unfolding join
split-join c x [] h a = split-free c none x h
split-join c x (y ∷ xs) h a =
    split-part c none x (join c (y ∷ xs)) h refl ∙ ap (λ l. x ∷ l) (split-join c y xs a.0 a.1)

-- A character that is in no part and is not the separator is not in the join.
free_of-append :
    (c : Char) (x y : String) → free_of c x ≡ true → free_of c y ≡ true → free_of c (x +++ y) ≡ true
free_of-append c String.[] y h k = ap (free_of c) (nil-append y) ∙ k
free_of-append c (String.◌∷◌ d x) y h k =
    ap (free_of c) (cons-append d x y) ∙ by_test (same_char d c) h (λ f. free_of-append c x y f k)
  where
    by_test :
        (b : Bool)
        → (not b && free_of c x) ≡ true
        → (free_of c x ≡ true → free_of c (x +++ y) ≡ true)
        → (not b && free_of c (x +++ y)) ≡ true
    by_test true h go = cc
    by_test false h go = go h

pub free_of-join :
    (c sep : Char) (xs : List String)
    → same_char sep c ≡ false
    → All (λ y. free_of c y ≡ true) xs
    → free_of c (join sep xs) ≡ true
unfolding join
free_of-join c sep [] d a = refl
free_of-join c sep (x ∷ []) d a = a.0
free_of-join c sep (x ∷ y ∷ xs) d a =
    free_of-append c x (String.◌∷◌ sep (join sep (y ∷ xs))) a.0
      (ap (λ b. not b && free_of c (join sep (y ∷ xs))) d ∙ free_of-join c sep (y ∷ xs) d a.1)
