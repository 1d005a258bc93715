-- ===== src/Service/Storable.antt =====
-- An independent description of the values that may be stored, and that the check decides it
-- (src/bearpit/chronicle/safety.py, `unstorable`).
use bearpit.Base.{
  ℕ, suc, max, ◌+◌, ◌≤◌, String, ◌≡◌, ◌↔◌, Bool, true, false, not, ◌&&◌, none, some, arith, ltb,
  Option, refl, if◌then◌else◌, Bool-cases, inl, inr, eqb, List, [], ◌∷◌,
}
use mathlib.Core.Path.{subst}
use bearpit.Value.{
  Value, str, list, dict, null, int, bool, negative, Items, nil, cons, Fields, end, field,
}
use bearpit.Service.Safety.{
  Hazard, too_deep, is_nul, is_surrogate, any_char, bad_text, bad_key, key_first, first_of,
  unstorable, unstorable_fields, unstorable_items, max_value_depth,
}

-- How many levels below a value its deepest part stands.
unfoldable mutual
  pub nesting : Value → ℕ
  nesting (list xs) = nesting_items xs
  nesting (dict d) = nesting_fields d
  nesting v = 0

  pub nesting_items : Items → ℕ
  nesting_items nil = 0
  nesting_items (cons v xs) = max (suc (nesting v)) (nesting_items xs)

  pub nesting_fields : Fields → ℕ
  nesting_fields end = 0
  nesting_fields (field k v d) = max (suc (nesting v)) (nesting_fields d)

-- The halves of surrogate pairs.
abbrev pub paired_only : ℕ → Bool
paired_only c = not (ltb c 55296) && ltb c 57344

abbrev pub has_point : (ℕ → Bool) → List ℕ → Bool
has_point p [] = false
has_point p (c ∷ s) = if p c then true else has_point p s

any_char-has_point :
    (p q : ℕ → Bool) → ((c : ℕ) → p c ≡ q c) → (s : List ℕ) → any_char p s ≡ has_point q s
unfolding any_char
any_char-has_point p q same [] = refl
any_char-has_point p q same (c ∷ s) = ground (arith, same c, any_char-has_point p q same s)

module _ (points : String → List ℕ) where
  abbrev pub clean_text : String → Bool
  clean_text s = not (has_point (λ c. eqb c 0) (points s)) && not (has_point paired_only (points s))

  -- Every text in the value, keys included, can be stored and sent back.
  unfoldable mutual
    pub clean : Value → Bool
    clean (str s) = clean_text s
    clean (list xs) = clean_items xs
    clean (dict d) = clean_fields d
    clean v = true

    pub clean_items : Items → Bool
    clean_items nil = true
    clean_items (cons v xs) = clean v && clean_items xs

    pub clean_fields : Fields → Bool
    clean_fields end = true
    clean_fields (field k v d) = clean_text k && (clean v && clean_fields d)

  bad_text_lem : (s : String) → bad_text points s ≡ none ↔ clean_text s ≡ true
  unfolding bad_text
  bad_text_lem s = ground (
    arith,
    any_char-has_point is_nul (λ c. eqb c 0) (λ c. refl) (points s),
    any_char-has_point is_surrogate paired_only (λ c. ground arith) (points s),
  )

  -- A bound on the levels and a test, as both checks of a part state them.
  abbrev Fits : ℕ → Bool → Type 0
  Fits levels b = (levels ≤ max_value_depth) × (b ≡ true)

  guarded_lem :
      (depth n : ℕ) (b : Bool) (o : Option Hazard)
      → depth ≤ n
      → (depth ≤ max_value_depth → o ≡ none ↔ Fits n b)
      → (if ltb max_value_depth depth then some too_deep else o) ≡ none ↔ Fits n b
  guarded_lem depth n b o d h = elim (Bool-cases (ltb max_value_depth depth)) [
    | inl e ↦ rw e ((λ x. cc), (λ x. absurd (ground (arith, x.0, e, d))))
    | inr e ↦ rw e (h (ground (arith, e)))
  ]

  first_of_lem :
      (n m : ℕ) (b c : Bool) (p q : Option Hazard)
      → p ≡ none ↔ Fits n b
      → q ≡ none ↔ Fits m c
      → first_of p q ≡ none ↔ Fits (max n m) (b && c)
  first_of_lem n m b c (some h) q f g =
      ((λ x. cc), λ x. absurd (some-no h (f.1 (omega (arith, x.0), left b c x.1))))
    where
      some-no : (h : Hazard) → some h ≡ none → ⊥
      some-no h e = cc

      left : (b c : Bool) → b && c ≡ true → b ≡ true
      left true c e = refl
      left false c e = cc
  first_of_lem n m b c none q f g = (
    (λ x. let l = f.0 refl in let r = g.0 x in (omega (arith, l.0, r.0), ground (arith, l.1, r.1))),
    λ x. g.1 (omega (arith, x.0), right b c x.1),
  )
    where
      right : (b c : Bool) → b && c ≡ true → c ≡ true
      right true c e = e
      right false c e = cc

  max-suc_lem : (n m depth : ℕ) → max (n + suc depth) (m + depth) ≡ max (suc n) m + depth
  max-suc_lem n m depth = omega arith

  key_text_lem :
      (k : String) (depth : ℕ) → bad_key points depth k ≡ none ↔ Fits depth (clean_text k)
  key_text_lem k depth =
      guarded_lem depth depth (clean_text k) (bad_text points k) (omega arith)
        (λ h. let l = bad_text_lem k in ((λ x. (omega (arith, h), l.0 x)), λ x. l.1 x.1))

  key_first_lem :
      (k : String) (n depth : ℕ) (b : Bool) (o : Option Hazard)
      → depth ≤ n
      → o ≡ none ↔ Fits n b
      → key_first (bad_key points depth k) o ≡ none ↔ Fits n (clean_text k && b)
  key_first_lem k n depth b o h f = by_key (bad_key points depth k) (key_text_lem k depth)
    where
      by_key :
          (p : Option Hazard)
          → p ≡ none ↔ Fits depth (clean_text k)
          → key_first p o ≡ none ↔ Fits n (clean_text k && b)
      by_key p g = ground (arith, max-suc_lem 0 0 0, g, f, h)

  mutual
    unfolding unstorable nesting clean

    unstorable_exact :
        (v : Value) (depth : ℕ)
        → unstorable points v depth ≡ none
          ↔ (nesting v + depth ≤ max_value_depth) × (clean v ≡ true)
    unstorable_exact null depth = ground arith
    unstorable_exact (bool b) depth = ground arith
    unstorable_exact (int n) depth = ground arith
    unstorable_exact (negative n) depth = ground arith
    unstorable_exact (str s) depth = ground (arith, bad_text_lem s)
    unstorable_exact (list xs) depth =
        guarded_lem depth _ (clean_items xs) _ (omega arith) (unstorable_items_exact xs depth)
    unstorable_exact (dict d) depth =
        guarded_lem depth _ (clean_fields d) _ (omega arith) (unstorable_fields_exact d depth)

    unstorable_items_exact :
        (xs : Items) (depth : ℕ)
        → depth ≤ max_value_depth
        → unstorable_items points xs (suc depth) ≡ none
          ↔ (nesting_items xs + depth ≤ max_value_depth) × (clean_items xs ≡ true)
    unstorable_items_exact nil depth h = ground arith
    unstorable_items_exact (cons v xs) depth h =
        subst
          (λ n.
            unstorable_items points (cons v xs) (suc depth) ≡ none
            ↔ Fits n (clean_items (cons v xs)))
          (max-suc_lem (nesting v) (nesting_items xs) depth)
          (first_of_lem _ _ _ _ _ _ (unstorable_exact v (suc depth))
            (unstorable_items_exact xs depth h))

    unstorable_fields_exact :
        (d : Fields) (depth : ℕ)
        → depth ≤ max_value_depth
        → unstorable_fields points d (suc depth) ≡ none
          ↔ (nesting_fields d + depth ≤ max_value_depth) × (clean_fields d ≡ true)
    unstorable_fields_exact end depth h = ground arith
    unstorable_fields_exact (field k v d) depth h =
        subst
          (λ n.
            unstorable_fields points (field k v d) (suc depth) ≡ none
            ↔ Fits n (clean_fields (field k v d)))
          (max-suc_lem (nesting v) (nesting_fields d) depth)
          (key_first_lem k _ (suc depth) _ _ (omega arith) (
            first_of_lem _ _ _ _ _ _ (unstorable_exact v (suc depth))
              (unstorable_fields_exact d depth h)))

  -- A value is accepted exactly if it is nested at most 32 levels deep and none of its texts, keys
  -- included, has a NUL or an unpaired surrogate.
  pub unstorable-Storable :
      (v : Value) → unstorable points v 0 ≡ none ↔ (nesting v ≤ max_value_depth) × (clean v ≡ true)
  unstorable-Storable v =
      let l = unstorable_exact v 0 in
      ((λ x. let f = l.0 x in (omega (arith, f.0), f.1)), λ x. l.1 (omega (arith, x.0), x.1))
