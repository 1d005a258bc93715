-- ===== src/Params/Choices.antt =====
-- From a scenario's parameters to the values of a run (src/bearpit/core/params.py, `scan`,
-- `validate_values` and `resolve_values`).
use bearpit.Base.{
  String, ◌≡◌, refl, sym, ap, ◌∙◌, Bool, true, false, not, List, [], ◌∷◌, ◌++◌, Option, none, some,
  if◌then◌else◌, ◌==◌, contains, or_else, All, eq_iff, inl, inr, ◌⊎◌,
}
use bearpit.Base.{==_refl}
use mathlib.Core.Path.{subst}
use bearpit.Base.Dict.{Dict, lookup, insert, lookup-insert}
use bearpit.Base.Outcome.{Py, ok, ◌>>=◌, >>=-eq-ok}
use bearpit.Params.Prose.{Prose}
use bearpit.Params.Scan.{Parameter, ParameterSpec, scanned, fits_choices, scan}
use bearpit.Params.Values.{
  Floats, Complaint, effective, resolve_onto, resolve_values, named_parameter, choice_complaints,
  value_complaints, type_complaints, validate_values, complain,
}
use bearpit.Params.Declared.{DefaultFits, UniqueNames, scan-Sound}

-- What a value that was accepted is: empty, or one of the choices, if there are any.
abbrev pub Allowed : Parameter → String → Type 0
Allowed p v = (v ≡ "") ⊎ (fits_choices p.choices (some v) ≡ true)

module _ (fl : Floats) (params : List Parameter) where
  empty-parts : (xs ys : List Complaint) → xs ++ ys ≡ [] → (xs ≡ []) × (ys ≡ [])
  empty-parts [] ys e = (refl, e)
  empty-parts (x ∷ xs) ys e = cc

  ok-parts :
      (m : Py (List Complaint)) (xs : List Complaint)
      → (m >>= λ ys. ok (xs ++ ys)) ≡ ok []
      → xs ≡ []
  ok-parts m xs e =
      let (ys, em, r) = >>=-eq-ok m _ e in
      let same : xs ++ ys ≡ [] = cc in (empty-parts xs ys same).0

  choice-fits :
      (cs : Option (List String)) (name v : String)
      → choice_complaints fl cs name v ≡ []
      → fits_choices cs (some v) ≡ true
  choice-fits none name v e = refl
  choice-fits (some cs) name v e = by_test (contains v cs) e
    where
      by_test : (b : Bool) → complain (not b) (Complaint.not_a_choice name) ≡ [] → b ≡ true
      by_test true e = refl
      by_test false e = cc

  accepted :
      (name v : String) (p : Parameter) → value_complaints fl name v (some p) ≡ ok [] → Allowed p v
  accepted name v p e = by_test (v == "") refl e
    where
      by_test :
          (b : Bool)
          → (v == "") ≡ b
          → (if b
              then ok []
              else (type_complaints fl p.type p v >>= λ t.
                  ok (choice_complaints fl p.choices name v ++ t)))
            ≡ ok []
          → Allowed p v
      by_test true h e = inl ((eq_iff v "").0 h)
      by_test false h e = inr (choice-fits p.choices name v (ok-parts _ _ e))

  -- What is supplied for a parameter was accepted.
  supplied-Allowed :
      (supplied : Dict String) (p : Parameter) (v : String)
      → named_parameter params p.name ≡ some p
      → validate_values fl params supplied ≡ ok []
      → lookup p.name supplied ≡ some v
      → Allowed p v
  unfolding validate_values
  supplied-Allowed [] p v m e l = cc
  supplied-Allowed ((name, w) ∷ supplied) p v m e l =
      let (here, eh, r) =
        >>=-eq-ok (value_complaints fl name w (named_parameter params name)) _ e in
      let (rest, er, r2) = >>=-eq-ok (validate_values fl params supplied) _ r in
      let same : here ++ rest ≡ [] = cc in
      let (none_here, none_rest) = empty-parts here rest same in
      by_test (name == p.name) refl (eh ∙ ap ok none_here)
        (supplied-Allowed supplied p v m (er ∙ ap ok none_rest)) l
    where
      by_test :
          (b : Bool)
          → (name == p.name) ≡ b
          → value_complaints fl name w (named_parameter params name) ≡ ok []
          → (lookup p.name supplied ≡ some v → Allowed p v)
          → (if b then some w else lookup p.name supplied) ≡ some v
          → Allowed p v
      by_test true h here rest l =
          let given : w ≡ v = cc in
          subst (Allowed p) given (
            accepted name w p (
              sym (
                ap (value_complaints fl name w)
                  (ap (named_parameter params) ((eq_iff name p.name).0 h) ∙ m))
              ∙ here))
      by_test false h here rest l = rest l

  effective-Allowed :
      (supplied : Dict String) (p : Parameter)
      → named_parameter params p.name ≡ some p
      → DefaultFits p
      → validate_values fl params supplied ≡ ok []
      → Allowed p (effective p supplied)
  effective-Allowed supplied p m fits e =
      by_value (lookup p.name supplied) (λ v. supplied-Allowed supplied p v m e)
    where
      by_default : (d : Option String) → fits_choices p.choices d ≡ true → Allowed p (or_else d "")
      by_default none f = inl refl
      by_default (some d) f = inr f

      by_text :
          (v : String) (b : Bool)
          → Allowed p v
          → Allowed p (or_else (if b then none else some v) (or_else p.default ""))
      by_text v true a = by_default p.default fits
      by_text v false a = a

      by_value :
          (o : Option String)
          → ((v : String) → o ≡ some v → Allowed p v)
          → Allowed p (
              or_else
                (elim o [ none ↦ none | some v ↦ if v == "" then none else some v ])
                (or_else p.default ""))
      by_value none h = by_default p.default fits
      by_value (some v) h = by_text v (v == "") (h v refl)

named_parameter_found :
    (ps : List Parameter) → UniqueNames ps → All (λ p. named_parameter ps p.name ≡ some p) ps
named_parameter_found [] u = tt
named_parameter_found (p ∷ ps) u = (here, onward ps (named_parameter_found ps u.1))
  where
    here : named_parameter (p ∷ ps) p.name ≡ some p
    here = simp (u.0, ==_refl p.name)

    onward :
        (qs : List Parameter)
        → All (λ q. named_parameter ps q.name ≡ some q) qs
        → All (λ q. named_parameter (p ∷ ps) q.name ≡ some q) qs
    onward [] a = tt
    onward (q ∷ qs) a = (simp a.0, onward qs a.1)

abbrev later_or : Option Parameter → Parameter → Bool → Option Parameter
later_or o p b = elim o [ some q ↦ some q | none ↦ if b then some p else none ]

later-none :
    (o : Option Parameter) (p : Parameter) (b : Bool)
    → later_or o p b ≡ none
    → (o ≡ none) × (b ≡ false)
later-none (some q) p b h = cc
later-none none p true h = cc
later-none none p false h = (refl, refl)

later-some :
    (o : Option Parameter) (p : Parameter) (b : Bool) (q : Parameter)
    → later_or o p b ≡ some q
    → (o ≡ some q) ⊎ ((o ≡ none) × (b ≡ true) × (p ≡ q))
later-some (some r) p b q h = inl h
later-some none p true q h = let same : p ≡ q = cc in inr (refl, refl, same)
later-some none p false q h = cc

resolve_onto-other :
    (ps : List Parameter) (supplied out : Dict String) (n : String)
    → named_parameter ps n ≡ none
    → lookup n (resolve_onto ps supplied out) ≡ lookup n out
resolve_onto-other [] supplied out n h = refl
resolve_onto-other (p ∷ ps) supplied out n h =
    let (none_later, differs) = later-none (named_parameter ps n) p (p.name == n) h in
    resolve_onto-other ps supplied (insert p.name (effective p supplied) out) n none_later
    ∙ lookup-insert p.name n (effective p supplied) out
    ∙ ap (λ b. if b then some (effective p supplied) else lookup n out) differs

resolve_onto-found :
    (ps : List Parameter) (supplied out : Dict String) (n : String) (q : Parameter)
    → named_parameter ps n ≡ some q
    → lookup n (resolve_onto ps supplied out) ≡ some (effective q supplied)
resolve_onto-found [] supplied out n q h = cc
resolve_onto-found (p ∷ ps) supplied out n q h =
    elim (later-some (named_parameter ps n) p (p.name == n) q h) [
      | inl later ↦
          resolve_onto-found ps supplied (insert p.name (effective p supplied) out) n q later
      | inr last ↦
          resolve_onto-other ps supplied (insert p.name (effective p supplied) out) n last.0
          ∙ lookup-insert p.name n (effective p supplied) out
          ∙ ap (λ b. if b then some (effective p supplied) else lookup n out) last.1
          ∙ ap (λ r. some (effective r supplied)) last.2
    ]

-- For the parameters that a scan of a scenario gave, values with nothing to complain about resolve
-- for every parameter to a text that is empty or, where the parameter has choices, one of them.
pub resolve_values_allowed :
    (fl : Floats) (prose : Prose) (declared : Dict ParameterSpec) (supplied : Dict String)
    (ps : List Parameter)
    → scan prose declared ≡ scanned ps
    → validate_values fl ps supplied ≡ ok []
    → All
        (λ p. (v : String) × (lookup p.name (resolve_values ps supplied) ≡ some v) × Allowed p v)
        ps
unfolding resolve_values
resolve_values_allowed fl prose declared supplied ps e valid =
    let sound = scan-Sound prose declared ps e in
    both ps (named_parameter_found ps sound.unique) sound.defaults
  where
    both :
        (qs : List Parameter)
        → All (λ p. named_parameter ps p.name ≡ some p) qs
        → All DefaultFits qs
        → All
            (λ p.
              (v : String) × (lookup p.name (resolve_values ps supplied) ≡ some v) × Allowed p v)
            qs
    both [] m d = tt
    both (q ∷ qs) m d = (
      (
        effective q supplied,
        resolve_onto-found ps supplied [] q.name q m.0,
        effective-Allowed fl ps supplied q m.0 d.0 valid,
      ),
      both qs m.1 d.1,
    )
