-- ===== src/Params/Declared.antt =====
-- The parameters that a scan gives (src/bearpit/core/params.py, `scan`).
use bearpit.Base.{
  String, ◌≡◌, refl, sym, Bool, true, false, List, [], ◌∷◌, Option, none, some, if◌then◌else◌, ◌==◌,
  or_else, is_some, All,
}
use mathlib.Core.Path.{subst}
use bearpit.Base.Dict.{Dict, lookup, has_key, UniqueKeys}
use bearpit.Params.Prose.{Prose, prose_fields}
use bearpit.Params.Scan.{
  Parameter, ParameterSpec, ParameterError, ValueType, Found, nothing_found, scanned, error,
  find_in, unused, fits_choices, manifest_or, parameter_of, typed, resolve_parameter, resolve_all,
  no_spec, check_used, scan,
}
use bearpit.Params.Values.{named_parameter}
use bearpit.Params.Unique.{and_scan-eq, Once, find_in-Once}

-- A parameter's default is one of its choices, if it has both.
abbrev pub DefaultFits : Parameter → Type 0
DefaultFits p = fits_choices p.choices p.default ≡ true

-- Each name belongs to one parameter.
abbrev pub UniqueNames : List Parameter → Type 0
UniqueNames [] = Unit
UniqueNames (p ∷ ps) = (named_parameter ps p.name ≡ none) × UniqueNames ps

pub record Sound (params : List Parameter) : Type 0 where
  pub unique : UniqueNames params
  pub defaults : All DefaultFits params

typed-fits :
    (name : String) (s : ParameterSpec) (t : Option ValueType) (f : Found) (paths : List String)
    (p : Parameter)
    → typed name s t f paths ≡ scanned p
    → (p.name ≡ name) × DefaultFits p
typed-fits name s none f paths p e = cc
typed-fits name s (some t) f paths p e =
    by_test (fits_choices s.choices (manifest_or s.default (lookup name f.inline_default))) refl e
  where
    by_test :
        (b : Bool)
        → fits_choices s.choices (manifest_or s.default (lookup name f.inline_default)) ≡ b
        → (if b
            then scanned (parameter_of name s t f paths)
            else error (ParameterError.default_no_choice name))
          ≡ scanned p
        → (p.name ≡ name) × DefaultFits p
    by_test true h e =
        let same : parameter_of name s t f paths ≡ p = cc in
        subst (λ (q : Parameter). (q.name ≡ name) × DefaultFits q) same (refl, h)
    by_test false h e = cc

abbrev spec_of : Dict ParameterSpec → String → ParameterSpec
spec_of declared name = or_else (lookup name declared) no_spec

not_key :
    (n name : String) (paths : List String) (names : Dict (List String))
    → has_key n ((name, paths) ∷ names) ≡ false
    → ((name == n) ≡ false) × (has_key n names ≡ false)
not_key n name paths names h = by_test (name == n) h
  where
    by_test :
        (b : Bool)
        → is_some (if b then some paths else lookup n names) ≡ false
        → (b ≡ false) × (has_key n names ≡ false)
    by_test true h = cc
    by_test false h = (refl, h)

named_parameter-cons :
    (n : String) (p : Parameter) (ps : List Parameter)
    → named_parameter ps n ≡ none
    → (p.name == n) ≡ false
    → named_parameter (p ∷ ps) n ≡ none
named_parameter-cons n p ps e d = simp (e, d)

resolve_all-Sound :
    (declared : Dict ParameterSpec) (f : Found) (names : Dict (List String)) (ps : List Parameter)
    → UniqueKeys names
    → resolve_all declared f names ≡ scanned ps
    → Sound ps × ((n : String) → has_key n names ≡ false → named_parameter ps n ≡ none)
resolve_all-Sound declared f [] ps u e =
    let same : [] ≡ ps = cc in
    subst
      (λ qs.
        Sound qs
        × ((n : String) → has_key {V = List String} n [] ≡ false → named_parameter qs n ≡ none))
      same (record { unique = tt; defaults = tt }, λ n h. refl)
resolve_all-Sound declared f ((name, paths) ∷ names) ps u e =
    let (p, ep, e1) = and_scan-eq (resolve_parameter declared f name paths) _ ps e in
    let (qs, eqs, e2) = and_scan-eq (resolve_all declared f names) _ ps e1 in
    let (sound, apart) = resolve_all-Sound declared f names qs u.1 eqs in
    let (named, fits) =
      typed-fits name (spec_of declared name) (spec_of declared name).type f paths p ep in
    let same : (p ∷ qs) ≡ ps = cc in
    subst
      (λ l.
        Sound l
        × ((n : String) → has_key n ((name, paths) ∷ names) ≡ false → named_parameter l n ≡ none))
      same
      (
        record {
          unique =
              (subst (λ n. named_parameter qs n ≡ none) (sym named) (apart name u.0), sound.unique);
          defaults = (fits, sound.defaults);
        },
        λ n h.
            let (differs, elsewhere) = not_key n name paths names h in
            named_parameter-cons n p qs (apart n elsewhere)
              (subst (λ x. (x == n) ≡ false) (sym named) differs),
      )

pub scan-Sound :
    (prose : Prose) (declared : Dict ParameterSpec) (ps : List Parameter)
    → scan prose declared ≡ scanned ps
    → Sound ps
unfolding scan
scan-Sound prose declared ps e =
    let (f, ef, e1) = and_scan-eq (find_in (prose_fields prose) nothing_found) _ ps e in
    by_unused f (unused declared f.occurrences) e1 (find_in-Once _ nothing_found f ef tt)
  where
    by_unused :
        (f : Found) (o : Option String) → check_used declared f o ≡ scanned ps → Once f → Sound ps
    by_unused f (some n) e u = cc
    by_unused f none e u = (resolve_all-Sound declared f f.occurrences ps u e).0
