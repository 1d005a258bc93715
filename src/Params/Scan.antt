-- ===== src/Params/Scan.antt =====
-- The parameters of a scenario (src/bearpit/core/params.py, `scan`).
use bearpit.Base.{
  String, Bool, true, false, not, List, [], ◌∷◌, ◌++◌, Option, none, some, if◌then◌else◌, ◌==◌,
  contains, is_some, or_else,
}
use bearpit.Base.Dict.{Dict, lookup, has_key, insert}
use bearpit.Params.Placeholder.{Placeholder, parse_placeholders}
use bearpit.Params.Prose.{Prose, Field, prose_fields}

pub data ValueType : Type 0 where
  string int number bool : ValueType

-- An entry of `spec.parameters`; an empty description counts as none. Bounds are texts here: they
-- are read as numbers when a value is checked.
pub record ParameterSpec : Type 0 where
  pub default : Option String
  pub description : Option String
  pub type : Option ValueType
  pub choices : Option (List String)
  pub multiline : Bool
  pub minimum : Option String
  pub maximum : Option String

pub data Origin : Type 0 where
  inline manifest : Origin

pub record Parameter : Type 0 where
  pub name : String
  pub default : Option String
  pub description : Option String
  pub type : ValueType
  pub choices : Option (List String)
  pub multiline : Bool
  pub minimum : Option String
  pub maximum : Option String
  pub default_origin : Option Origin
  pub description_origin : Option Origin
  pub inline_default : Option String
  pub occurrences : List String

abbrev pub is_required : Parameter → Bool
is_required p = not (is_some p.default)

pub data ParameterError : Type 0 where
  two_defaults undeclared_use bad_type default_no_choice : String → ParameterError

pub data Scanned {ℓ} (A : Type ℓ) : Type ℓ where
  scanned : A → Scanned A
  error : ParameterError → Scanned A

abbrev pub and_scan {ℓ κ} : {A : Type ℓ} {B : Type κ} → Scanned A → (A → Scanned B) → Scanned B
and_scan (scanned a) f = f a
and_scan (error e) f = error e

-- What the walk over the prose has found: the order of the names is that of `occurrences`.
pub record Found : Type 0 where
  pub inline_default : Dict String
  pub inline_desc : Dict String
  pub occurrences : Dict (List String)

abbrev pub nothing_found : Found
nothing_found = record { inline_default = []; inline_desc = []; occurrences = [] }

abbrev pub note_path : String → String → Found → Found
note_path name path f =
    let paths = or_else (lookup name f.occurrences) [] in
    record f {
      occurrences =
          insert name (if contains path paths then paths else paths ++ (path ∷ [])) f.occurrences;
    }

abbrev pub same_as_prior : Option String → String → Bool
same_as_prior none d = true
same_as_prior (some prior) d = prior == d

abbrev pub note_default : String → Option String → Found → Scanned Found
note_default name none f = scanned f
note_default name (some d) f =
    if same_as_prior (lookup name f.inline_default) d
    then scanned (record f { inline_default = insert name d f.inline_default })
    else error (two_defaults name)

-- `setdefault`
abbrev pub note_description : String → Option String → Found → Found
note_description name none f = f
note_description name (some d) f =
    if has_key name f.inline_desc then f else record f { inline_desc = insert name d f.inline_desc }

abbrev pub note_placeholder : String → Placeholder → Found → Scanned Found
note_placeholder path ph f =
    and_scan (note_default ph.name ph.default (note_path ph.name path f))
      (λ g. scanned (note_description ph.name ph.description g))

abbrev pub note_all : String → List Placeholder → Found → Scanned Found
note_all path [] f = scanned f
note_all path (ph ∷ phs) f = and_scan (note_placeholder path ph f) (note_all path phs)

unfoldable pub find_in : List Field → Found → Scanned Found
find_in [] f = scanned f
find_in ((path, text) ∷ fields) f =
    and_scan (note_all path (parse_placeholders text) f) (find_in fields)

-- The first declared name that no text uses.
abbrev pub unused : Dict ParameterSpec → Dict (List String) → Option String
unused [] occurrences = none
unused ((name, s) ∷ declared) occurrences =
    if has_key name occurrences then unused declared occurrences else some name

abbrev pub no_spec : ParameterSpec
no_spec = record {
  default = none;
  description = none;
  type = some ValueType.string;
  choices = none;
  multiline = false;
  minimum = none;
  maximum = none;
}

-- The manifest wins over what stands in the prose.
abbrev pub manifest_or : Option String → Option String → Option String
manifest_or (some a) in_prose = some a
manifest_or none in_prose = in_prose

abbrev pub origin_of : Option String → Option String → Option Origin
origin_of (some a) in_prose = some manifest
origin_of none (some b) = some inline
origin_of none none = none

abbrev pub fits_choices : Option (List String) → Option String → Bool
fits_choices (some cs) (some d) = contains d cs
fits_choices _ _ = true

abbrev pub parameter_of : String → ParameterSpec → ValueType → Found → List String → Parameter
parameter_of name s t f paths = record {
  name = name;
  default = manifest_or s.default (lookup name f.inline_default);
  description = manifest_or s.description (lookup name f.inline_desc);
  type = t;
  choices = s.choices;
  multiline = s.multiline;
  minimum = s.minimum;
  maximum = s.maximum;
  default_origin = origin_of s.default (lookup name f.inline_default);
  description_origin = origin_of s.description (lookup name f.inline_desc);
  inline_default = lookup name f.inline_default;
  occurrences = paths;
}

-- A type outside the four is an error.
abbrev pub typed :
    String → ParameterSpec → Option ValueType → Found → List String → Scanned Parameter
typed name s none f paths = error (bad_type name)
typed name s (some t) f paths =
    if fits_choices s.choices (manifest_or s.default (lookup name f.inline_default))
    then scanned (parameter_of name s t f paths)
    else error (default_no_choice name)

abbrev pub resolve_parameter : Dict ParameterSpec → Found → String → List String → Scanned Parameter
resolve_parameter declared f name paths =
    let s = or_else (lookup name declared) no_spec in typed name s s.type f paths

abbrev pub resolve_all : Dict ParameterSpec → Found → Dict (List String) → Scanned (List Parameter)
resolve_all declared f [] = scanned []
resolve_all declared f ((name, paths) ∷ rest) =
    and_scan (resolve_parameter declared f name paths)
      (λ p. and_scan (resolve_all declared f rest) (λ ps. scanned (p ∷ ps)))

abbrev pub check_used : Dict ParameterSpec → Found → Option String → Scanned (List Parameter)
check_used declared f (some name) = error (undeclared_use name)
check_used declared f none = resolve_all declared f f.occurrences

unfoldable pub scan : Prose → Dict ParameterSpec → Scanned (List Parameter)
unfolding find_in
scan prose declared =
    and_scan (find_in (prose_fields prose) nothing_found)
      (λ f. check_used declared f (unused declared f.occurrences))
