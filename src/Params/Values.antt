-- ===== src/Params/Values.antt =====
-- The values of a run's parameters (src/bearpit/core/params.py, `resolve_values`,
-- `missing_values` and `validate_values`).
use bearpit.Base.{
  String, Bool, true, false, not, List, [], ◌∷◌, ◌++◌, Option, none, some, if◌then◌else◌, ◌==◌,
  contains, or_else, select,
}
use bearpit.Base.Dict.{Dict, lookup, insert}
use bearpit.Base.Outcome.{Py, ok, ◌>>=◌}
use bearpit.Params.Scan.{Parameter, ValueType, is_required}

-- `supplied.get(name)`, where an empty text counts as nothing.
abbrev pub supplied_value : String → Dict String → Option String
supplied_value name supplied = elim (lookup name supplied) [
  | none ↦ none
  | some v ↦ if v == "" then none else some v
]

abbrev pub effective : Parameter → Dict String → String
effective p supplied = or_else (supplied_value p.name supplied) (or_else p.default "")

abbrev pub resolve_onto : List Parameter → Dict String → Dict String → Dict String
resolve_onto [] supplied out = out
resolve_onto (p ∷ ps) supplied out =
    resolve_onto ps supplied (insert p.name (effective p supplied) out)

unfoldable pub resolve_values : List Parameter → Dict String → Dict String
resolve_values params supplied = resolve_onto params supplied []

abbrev pub is_missing : Dict String → Parameter → Bool
is_missing supplied p = elim (supplied_value p.name supplied) [
  | none ↦ is_required p
  | some v ↦ false
]

unfoldable pub missing_values : List Parameter → Dict String → List Parameter
missing_values params supplied = select (is_missing supplied) params

-- What the check needs of Python's floats: `float(text)`, whether a number is whole, which raises
-- for one that is not finite, and `<`; and `text.lower()`.
pub record Floats : Type 1 where
  pub Number : Type 0
  pub float : String → Option Number
  pub is_whole : Number → Py Bool
  pub less : Number → Number → Bool
  pub lower : String → String

pub data Complaint : Type 0 where
  no_parameter not_a_choice no_number not_whole too_small too_large no_bool : String → Complaint

abbrev pub no_complaint : List Complaint
no_complaint = []

abbrev pub complain : Bool → Complaint → List Complaint
complain true c = c ∷ []
complain false c = []

-- `{p.name: p for p in params}.get(name)`: the last of a name counts.
abbrev pub named_parameter : List Parameter → String → Option Parameter
named_parameter [] name = none
named_parameter (p ∷ ps) name = elim (named_parameter ps name) [
  | some q ↦ some q
  | none ↦ if p.name == name then some p else none
]

module _ (fl : Floats) where
  abbrev pub whole_complaint : String → ValueType → fl.Number → Py (List Complaint)
  whole_complaint name ValueType.int n =
      fl.is_whole n >>= λ b. ok (complain (not b) (not_whole name))
  whole_complaint name _ n = ok []

  -- A bound that is no number is none.
  abbrev pub bound : Option String → Option fl.Number
  bound none = none
  bound (some text) = fl.float text

  abbrev pub min_complaint : String → Option fl.Number → fl.Number → List Complaint
  min_complaint name none n = []
  min_complaint name (some low) n = complain (fl.less n low) (too_small name)

  abbrev pub max_complaint : String → Option fl.Number → fl.Number → List Complaint
  max_complaint name none n = []
  max_complaint name (some high) n = complain (fl.less high n) (too_large name)

  abbrev pub number_complaints : Parameter → Option fl.Number → Py (List Complaint)
  number_complaints p none = ok (no_number p.name ∷ [])
  number_complaints p (some n) = do
    whole ← whole_complaint p.name p.type n
    ok (
        whole
        ++ (min_complaint p.name (bound p.minimum) n ++ max_complaint p.name (bound p.maximum) n))

  abbrev pub truth_words : List String
  truth_words = "true" ∷ "false" ∷ "yes" ∷ "no" ∷ "1" ∷ "0" ∷ []

  abbrev pub type_complaints : ValueType → Parameter → String → Py (List Complaint)
  type_complaints ValueType.int p v = number_complaints p (fl.float v)
  type_complaints ValueType.number p v = number_complaints p (fl.float v)
  type_complaints ValueType.bool p v =
      ok (complain (not (contains (fl.lower v) truth_words)) (no_bool p.name))
  type_complaints ValueType.string p v = ok []

  abbrev pub choice_complaints : Option (List String) → String → String → List Complaint
  choice_complaints none name v = []
  choice_complaints (some cs) name v = complain (not (contains v cs)) (not_a_choice name)

  abbrev pub value_complaints : String → String → Option Parameter → Py (List Complaint)
  value_complaints name v none = ok (no_parameter name ∷ [])
  value_complaints name v (some p) =
      if v == ""
      then ok []
      else (do typed ← type_complaints p.type p v; ok (choice_complaints p.choices name v ++ typed))

  unfoldable pub validate_values : List Parameter → Dict String → Py (List Complaint)
  validate_values params [] = ok []
  validate_values params ((name, v) ∷ supplied) = do
    here ← value_complaints name v (named_parameter params name)
    rest ← validate_values params supplied
    ok (here ++ rest)
