-- ===== src/Params/Tests.antt =====
-- A scenario with two parameters, and the theorems applied to it (src/bearpit/core/params.py).
use bearpit.Base.{ℕ, String, ◌≡◌, refl, true, false, none, some, [], ◌∷◌, All}
use bearpit.Base.Dict.{Dict, lookup}
use bearpit.Base.Outcome.{ok}
use bearpit.Params.Placeholder.{parse_placeholders, substitute}
use bearpit.Params.Prose.{Prose}
use bearpit.Params.Scan.{Parameter, ParameterSpec, ValueType, Origin, scanned, scan}
use bearpit.Params.Values.{Floats, validate_values, resolve_values}
use bearpit.Params.Reading.{substitute-Agree}
use bearpit.Params.Choices.{Allowed, resolve_values_allowed}

abbrev duel : Prose
duel = record {
  description = some "A duel to ${points,10,Points needed, before the bell}";
  goals = "Win in ${mode} mode; write $${x} as it is" ∷ [];
  guidelines = none;
  restrictions = none;
  agents = [];
}

abbrev mode_spec : ParameterSpec
mode_spec = record {
  default = some "calm";
  description = none;
  type = some ValueType.string;
  choices = some ("calm" ∷ "wild" ∷ []);
  multiline = false;
  minimum = none;
  maximum = none;
}

abbrev points : Parameter
points = record {
  name = "points";
  default = some "10";
  description = some "Points needed, before the bell";
  type = ValueType.string;
  choices = none;
  multiline = false;
  minimum = none;
  maximum = none;
  default_origin = some Origin.inline;
  description_origin = some Origin.inline;
  inline_default = some "10";
  occurrences = "metadata.description" ∷ [];
}

abbrev mode : Parameter
mode = record {
  name = "mode";
  default = some "calm";
  description = none;
  type = ValueType.string;
  choices = some ("calm" ∷ "wild" ∷ []);
  multiline = false;
  minimum = none;
  maximum = none;
  default_origin = some Origin.manifest;
  description_origin = none;
  inline_default = none;
  occurrences = "spec.goals[0]" ∷ [];
}

duel-scan : scan duel (("mode", mode_spec) ∷ []) ≡ scanned (points ∷ mode ∷ [])
unfolding scan bearpit.Params.Prose.prose_fields parse_placeholders bearpit.Params.Token.pieces
    bearpit.Params.Token.next_piece
duel-scan = refl

-- No number is read here.
abbrev no_floats : Floats
no_floats = record {
  Number = ℕ;
  float = λ s. none;
  is_whole = λ n. ok true;
  less = λ a b. false;
  lower = λ s. s;
}

abbrev wild : Dict String
wild = ("mode", "wild") ∷ []

wild-valid : validate_values no_floats (points ∷ mode ∷ []) wild ≡ ok []
unfolding validate_values
wild-valid = refl

resolve_values_allowed_example :
    All
      (λ p.
        (v : String) × (lookup p.name (resolve_values (points ∷ mode ∷ []) wild) ≡ some v)
        × Allowed p v)
      (points ∷ mode ∷ [])
resolve_values_allowed_example =
    resolve_values_allowed no_floats duel (("mode", mode_spec) ∷ []) wild (points ∷ mode ∷ [])
      duel-scan wild-valid

substituted :
    substitute "Win in ${mode} mode; write $${x} as it is" wild
    ≡ "Win in wild mode; write ${x} as it is"
unfolding substitute bearpit.Params.Token.pieces bearpit.Params.Token.next_piece
substituted = refl

substitute-Agree_example :
    substitute "in ${mode}" wild ≡ substitute "in ${mode}" (("points", "3") ∷ ("mode", "wild") ∷ [])
unfolding parse_placeholders bearpit.Params.Token.pieces bearpit.Params.Token.next_piece
substitute-Agree_example =
    substitute-Agree "in ${mode}" wild (("points", "3") ∷ ("mode", "wild") ∷ []) (refl, tt)
