-- ===== src/Grants/Problems.antt =====
-- What stands against a project's grants on one machine (src/bearpit/core/tools.py,
-- `check_grants` and `elevated_grants`). What a schema finds wrong with a configuration is the
-- validator's.
use bearpit.Base.{
  String, Bool, true, false, List, [], ◌∷◌, ◌++◌, map, Option, none, some, if◌then◌else◌, contains,
  ◌==◌, select,
}
use bearpit.Base.Dict.{Dict, lookup}
use bearpit.Value.{Value}
use bearpit.Project.Spec.{AgentSpec}
use bearpit.Grants.Registry.{ToolRisk, ToolProfile, Registry}

pub data Problem : Type 0 where
  not_installed : String → String → Problem
  no_key : String → String → String → Problem
  bad_config : String → String → Problem

abbrev pub is_elevated : ToolRisk → Bool
is_elevated ToolRisk.elevated = true
is_elevated ToolRisk.contained = false

-- The handle that is asked for and is not in the keystore.
abbrev pub missing_key : ToolProfile → List String → Option String
missing_key p key_refs = elim p.api_key_ref [
  | none ↦ none
  | some ref ↦ if ref == "" then none else if contains ref key_refs then none else some ref
]

module _ (registry : Registry) where
  abbrev pub key_problem : String → String → Option String → List Problem
  key_problem agent name none = []
  key_problem agent name (some ref) = no_key agent name ref ∷ []

  abbrev pub grant_problem : String → String → List String → Option ToolProfile → List Problem
  grant_problem agent name key_refs none = not_installed agent name ∷ []
  grant_problem agent name key_refs (some p) = key_problem agent name (missing_key p key_refs)

  abbrev pub tool_problems : String → List String → List String → List Problem
  tool_problems agent key_refs [] = []
  tool_problems agent key_refs (name ∷ names) =
      grant_problem agent name key_refs (lookup name registry) ++ tool_problems agent key_refs names

  abbrev pub agent_problems : List String → List AgentSpec → List Problem
  agent_problems key_refs [] = []
  agent_problems key_refs (a ∷ agents) =
      tool_problems a.id key_refs a.tools ++ agent_problems key_refs agents

  module _ (schema_errors : Value → Value → List String) where
    abbrev pub schema_problems : String → Value → Option Value → List Problem
    schema_problems name config none = []
    schema_problems name config (some schema) =
        map (λ e. bad_config name e) (schema_errors schema config)

    -- A tool that is not installed is reported with the grants.
    abbrev pub config_problems : String → Value → Option ToolProfile → List Problem
    config_problems name config none = []
    config_problems name config (some p) = schema_problems name config p.config_schema

    abbrev pub all_config_problems : Dict Value → List Problem
    all_config_problems [] = []
    all_config_problems ((name, config) ∷ configs) =
        config_problems name config (lookup name registry) ++ all_config_problems configs

    unfoldable pub check_grants : List AgentSpec → Dict Value → List String → List Problem
    check_grants agents configs key_refs =
        agent_problems key_refs agents ++ all_config_problems configs

  abbrev pub is_risky : Option ToolProfile → Bool
  is_risky none = false
  is_risky (some p) = is_elevated p.risk

  abbrev pub with_risky : String → List String → Dict (List String) → Dict (List String)
  with_risky agent [] rest = rest
  with_risky agent (n ∷ ns) rest = (agent, n ∷ ns) ∷ rest

  -- The ids of the agents are distinct.
  unfoldable pub elevated_grants : List AgentSpec → Dict (List String)
  elevated_grants [] = []
  elevated_grants (a ∷ agents) =
      with_risky a.id (select (λ n. is_risky (lookup n registry)) a.tools) (elevated_grants agents)
