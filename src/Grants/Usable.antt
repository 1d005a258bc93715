-- ===== src/Grants/Usable.antt =====
-- What a project without problems may count on (src/bearpit/core/tools.py, `check_grants`).
use bearpit.Base.{
  Bool, true, false, ◌||◌, ◌==◌, contains, if◌then◌else◌, String, ◌≡◌, refl, List, [], ◌∷◌, ◌++◌,
  map, Option, none, some, All,
}
use bearpit.Base.Dict.{Dict, lookup}
use bearpit.Value.{Value}
use bearpit.Project.Spec.{AgentSpec}
use bearpit.Grants.Registry.{ToolProfile, Registry}
use bearpit.Grants.Problems.{
  Problem, missing_key, key_problem, grant_problem, tool_problems, agent_problems, schema_problems,
  config_problems, all_config_problems, check_grants,
}

-- The handle that a tool asks for, if it asks for one, is in the keystore.
abbrev pub HasKey : List String → Option String → Type 0
HasKey key_refs none = Unit
HasKey key_refs (some ref) = (ref == "" || contains ref key_refs) ≡ true

-- A tool that is installed, with the key that it asks for.
pub record IsUsable (registry : Registry) (key_refs : List String) (name : String) : Type 0 where
  pub profile : ToolProfile
  pub installed : lookup name registry ≡ some profile
  pub keyed : HasKey key_refs profile.api_key_ref

-- A configuration that the schema of its tool, if it is installed and has one, accepts.
abbrev pub SchemaAccepts : (Value → Value → List String) → Value → Option Value → Type 0
SchemaAccepts errors config none = Unit
SchemaAccepts errors config (some schema) = errors schema config ≡ []

abbrev pub ConfigAccepted : (Value → Value → List String) → Value → Option ToolProfile → Type 0
ConfigAccepted errors config none = Unit
ConfigAccepted errors config (some p) = SchemaAccepts errors config p.config_schema

empty-both : (xs ys : List Problem) → xs ++ ys ≡ [] → (xs ≡ []) × (ys ≡ [])
empty-both [] ys e = (refl, e)
empty-both (x ∷ xs) ys e = cc

module _ (registry : Registry) (key_refs : List String) where
  missing_key-HasKey :
      (p : ToolProfile) → missing_key p key_refs ≡ none → HasKey key_refs p.api_key_ref
  missing_key-HasKey p h = by_ref p.api_key_ref h
    where
      by_ref :
          (o : Option String)
          → elim o [
            | none ↦ none
            | some ref ↦
                if ref == "" then none else if contains ref key_refs then none else some ref
          ]
            ≡ none
          → HasKey key_refs o
      by_ref none e = tt
      by_ref (some ref) e = by_test (ref == "") (contains ref key_refs) e
        where
          by_test :
              (x y : Bool)
              → (if x then none else if y then none else some ref) ≡ none
              → (x || y) ≡ true
          by_test true y e = refl
          by_test false true e = refl
          by_test false false e = cc

  grant-IsUsable :
      (agent name : String) (o : Option ToolProfile)
      → lookup name registry ≡ o
      → grant_problem registry agent name key_refs o ≡ []
      → IsUsable registry key_refs name
  grant-IsUsable agent name none found e = cc
  grant-IsUsable agent name (some p) found e = by_key (missing_key p key_refs) refl e
    where
      by_key :
          (o : Option String)
          → missing_key p key_refs ≡ o
          → key_problem registry agent name o ≡ []
          → IsUsable registry key_refs name
      by_key none k h = record { profile = p; installed = found; keyed = missing_key-HasKey p k }
      by_key (some ref) k h = cc

  tools-IsUsable :
      (agent : String) (names : List String)
      → tool_problems registry agent key_refs names ≡ []
      → All (IsUsable registry key_refs) names
  tools-IsUsable agent [] e = tt
  tools-IsUsable agent (name ∷ names) e =
      let both =
        empty-both (grant_problem registry agent name key_refs (lookup name registry)) _ e in
      (
        grant-IsUsable agent name (lookup name registry) refl both.0,
        tools-IsUsable agent names both.1,
      )

  agents-IsUsable :
      (agents : List AgentSpec)
      → agent_problems registry key_refs agents ≡ []
      → All (λ a. All (IsUsable registry key_refs) a.tools) agents
  agents-IsUsable [] e = tt
  agents-IsUsable (a ∷ agents) e =
      let both = empty-both (tool_problems registry a.id key_refs a.tools) _ e in
      (tools-IsUsable a.id a.tools both.0, agents-IsUsable agents both.1)

  module _ (errors : Value → Value → List String) where
    config-accepted :
        (name : String) (config : Value) (o : Option ToolProfile)
        → config_problems registry errors name config o ≡ []
        → ConfigAccepted errors config o
    config-accepted name config none e = tt
    config-accepted name config (some p) e = by_schema p.config_schema e
      where
        no_errors : (es : List String) → map (λ m. Problem.bad_config name m) es ≡ [] → es ≡ []
        no_errors [] h = refl
        no_errors (m ∷ es) h = cc

        by_schema :
            (o : Option Value)
            → schema_problems registry errors name config o ≡ []
            → SchemaAccepts errors config o
        by_schema none h = tt
        by_schema (some schema) h = no_errors (errors schema config) h

    configs-accepted :
        (configs : Dict Value)
        → all_config_problems registry errors configs ≡ []
        → All (λ c. ConfigAccepted errors c.1 (lookup c.0 registry)) configs
    configs-accepted [] e = tt
    configs-accepted ((name, config) ∷ configs) e =
        let both =
          empty-both (config_problems registry errors name config (lookup name registry)) _ e in
        (config-accepted name config (lookup name registry) both.0, configs-accepted configs both.1)

    -- Where nothing is reported, every tool that an agent is granted is installed and has the key
    -- that it asks for, and the configuration of every installed tool is one that its schema
    -- accepts.
    pub check_grants-IsUsable :
        (agents : List AgentSpec) (configs : Dict Value)
        → check_grants registry errors agents configs key_refs ≡ []
        → All (λ a. All (IsUsable registry key_refs) a.tools) agents
          × All (λ c. ConfigAccepted errors c.1 (lookup c.0 registry)) configs
    unfolding check_grants
    check_grants-IsUsable agents configs e =
        let both = empty-both (agent_problems registry key_refs agents) _ e in
        (agents-IsUsable agents both.0, configs-accepted configs both.1)
