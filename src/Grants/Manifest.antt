-- ===== src/Grants/Manifest.antt =====
-- What agents are shown of the granted tools (src/bearpit/core/tools.py, `grant_manifest`). The
-- length of a JSON text is the library's. The version and the reason, which never change, are left
-- out.
use bearpit.Base.{ℕ, String, List, [], ◌∷◌, Option, none, some, if◌then◌else◌, ltb, take, map, ◌++◌}
use bearpit.Base.Dict.{Dict, lookup}
use bearpit.Base.StrSet.{of_list, sorted}
use bearpit.Value.{Value, dict, str, end, field}
use bearpit.Project.Spec.{AgentSpec}
use bearpit.Grants.Registry.{ToolProfile, Registry}

abbrev pub max_manifest_tools : ℕ
max_manifest_tools = 64

abbrev pub max_params_chars : ℕ
max_params_chars = 8000

pub data ToolEntry : Type 0 where
  not_offered : Value → ToolEntry
  offered : String → Value → Value → ℕ → ToolEntry

pub record Manifest : Type 0 where
  pub tools : Dict ToolEntry
  pub grants : Dict (List String)

abbrev pub policy_of : Dict Value → String → Value
policy_of configs name = elim (lookup name configs) [ none ↦ dict end | some config ↦ config ]

abbrev pub names_granted : List AgentSpec → List String
names_granted [] = []
names_granted (a ∷ agents) = a.tools ++ names_granted agents

-- `sorted({name for agent in project.agents for name in agent.tools})`
abbrev pub distinct_grants : List AgentSpec → List String
distinct_grants agents = sorted (of_list (names_granted agents))

abbrev pub with_tools : String → List String → Dict (List String) → Dict (List String)
with_tools agent [] rest = rest
with_tools agent (n ∷ ns) rest = (agent, n ∷ ns) ∷ rest

abbrev pub grants_of : List AgentSpec → Dict (List String)
grants_of [] = []
grants_of (a ∷ agents) = with_tools a.id a.tools (grants_of agents)

module _ (registry : Registry) (json_length : Value → ℕ) where
  -- A schema that is too long is shown as one that asks for nothing.
  abbrev pub shown_params : Value → Value
  shown_params params =
      if ltb max_params_chars (json_length params)
      then dict (field "type" (str "object") end)
      else params

  abbrev pub entry_of : Value → Option ToolProfile → ToolEntry
  entry_of policy none = not_offered policy
  entry_of policy (some p) =
      offered p.description (shown_params p.params) policy p.cost_per_call_usd

  unfoldable pub grant_manifest : List AgentSpec → Dict Value → Manifest
  grant_manifest agents configs = record {
    tools =
        map (λ name. (name, entry_of (policy_of configs name) (lookup name registry)))
          (take max_manifest_tools (distinct_grants agents));
    grants = grants_of agents;
  }
