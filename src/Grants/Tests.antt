-- ===== src/Grants/Tests.antt =====
-- Tools and grants, and the theorems applied to them (src/bearpit/core/tools.py).
use bearpit.Base.{String, true, false, ◌≡◌, refl, List, [], ◌∷◌, none, some, All}
use bearpit.Base.Dict.{Dict, lookup}
use bearpit.Value.{Value, dict, end}
use bearpit.Project.Spec.{AgentRole, AgentSpec}
use bearpit.Grants.Registry.{
  ToolRisk, ToolProfile, Registry, Plugin, failing, contributes, profile, foreign, valid_tool_name,
  tool_registry,
}
use bearpit.Grants.Problems.{not_installed, no_key, check_grants, elevated_grants}
use bearpit.Grants.Manifest.{not_offered, grant_manifest}
use bearpit.Grants.Kept.{Origin, tool_registry-Origin}
use bearpit.Grants.Usable.{IsUsable, ConfigAccepted, check_grants-IsUsable}

abbrev page_reader : ToolProfile
page_reader = record {
  name = "web_fetch";
  description = "Reads a page";
  params = dict end;
  config_schema = some (dict end);
  api_key_ref = none;
  risk = ToolRisk.contained;
  cost_per_call_usd = 0;
}

abbrev search : ToolProfile
search = record page_reader {
  name = "web_search";
  api_key_ref = some "brave";
  risk = ToolRisk.elevated;
}

-- One plugin fails; another takes a name that is taken, a verb, a name with a dot, and a new one.
abbrev plugins : List Plugin
plugins =
    failing
    ∷ contributes (
        profile (record search { name = "web_fetch" })
        ∷ profile (record search { name = "run_code" })
        ∷ profile (record search { name = "web.search" })
        ∷ foreign
        ∷ profile search
        ∷ [])
    ∷ []

abbrev builtin_tools : Registry
builtin_tools = ("web_fetch", page_reader) ∷ []

abbrev installed : Registry
installed = ("web_fetch", page_reader) ∷ ("web_search", search) ∷ []

plugins_registered : tool_registry builtin_tools plugins ≡ installed
unfolding tool_registry
plugins_registered = refl

-- Python's `$` takes a name with a line break at its end.
line_break_taken : valid_tool_name "web_search\n" ≡ true
line_break_taken = refl

abbrev ann : AgentSpec
ann = record {
  id = "ann";
  role = AgentRole.participant;
  model = none;
  budget = record { max_usd = none; max_tokens = none };
  tools = "web_search" ∷ "web_fetch" ∷ [];
  skills = [];
  private_messaging = record {
    enabled = false;
    include_referee = false;
    peers = [];
    max_per_round = 0;
  };
  rubric = none;
  powers = none;
}

abbrev bob : AgentSpec
bob = record ann { id = "bob"; tools = "file_read" ∷ [] }

abbrev no_errors : Value → Value → List String
no_errors schema config = []

problems_reported :
    check_grants installed no_errors (ann ∷ bob ∷ []) [] []
    ≡ no_key "ann" "web_search" "brave" ∷ not_installed "bob" "file_read" ∷ []
unfolding check_grants
problems_reported = refl

elevated_reported : elevated_grants installed (ann ∷ bob ∷ []) ≡ ("ann", "web_search" ∷ []) ∷ []
unfolding elevated_grants
elevated_reported = refl

manifest_shown :
    (grant_manifest installed (λ params. 9000) (bob ∷ []) []).tools
    ≡ ("file_read", not_offered (dict end)) ∷ []
unfolding grant_manifest
manifest_shown = refl

tool_registry-Origin_example : Origin builtin_tools "web_search" search
unfolding tool_registry
tool_registry-Origin_example = tool_registry-Origin builtin_tools plugins "web_search" search refl

abbrev configs : Dict Value
configs = ("web_fetch", dict end) ∷ []

check_grants-IsUsable_example :
    All (λ a. All (IsUsable installed ("brave" ∷ [])) a.tools) (ann ∷ [])
    × All (λ c. ConfigAccepted no_errors c.1 (lookup c.0 installed)) configs
unfolding check_grants
check_grants-IsUsable_example =
    check_grants-IsUsable installed ("brave" ∷ []) no_errors (ann ∷ []) configs refl
