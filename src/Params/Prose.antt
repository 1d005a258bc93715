-- ===== src/Params/Prose.antt =====
-- The prose of a scenario, the only text that parameters fill (src/bearpit/core/params.py,
-- `_prose_fields` and `bind`).
use bearpit.Base.{
  ℕ, suc, String, List, [], ◌∷◌, ◌++◌, map, Option, none, some, if◌then◌else◌, ◌==◌, ◌+++◌, decimal,
}
use bearpit.Base.Dict.{Dict, lookup, insert}
use bearpit.Params.Placeholder.{substitute}

-- The fields of an agent that hold prose, with its id. The last two are kept outside the document
-- that is validated.
pub record AgentProse : Type 0 where
  pub id : String
  pub description : Option String
  pub goals : List String
  pub responsibilities : List String
  pub persona : Option String
  pub rubric : Option String
  pub resource_files : Dict String
  pub local_skills : Dict String

pub record Prose : Type 0 where
  pub description : Option String
  pub goals : List String
  pub guidelines : Option String
  pub restrictions : Option String
  pub agents : List AgentProse

-- A field's dotted path with its text.
abbrev pub Field : Type 0
Field = String × String

abbrev pub field_of : String → Option String → List Field
field_of path none = []
field_of path (some text) = if text == "" then [] else (path, text) ∷ []

abbrev pub indexed : String → ℕ → List String → List Field
indexed path i [] = []
indexed path i (t ∷ ts) =
    field_of (path +++ "[" +++ decimal i +++ "]") (some t) ++ indexed path (suc i) ts

abbrev pub named_files : String → Dict String → List Field
named_files path [] = []
named_files path ((name, body) ∷ d) =
    field_of (path +++ "[" +++ name +++ "]") (some body) ++ named_files path d

abbrev pub agent_fields : AgentProse → List Field
agent_fields a =
    let at = "agents." +++ a.id +++ "." in
    field_of (at +++ "description") a.description
    ++ (indexed (at +++ "goals") 0 a.goals
        ++ (indexed (at +++ "responsibilities") 0 a.responsibilities
            ++ (field_of (at +++ "persona") a.persona
                ++ (field_of (at +++ "rubric") a.rubric
                    ++ (named_files (at +++ "resource_files") a.resource_files
                        ++ named_files (at +++ "local_skills") a.local_skills)))))

abbrev pub agents_fields : List AgentProse → List Field
agents_fields [] = []
agents_fields (a ∷ rest) = agent_fields a ++ agents_fields rest

-- `_prose_fields`
unfoldable pub prose_fields : Prose → List Field
unfolding decimal
prose_fields p =
    field_of "metadata.description" p.description
    ++ (indexed "spec.goals" 0 p.goals
        ++ (field_of "spec.guidelines" p.guidelines
            ++ (field_of "spec.restrictions" p.restrictions ++ agents_fields p.agents)))

module _ (values : Dict String) where
  abbrev pub sub : String → String
  sub text = substitute text values

  abbrev pub sub_option : Option String → Option String
  sub_option none = none
  sub_option (some text) = some (sub text)

  abbrev pub sub_bodies : Dict String → Dict String
  sub_bodies [] = []
  sub_bodies ((name, body) ∷ d) = (name, sub body) ∷ sub_bodies d

  -- The dump of an agent, without what is excluded from it.
  abbrev pub dumped_agent : AgentProse → AgentProse
  dumped_agent a = record {
    id = a.id;
    description = sub_option a.description;
    goals = map sub a.goals;
    responsibilities = map sub a.responsibilities;
    persona = sub_option a.persona;
    rubric = sub_option a.rubric;
    resource_files = [];
    local_skills = [];
  }

  abbrev pub dumped : Prose → Prose
  dumped p = record {
    description = sub_option p.description;
    goals = map sub p.goals;
    guidelines = sub_option p.guidelines;
    restrictions = sub_option p.restrictions;
    agents = map dumped_agent p.agents;
  }

  -- `{a.id: a for a in project.agents}`
  abbrev pub by_id : List AgentProse → Dict AgentProse → Dict AgentProse
  by_id [] d = d
  by_id (a ∷ rest) d = by_id rest (insert a.id a d)

  abbrev pub reattach_one : Option AgentProse → AgentProse → AgentProse
  reattach_one none a = a
  reattach_one (some original) a = record a {
    resource_files = sub_bodies original.resource_files;
    local_skills = sub_bodies original.local_skills;
  }

  abbrev pub reattach : Dict AgentProse → List AgentProse → List AgentProse
  reattach originals [] = []
  reattach originals (a ∷ rest) = reattach_one (lookup a.id originals) a ∷ reattach originals rest

  abbrev pub finish_bind : Prose → Option Prose → Option Prose
  finish_bind p none = none
  finish_bind p (some bound) =
      some (record bound { agents = reattach (by_id p.agents []) bound.agents })

  -- `bind`: the substituted document is validated again, by the model of the schema, which
  -- refuses it or gives it back.
  unfoldable pub bind : (Prose → Option Prose) → Prose → Option Prose
  bind model_validate p = finish_bind p (model_validate (dumped p))
