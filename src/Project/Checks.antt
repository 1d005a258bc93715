-- ===== src/Project/Checks.antt =====
-- The checks of a whole project (src/bearpit/core/schema.py,
-- `_one_machine_one_attention_system`, `_outputs_stay_inside_the_shared_folder`, `_integrity` and
-- `_check_machine_roles_bind`).
use bearpit.Base.{
  ℕ, zero, suc, String, Bool, true, false, not, ◌&&◌, ◌||◌, List, [], ◌∷◌, Option, none, some,
  if◌then◌else◌, contains, is_some, is_empty, all, any, leb, eqb, ◌==◌, length, select,
}
use Prim.Native.Char.{code}
use bearpit.Base.Dict.{Dict}
use bearpit.Machine.Decl.{MachineDef, RoleDef, RoleMembers}
use bearpit.Termination.{Condition, Kind}
use bearpit.Project.Spec.{AgentSpec, Mechanic, ProjectSpec, Project}
use bearpit.Project.Agents.{
  Fault, Verdict, unless, ◌and_also◌, each, no_duplicates, is_machine, is_referee_agent,
  check_egress, check_turns, check_mechanic, check_agent,
}

abbrev pub first_machine : List Mechanic → Option MachineDef
first_machine [] = none
first_machine (m ∷ ms) = m.machine

-- `spec.machine`: that of the first mechanic of the kind.
abbrev pub spec_machine : ProjectSpec → Option MachineDef
spec_machine s = first_machine (select (λ (m : Mechanic). is_machine m.kind) s.mechanics)

abbrev pub is_terminal_kind : Kind → Bool
is_terminal_kind Kind.machine_terminal = true
is_terminal_kind _ = false

abbrev pub wakes : Option MachineDef → Bool
wakes none = false
wakes (some m) = not (is_empty m.wake)

abbrev pub has_terminal : Option MachineDef → Bool
has_terminal none = false
has_terminal (some m) = not (is_empty m.terminal)

abbrev pub check_attention : ProjectSpec → Verdict
check_attention s =
    unless (leb (length (select (λ (m : Mechanic). is_machine m.kind) s.mechanics)) 1)
      Fault.two_machines
    and_also unless (not (wakes (spec_machine s) && is_some s.turns)) Fault.wake_and_turns
    and_also unless
        (not (any (λ (c : Condition). is_terminal_kind c.kind) s.termination)
          || has_terminal (spec_machine s))
        Fault.no_terminal

-- `pattern.split("/")` has the part `..`: `dots` counts the dots of the part that is being read, or
-- is `none` once it has another character.
abbrev pub is_climb : Option ℕ → Bool
is_climb none = false
is_climb (some n) = eqb n 2

abbrev pub more_dots : Option ℕ → Option ℕ
more_dots none = none
more_dots (some n) = some (suc n)

unfoldable pub climbs : String → Option ℕ → Bool
climbs String.[] dots = is_climb dots
climbs (String.◌∷◌ c s) dots =
    let after_slash = climbs s (some zero) in
    let after_dot = climbs s (more_dots dots) in
    let after_other = climbs s none in
    if eqb (code c) 47
    then is_climb dots || after_slash
    else if eqb (code c) 46
    then after_dot
    else after_other

abbrev pub starts_at_root : String → Bool
starts_at_root String.[] = false
starts_at_root (String.◌∷◌ c s) = eqb (code c) 47

unfoldable pub check_output : String → Verdict
unfolding climbs
check_output p = unless (not (starts_at_root p || climbs p (some zero))) Fault.output_outside

abbrev pub check_turns_of : ProjectSpec → Verdict
check_turns_of s = elim s.turns [ none ↦ none | some t ↦ check_turns t ]

unfoldable pub check_spec : ProjectSpec → Verdict
unfolding check_output
check_spec s =
    check_egress s.network_egress
    and_also each check_mechanic s.mechanics
    and_also check_turns_of s
    and_also each check_output s.outputs
    and_also check_attention s

abbrev pub agent_ids : List AgentSpec → List String
agent_ids [] = []
agent_ids (a ∷ agents) = a.id ∷ agent_ids agents

abbrev pub referees : List AgentSpec → List AgentSpec
referees agents = select (λ (a : AgentSpec). is_referee_agent a.role) agents

abbrev pub granted : List AgentSpec → String → Bool
granted agents tool = any (λ (a : AgentSpec). contains tool a.tools) agents

-- Only once there is a roster.
abbrev pub no_orphans : Project → Bool
no_orphans p = is_empty p.agents || all (granted p.agents) p.spec.tools

abbrev pub no_quota : AgentSpec → Bool
no_quota a = eqb a.private_messaging.max_per_round 0

abbrev pub check_members : List String → RoleMembers → Verdict
check_members ids (RoleMembers.named names) =
    unless (all (λ n. contains n ids) names) Fault.role_off_roster
check_members ids _ = none

abbrev pub check_role_on : List String → RoleDef → Verdict
check_role_on ids r = check_members ids r.members

abbrev pub each_role : (RoleDef → Verdict) → Dict RoleDef → Verdict
each_role f [] = none
each_role f ((name, r) ∷ rs) = f r and_also each_role f rs

-- The id of the referee, and the ids of the others.
abbrev pub head_id : List AgentSpec → Option String
head_id [] = none
head_id (a ∷ rest) = some a.id

abbrev pub referee_of : Project → Option String
referee_of p = head_id (referees p.agents)

abbrev pub is_other : Option String → String → Bool
is_other none id = true
is_other (some r) id = not (id == r)

abbrev pub participants_of : Project → List String
participants_of p = select (is_other (referee_of p)) (agent_ids p.agents)

abbrev pub one_or_none : Option String → List String
one_or_none none = []
one_or_none (some r) = r ∷ []

-- Who a role binds to.
abbrev pub bound_members : Project → RoleMembers → List String
bound_members p RoleMembers.referee = one_or_none (referee_of p)
bound_members p RoleMembers.participants = participants_of p
bound_members p (RoleMembers.named names) = names

abbrev pub check_bound : Project → RoleDef → Verdict
check_bound p r = unless (not (is_empty (bound_members p r.members))) Fault.empty_role

abbrev pub check_machine_roles_bind : Project → MachineDef → Verdict
check_machine_roles_bind p m = if is_empty p.agents then none else each_role (check_bound p) m.roles

abbrev pub check_machine : Project → Option MachineDef → Verdict
check_machine p none = none
check_machine p (some m) =
    each_role (check_role_on (agent_ids p.agents)) m.roles and_also check_machine_roles_bind p m

-- `_integrity`
unfoldable pub integrity : Project → Verdict
integrity p =
    unless (no_duplicates (agent_ids p.agents)) Fault.duplicate_agents
    and_also unless (leb (length (referees p.agents)) 1) Fault.two_referees
    and_also unless (no_orphans p) Fault.orphan_tool
    and_also unless (is_some p.spec.turns || all no_quota p.agents) Fault.quota_without_turns
    and_also check_machine p (spec_machine p.spec)

-- All checks, the parts first.
unfoldable pub check_project : Project → Verdict
unfolding check_spec check_agent integrity
check_project p = check_spec p.spec and_also each check_agent p.agents and_also integrity p
