-- ===== src/Project/Launch.antt =====
-- What a launch takes from a project (src/bearpit/core/schema.py, `effective_termination`;
-- src/bearpit/gatekeeper/machine_record.py, `machine_record`).
use bearpit.Base.{
  String, Bool, true, false, not, ◌&&◌, List, [], ◌∷◌, ◌++◌, Option, none, some, if◌then◌else◌, any,
}
use bearpit.Base.Dict.{Dict}
use bearpit.Machine.Decl.{MachineDef, RoleDef}
use bearpit.Machine.State.{Bindings}
use bearpit.Termination.{Condition, Kind, MatchMode}
use bearpit.Project.Spec.{AgentSpec, RefereePowers, Project}
use bearpit.Project.Checks.{referees, referee_of, participants_of, bound_members, spec_machine}
use bearpit.Service.Chronicle.{MachineRecord}

abbrev pub is_verdict_kind : Kind → Bool
is_verdict_kind Kind.referee_verdict = true
is_verdict_kind _ = false

abbrev pub may_end : Option RefereePowers → Bool
may_end none = false
may_end (some powers) = powers.verdict_ends_realm

abbrev pub head_may_end : List AgentSpec → Bool
head_may_end [] = false
head_may_end (a ∷ rest) = may_end a.powers

abbrev pub on_verdict : Condition
on_verdict = record {
  kind = Kind.referee_verdict;
  limit = none;
  path = none;
  content_match = none;
  count = none;
  channel = none;
  pattern = none;
  match_mode = MatchMode.substring;
  scope = none;
}

unfoldable pub effective_termination : Project → List Condition
effective_termination p =
    if head_may_end (referees p.agents)
      && not (any (λ (c : Condition). is_verdict_kind c.kind) p.spec.termination)
    then p.spec.termination ++ (on_verdict ∷ [])
    else p.spec.termination

abbrev pub bind_roles : Project → Dict RoleDef → Dict (List String)
bind_roles p [] = []
bind_roles p ((name, r) ∷ rs) = (name, bound_members p r.members) ∷ bind_roles p rs

abbrev pub bindings_of : Project → MachineDef → Bindings
bindings_of p m = record {
  members = bind_roles p m.roles;
  roster = participants_of p;
  referee = referee_of p;
}

abbrev pub record_of : Project → Option MachineDef → Option MachineRecord
record_of p none = none
record_of p (some m) = some (record { version = 1; machine_def = m; bindings = bindings_of p m })

unfoldable pub machine_record : Project → Option MachineRecord
machine_record p = record_of p (spec_machine p.spec)
