-- ===== src/Project/Roles.antt =====
-- Whom the roles of a launched machine bind to (src/bearpit/core/schema.py,
-- `_check_machine_roles_bind`; src/bearpit/gatekeeper/machine_record.py).
use bearpit.Base.{
  String, ◌≡◌, refl, sym, ap, ◌∙◌, Bool, true, false, not, ◌||◌, List, [], ◌∷◌, Option, none, some,
  if◌then◌else◌, contains, is_empty, is_some, all, select, ◌==◌, arith, eq_iff, or_else, leb,
  length,
}
use mathlib.Core.Path.{subst}
use bearpit.Base.Dict.{Dict, lookup}
use bearpit.Machine.Decl.{MachineDef, RoleDef, RoleMembers}
use bearpit.Machine.State.{members_of}
use bearpit.Service.Chronicle.{MachineRecord}
use bearpit.Project.Spec.{AgentSpec, Project}
use bearpit.Project.Agents.{
  Fault, Verdict, unless, ◌and_also◌, each, is_referee_agent, check_agent, no_duplicates,
}
use bearpit.Project.Checks.{
  spec_machine, agent_ids, referees, referee_of, head_id, is_other, one_or_none, bound_members,
  each_role, check_members, check_role_on, check_bound, check_machine_roles_bind, check_machine,
  check_spec, integrity, check_project, no_orphans, no_quota,
}
use bearpit.Project.Launch.{bind_roles, bindings_of, record_of, machine_record}

-- Some agents, all on the roster.
abbrev pub Bound : Project → List String → Type 0
Bound p ids =
    (is_empty ids ≡ false)
    × ((a : String) → contains a ids ≡ true → contains a (agent_ids p.agents) ≡ true)

both_pass : (v w : Verdict) → (v and_also w) ≡ none → (v ≡ none) × (w ≡ none)
both_pass (some r) w h = cc
both_pass none w h = (refl, h)

flip : (b : Bool) → not b ≡ true → b ≡ false
flip true h = cc
flip false h = refl

unless-pass : (b : Bool) (r : Fault) → unless b r ≡ none → b ≡ true
unless-pass true r h = refl
unless-pass false r h = cc

each_role-at :
    (f : RoleDef → Verdict) (rs : Dict RoleDef) (role : String) (d : RoleDef)
    → each_role f rs ≡ none
    → lookup role rs ≡ some d
    → f d ≡ none
each_role-at f [] role d h l = cc
each_role-at f ((name, r) ∷ rs) role d h l =
    let (here, rest) = both_pass (f r) (each_role f rs) h in
    by_test (name == role) l (each_role-at f rs role d rest)
  where
    by_test :
        (b : Bool)
        → (if b then some r else lookup role rs) ≡ some d
        → (lookup role rs ≡ some d → f d ≡ none)
        → f d ≡ none
    by_test true l go =
        let same : r ≡ d = cc in subst (λ x. f x ≡ none) same (both_pass (f r) (each_role f rs) h).0
    by_test false l go = go l

bind_roles-at :
    (p : Project) (rs : Dict RoleDef) (role : String) (d : RoleDef)
    → lookup role rs ≡ some d
    → lookup role (bind_roles p rs) ≡ some (bound_members p d.members)
bind_roles-at p [] role d l = cc
bind_roles-at p ((name, r) ∷ rs) role d l = by_test (name == role) l (bind_roles-at p rs role d)
  where
    by_test :
        (b : Bool)
        → (if b then some r else lookup role rs) ≡ some d
        → (lookup role rs ≡ some d
            → lookup role (bind_roles p rs) ≡ some (bound_members p d.members))
        → (if b then some (bound_members p r.members) else lookup role (bind_roles p rs))
          ≡ some (bound_members p d.members)
    by_test true l go =
        let same : r ≡ d = cc in ap (λ (x : RoleDef). some (bound_members p x.members)) same
    by_test false l go = go l

select-contains :
    (f : String → Bool) (xs : List String) (a : String)
    → contains a (select f xs) ≡ true
    → contains a xs ≡ true
select-contains f [] a h = h
select-contains f (x ∷ xs) a h = by_test (f x) h (select-contains f xs a)
  where
    by_test :
        (b : Bool)
        → contains a (if b then x ∷ select f xs else select f xs) ≡ true
        → (contains a (select f xs) ≡ true → contains a xs ≡ true)
        → (a == x || contains a xs) ≡ true
    by_test true h go = ground (arith, h, go)
    by_test false h go = ground (arith, go h)

all-contains :
    (ids names : List String) (a : String)
    → all (λ n. contains n ids) names ≡ true
    → contains a names ≡ true
    → contains a ids ≡ true
all-contains ids [] a h m = cc
all-contains ids (x ∷ xs) a h m = ground (arith, eq_iff a x, all-contains ids xs a, h, m)

head-contains :
    (agents : List AgentSpec) (r : String)
    → head_id (referees agents) ≡ some r
    → contains r (agent_ids agents) ≡ true
head-contains [] r h = cc
head-contains (x ∷ xs) r h = by_test (is_referee_agent x.role) h (head-contains xs r)
  where
    by_test :
        (b : Bool)
        → head_id (if b then x ∷ referees xs else referees xs) ≡ some r
        → (head_id (referees xs) ≡ some r → contains r (agent_ids xs) ≡ true)
        → (r == x.id || contains r (agent_ids xs)) ≡ true
    by_test true h go = let same : x.id ≡ r = cc in ground (arith, eq_iff r x.id, same)
    by_test false h go = ground (arith, go h)

referee-contains :
    (p : Project) (o : Option String) (a : String)
    → referee_of p ≡ o
    → contains a (one_or_none o) ≡ true
    → contains a (agent_ids p.agents) ≡ true
referee-contains p none a e h = cc
referee-contains p (some r) a e h =
    let same : a ≡ r = ground (arith, eq_iff a r, h) in
    subst (λ x. contains x (agent_ids p.agents) ≡ true) (sym same) (head-contains p.agents r e)

-- A role that was checked binds to agents of the roster.
bound_members-Bound :
    (p : Project) (d : RoleDef) (m : RoleMembers)
    → d.members ≡ m
    → check_role_on (agent_ids p.agents) d ≡ none
    → check_bound p d ≡ none
    → Bound p (bound_members p m)
bound_members-Bound p d m e on full = (nonempty, inside m e)
  where
    nonempty : is_empty (bound_members p m) ≡ false
    nonempty =
        subst (λ x. is_empty (bound_members p x) ≡ false) e
          (flip (is_empty (bound_members p d.members)) (unless-pass _ Fault.empty_role full))

    inside :
        (m : RoleMembers)
        → d.members ≡ m
        → (a : String) → contains a (bound_members p m) ≡ true
        → contains a (agent_ids p.agents) ≡ true
    inside RoleMembers.referee e a h = referee-contains p (referee_of p) a refl h
    inside RoleMembers.participants e a h =
        select-contains (is_other (referee_of p)) (agent_ids p.agents) a h
    inside (RoleMembers.named names) e a h =
        all-contains (agent_ids p.agents) names a
          (unless-pass _ Fault.role_off_roster
            (subst (λ x. check_members (agent_ids p.agents) x ≡ none) e on))
          h

-- What a passing project says of its machine.
machine-checked :
    (p : Project) → check_project p ≡ none → check_machine p (spec_machine p.spec) ≡ none
unfolding check_project integrity
machine-checked p h =
    let agents = (both_pass (check_spec p.spec) _ h).1 in
    let whole = (both_pass (each check_agent p.agents) _ agents).1 in
    let ids =
      (both_pass (unless (no_duplicates (agent_ids p.agents)) Fault.duplicate_agents) _ whole).1 in
    let one =
      (both_pass (unless (leb (length (referees p.agents)) 1) Fault.two_referees) _ ids).1 in
    let used = (both_pass (unless (no_orphans p) Fault.orphan_tool) _ one).1 in
    (both_pass (unless (is_some p.spec.turns || all no_quota p.agents) Fault.quota_without_turns) _
      used).1

-- In a project that passed the checks and has agents, each role of the launched machine binds to at
-- least one agent, and to agents of the roster only.
pub machine_record-Bound :
    (p : Project) (r : MachineRecord) (role : String) (d : RoleDef)
    → check_project p ≡ none
    → is_empty p.agents ≡ false
    → machine_record p ≡ some r
    → lookup role r.machine_def.roles ≡ some d
    → Bound p (members_of r.bindings role)
unfolding machine_record
machine_record-Bound p r role d valid some_agents e l =
    by_machine (spec_machine p.spec) (machine-checked p valid) e
  where
    roles_bind :
        (m : MachineDef)
        → check_machine_roles_bind p m ≡ none
        → each_role (check_bound p) m.roles ≡ none
    roles_bind m h =
        sym (ap (λ b. if b then none else each_role (check_bound p) m.roles) some_agents) ∙ h

    role_bound :
        (m : MachineDef)
        → check_machine p (some m) ≡ none
        → lookup role m.roles ≡ some d
        → Bound p (members_of (bindings_of p m) role)
    role_bound m c l =
        let (on, full) = both_pass _ _ c in
        subst (λ o. Bound p (or_else o [])) (sym (bind_roles-at p m.roles role d l))
          (bound_members-Bound p d d.members refl
            (each_role-at (check_role_on (agent_ids p.agents)) m.roles role d on l)
            (each_role-at (check_bound p) m.roles role d (roles_bind m full) l))

    by_machine :
        (o : Option MachineDef)
        → check_machine p o ≡ none
        → record_of p o ≡ some r
        → Bound p (members_of r.bindings role)
    by_machine none c e = cc
    by_machine (some m) c e =
        let same : record { version = 1; machine_def = m; bindings = bindings_of p m } ≡ r = cc in
        subst
          (λ (x : MachineRecord).
            lookup role x.machine_def.roles ≡ some d → Bound p (members_of x.bindings role))
          same (role_bound m c) l
