-- ===== src/Project/Agents.antt =====
-- The checks of one agent and of the parts of a project on their own (src/bearpit/core/schema.py).
use bearpit.Base.{
  String, Bool, true, false, not, ◌&&◌, ◌||◌, List, [], ◌∷◌, Option, none, some, contains, is_some,
  is_empty, leb, eqb, ◌==◌, strip_prefix,
}
use Prim.Native.Char.{Char, code}
use bearpit.Project.Spec.{
  AgentRole, participant, referee, SkillSource, gh, EgressTier, allowlist, TurnAdvance, one_message,
  TurnEnforcement, physics, TurnOrder, roster, PrivateMessaging, RefereePowers, AgentSpec,
  TurnSettings, Mechanic, MechanicKind, state_machine,
}

-- Why a project is refused.
pub data Fault : Type 0 where
  skill_source egress side_channel duplicate_grant bad_id referee_only unpriced_budget : Fault
  turn_advance turn_enforcement turn_order unknown_ruleset machine_kind output_outside : Fault
  two_machines wake_and_turns no_terminal duplicate_agents two_referees orphan_tool : Fault
  quota_without_turns role_off_roster empty_role : Fault

-- A refusal, or `none`; the first of several counts.
abbrev pub Verdict : Type 0
Verdict = Option Fault

abbrev pub unless : Bool → Fault → Verdict
unless true r = none
unless false r = some r

infixr 30 ◌and_also◌
abbrev pub ◌and_also◌ : Verdict → Verdict → Verdict
(some r) and_also v = some r
none and_also v = v

abbrev pub each {ℓ} : {A : Type ℓ} → (A → Verdict) → List A → Verdict
each f [] = none
each f (x ∷ xs) = f x and_also each f xs

abbrev pub is_gh : SkillSource → Bool
is_gh gh = true
is_gh _ = false

abbrev pub check_skill : SkillSource → Verdict
check_skill s = unless (not (is_gh s)) Fault.skill_source

abbrev pub is_allowlist : EgressTier → Bool
is_allowlist allowlist = true
is_allowlist _ = false

abbrev pub check_egress : EgressTier → Verdict
check_egress e = unless (not (is_allowlist e)) Fault.egress

-- What asks for private messages asks for them to be enabled.
abbrev pub check_messaging : PrivateMessaging → Verdict
check_messaging m =
    unless (m.enabled || not m.include_referee && is_empty m.peers && eqb m.max_per_round 0)
      Fault.side_channel

abbrev pub no_duplicates : List String → Bool
no_duplicates [] = true
no_duplicates (x ∷ xs) = not (contains x xs) && no_duplicates xs

abbrev pub is_lower_alnum : Char → Bool
is_lower_alnum c = let n = code c in leb 97 n && leb n 122 || leb 48 n && leb n 57

abbrev pub id_rest : String → Bool
id_rest String.[] = true
id_rest (String.◌∷◌ c s) = (is_lower_alnum c || eqb (code c) 45) && id_rest s

-- `[a-z0-9][a-z0-9-]*`, the whole text.
unfoldable pub valid_id : String → Bool
valid_id String.[] = false
valid_id (String.◌∷◌ c s) = is_lower_alnum c && id_rest s

abbrev pub is_referee_agent : AgentRole → Bool
is_referee_agent referee = true
is_referee_agent participant = false

abbrev pub text_given : Option String → Bool
text_given none = false
text_given (some s) = not (s == "")

abbrev pub no_powers : RefereePowers
no_powers = record { read_dms = false; inspect_private_fs = false; verdict_ends_realm = false }

-- A referee without powers gets the default ones.
abbrev pub powers_of : AgentRole → Option RefereePowers → Option RefereePowers
powers_of referee none = some no_powers
powers_of _ p = p

abbrev pub with_powers : AgentSpec → AgentSpec
with_powers a = record a { powers = powers_of a.role a.powers }

abbrev pub check_referee_fields : AgentSpec → Verdict
check_referee_fields a =
    unless (is_referee_agent a.role || not (text_given a.rubric) && not (is_some a.powers))
      Fault.referee_only

-- A cap can be enforced only with the costs of an explicit model.
abbrev pub check_costs : AgentSpec → Verdict
check_costs a = elim a.model [
  | none ↦ none
  | some m ↦
      unless
        (not (is_some a.budget.max_usd || is_some a.budget.max_tokens)
          || is_some m.input_cost_per_token && is_some m.output_cost_per_token)
        Fault.unpriced_budget
]

unfoldable pub check_agent : AgentSpec → Verdict
unfolding valid_id
check_agent a =
    unless (no_duplicates a.tools) Fault.duplicate_grant
    and_also each check_skill a.skills
    and_also check_messaging a.private_messaging
    and_also unless (valid_id a.id) Fault.bad_id
    and_also check_referee_fields a
    and_also check_costs a

abbrev pub is_one_message : TurnAdvance → Bool
is_one_message one_message = true
is_one_message _ = false

abbrev pub is_physics : TurnEnforcement → Bool
is_physics physics = true
is_physics _ = false

abbrev pub is_roster : TurnOrder → Bool
is_roster roster = true
is_roster _ = false

abbrev pub check_turns : TurnSettings → Verdict
check_turns t =
    unless (is_one_message t.advance_by) Fault.turn_advance
    and_also unless (is_physics t.enforcement) Fault.turn_enforcement
    and_also unless (is_roster t.order) Fault.turn_order

abbrev pub builtin_rulesets : List String
builtin_rulesets =
    "dominance" ∷ "high-bid" ∷ "low-bid" ∷ "plurality" ∷ "majority" ∷ "unanimous" ∷ []

abbrev pub known_ruleset : Option String → Bool
known_ruleset none = true
known_ruleset (some r) =
    r == "" || is_some (strip_prefix "custom:" r) || contains r builtin_rulesets

abbrev pub is_machine : MechanicKind → Bool
is_machine state_machine = true
is_machine _ = false

abbrev pub same_bool : Bool → Bool → Bool
same_bool true b = b
same_bool false b = not b

abbrev pub check_mechanic : Mechanic → Verdict
check_mechanic m =
    unless (known_ruleset m.rule_set) Fault.unknown_ruleset
    and_also unless (same_bool (is_machine m.kind) (is_some m.machine)) Fault.machine_kind
