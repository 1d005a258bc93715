-- ===== src/Project/Spec.antt =====
-- The parts of a project that its checks read (src/bearpit/core/schema.py).
use bearpit.Base.{ℕ, String, Bool, List, Option}
use bearpit.Machine.Decl.{MachineDef}
use bearpit.Termination.{Condition}

pub data AgentRole : Type 0 where
  participant referee : AgentRole

pub data MechanicKind : Type 0 where
  sealed_submit state_machine : MechanicKind

pub data SkillSource : Type 0 where
  builtin local gh : SkillSource

pub data EgressTier : Type 0 where
  no_egress model_only allowlist open_egress : EgressTier

pub data TurnAdvance : Type 0 where
  one_message quiet_gap time_slice : TurnAdvance

pub data TurnEnforcement : Type 0 where
  physics law : TurnEnforcement

pub data TurnOrder : Type 0 where
  roster random : TurnOrder

pub record RefereePowers : Type 0 where
  pub read_dms : Bool
  pub inspect_private_fs : Bool
  pub verdict_ends_realm : Bool

pub record PrivateMessaging : Type 0 where
  pub enabled : Bool
  pub include_referee : Bool
  pub peers : List String
  pub max_per_round : ℕ

-- Money is in whole parts of a dollar.
pub record Budget : Type 0 where
  pub max_usd : Option ℕ
  pub max_tokens : Option ℕ

pub record ModelRef : Type 0 where
  pub input_cost_per_token : Option ℕ
  pub output_cost_per_token : Option ℕ

pub record AgentSpec : Type 0 where
  pub id : String
  pub role : AgentRole
  pub model : Option ModelRef
  pub budget : Budget
  pub tools : List String
  pub skills : List SkillSource
  pub private_messaging : PrivateMessaging
  pub rubric : Option String
  pub powers : Option RefereePowers

pub record TurnSettings : Type 0 where
  pub advance_by : TurnAdvance
  pub enforcement : TurnEnforcement
  pub order : TurnOrder

pub record Mechanic : Type 0 where
  pub kind : MechanicKind
  pub rule_set : Option String
  pub machine : Option MachineDef

-- `tools` are the names that are configured.
pub record ProjectSpec : Type 0 where
  pub network_egress : EgressTier
  pub termination : List Condition
  pub mechanics : List Mechanic
  pub turns : Option TurnSettings
  pub outputs : List String
  pub tools : List String

pub record Project : Type 0 where
  pub spec : ProjectSpec
  pub agents : List AgentSpec
