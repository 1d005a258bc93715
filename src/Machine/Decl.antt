-- ===== src/Machine/Decl.antt =====
-- The declaration of a game state machine (src/bearpit/core/machine.py): its types and the
-- helpers that the checks and the engine share. Literal strings of the closed vocabularies are
-- constructors; a name outside a vocabulary is `unknown`.
use bearpit.Base.{String, ℕ, Bool, true, false, Option, none, some, List}
use bearpit.Base.Dict.{Dict, lookup}
use bearpit.Value.{Value, dict, Fields, end}

pub data RoleMembers : Type 0 where
  referee participants : RoleMembers
  named : List String → RoleMembers

pub data Openness : Type 0 where
  public hidden : Openness

pub record RoleDef : Type 0 where
  pub members : RoleMembers
  pub visibility : Openness

pub data Visibility : Type 0 where
  public owner referee : Visibility

pub data DataType : Type 0 where
  value set : DataType

pub record DataDef : Type 0 where
  pub visibility : Visibility
  pub type : DataType

pub record PointerDef : Type 0 where
  pub over : String
  pub skip : List String

pub data GuardName : Type 0 where
  caller_is_actor caller_in caller_not_in data_equals data_present : GuardName
  data_set_empty data_set_full members_count escrow_complete : GuardName
  unknown : String → GuardName

pub data EffectName : Type 0 where
  advance_actor add_to remove_from reset set unset set_actor reveal : EffectName
  unknown : String → EffectName

pub record Guard : Type 0 where
  pub name : GuardName
  pub arg : Value

pub record Effect : Type 0 where
  pub name : EffectName
  pub arg : Value

-- Who reads the rows of a transition.
pub data Log : Type 0 where
  public referee : Log

pub record TransitionDef : Type 0 where
  pub from : List String
  pub to : String
  pub by : String
  pub guard : List Guard
  pub effects : List Effect
  pub log : Log

pub record WakeRule : Type 0 where
  pub role : String
  pub when : List Guard
  pub unless : List Guard
  pub after_s : Option ℕ

pub record MachineDef : Type 0 where
  pub roles : Dict RoleDef
  pub states : List String
  pub initial : String
  pub terminal : List String
  pub actor : Option PointerDef
  pub participant_effects : List EffectName
  pub referee_reads_commons : Bool
  pub data_defs : Dict DataDef
  pub transitions : Dict TransitionDef
  pub wake : List WakeRule

abbrev pub is_set_type : DataType → Bool
is_set_type DataType.set = true
is_set_type DataType.value = false

-- `MachineDef.is_set`
abbrev pub is_set : MachineDef → String → Bool
is_set defn key = elim (lookup key defn.data_defs) [ none ↦ false | some d ↦ is_set_type d.type ]

abbrev pub is_referee_members : RoleMembers → Bool
is_referee_members RoleMembers.referee = true
is_referee_members _ = false

-- `MachineDef.is_referee_role`
abbrev pub is_referee_role : MachineDef → String → Bool
is_referee_role defn role = elim (lookup role defn.roles) [
  | none ↦ false
  | some r ↦ is_referee_members r.members
]

-- `x if isinstance(x, dict) else {}`
abbrev pub fields_of : Value → Fields
fields_of (dict d) = d
fields_of _ = end
