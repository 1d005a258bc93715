-- ===== src/Machine/Rows.antt =====
-- The engine's answers and the payloads of the GAME events (src/bearpit/realmtools/machine.py,
-- `Rejection`, `Outcome`, `reject_payload` and the payload literals of `act` and `set_value`).
use bearpit.Base.{String, Option, List}
use bearpit.Base.Dict.{Dict}
use bearpit.Value.{Value}
use bearpit.Machine.Decl.{GuardName, Log, Visibility}
use bearpit.Machine.State.{MachineState}
use bearpit.Machine.Pointer.{Reason}

pub data Check : Type 0 where
  exists from by guard effect authority key owner : Check

pub data Detail : Type 0 where
  no_transition wrong_role undeclared set_key owner_required owner_forbidden : String → Detail
  unavailable : String → String → Detail
  failed : GuardName → Detail
  because : Reason → Detail
  referee_only : Detail

pub record Rejection : Type 0 where
  pub check : Check
  pub detail : Detail

pub record ActRow : Type 0 where
  pub transition : String
  pub caller : String
  pub args : Dict Value
  pub from : String
  pub to : String
  pub actor : Option String
  pub log : Log
  pub wake : List String
  pub wake_actor : List String

pub record SetRow : Type 0 where
  pub key : String
  pub owner : Option String
  pub value : Value
  pub caller : String
  pub log : Visibility
  pub wake : List String
  pub wake_actor : List String

-- What was tried: an act with its arguments, or a write, whose row has the key and the owner.
pub data Attempt : Type 0 where
  tried_act : String → Dict Value → Attempt
  tried_set : String → Option String → Attempt

-- A refused act (`reject_payload`) or a refused write.
pub record RejectRow : Type 0 where
  pub attempt : Attempt
  pub caller : String
  pub check : Check
  pub detail : Detail
  pub log : Log

-- The payload of a GAME event, with the `op` that it carries.
pub data Payload : Type 0 where
  act_row : ActRow → Payload
  set_row : SetRow → Payload
  reject_row : RejectRow → Payload
  other : String → Payload

pub record Outcome : Type 0 where
  pub state : MachineState
  pub payload : Payload

pub data Answer : Type 0 where
  rejected : Rejection → Answer
  outcome : Outcome → Answer
