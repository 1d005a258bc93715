-- ===== src/Service/Calls.antt =====
-- The service's operations on a realm's machine (src/bearpit/realmtools/machine_service.py, `act`,
-- `set` and `declaration`; src/bearpit/realmtools/machine.py, `reject_payload` and
-- `declaration_view`).
use bearpit.Base.{
  ℕ, String, Bool, true, false, List, [], ◌∷◌, Option, none, some, if◌then◌else◌, contains,
}
use bearpit.Base.Dict.{Dict, lookup, insert}
use bearpit.Base.Outcome.{Py, ok, raised, Exn}
use bearpit.Value.{Value, str, dict}
use bearpit.Machine.Decl.{MachineDef, TransitionDef, Log, RoleDef, Openness}
use bearpit.Machine.State.{Bindings, is_referee, members_of, text_or_null}
use bearpit.Machine.Rows.{
  tried_act, tried_set, Rejection, RejectRow, Payload, reject_row, Answer, rejected, outcome,
  Outcome,
}
use bearpit.Machine.Act.{ActCall, SetCall, act, set_value}
use bearpit.Machine.View.{View, view}
use bearpit.Service.Safety.{Hazard, refuse, first_of, args_object}
use bearpit.Service.Chronicle.{Chronicle, game, append_event}
use bearpit.Service.Load.{Live, Loaded, nothing, live, damaged, Damage, MachineService, get}
use bearpit.Service.Escrows.{EscrowLookup, escrow_for}

pub record Identity : Type 0 where
  pub realm_id : String
  pub agent_id : String

-- What a call takes from outside: the service's clock, and the time and the id that the chronicle
-- gives to a row appended by this call, the serialiser, the code points of the texts and the escrow.
pub record World : Type 0 where
  pub clock_ms : ℕ
  pub ts_ms : ℕ
  pub new_id : ℕ
  pub dumps : Value → Option ℕ
  pub points : String → List ℕ
  pub escrow_lookup : Option EscrowLookup

-- What the caller gets: an error answer, a view, or an exception.
pub data Reply : Type 0 where
  refused : Hazard → Reply
  no_machine : Reply
  was_rejected : Rejection → Reply
  shown : View → Reply
  load_failed : Damage → Reply
  engine_failed : Exn → Reply

abbrev pub log_of : Option TransitionDef → Log
log_of none = Log.public
log_of (some t) = t.log

-- `reject_payload`, for an act, and the payload of a refused write.
abbrev pub act_reject : Live → String → String → Dict Value → Rejection → RejectRow
act_reject l caller transition args r = record {
  attempt = tried_act transition args;
  caller = caller;
  check = r.check;
  detail = r.detail;
  log = log_of (lookup transition l.defn.transitions);
}

abbrev pub set_reject : String → String → Option String → Rejection → RejectRow
set_reject caller key owner r = record {
  attempt = tried_set key owner;
  caller = caller;
  check = r.check;
  detail = r.detail;
  log = Log.referee;
}

abbrev pub appended : World → String → Payload → Chronicle → Chronicle
appended w realm p chron = append_event chron w.new_id w.ts_ms realm (game p)

-- The row is appended first; then the live state moves.
abbrev pub after_append :
    World → Identity → Live → Chronicle → Outcome → MachineService → Reply × MachineService
after_append w who l chron o svc = (
  shown (view l.defn l.bindings o.state who.agent_id),
  record svc {
    chron = some (appended w who.realm_id o.payload chron);
    live = insert who.realm_id (record l { state = o.state }) svc.live;
  },
)

abbrev pub reject_call :
    World
    → Identity
    → Live
    → Chronicle
    → RejectRow
    → Rejection
    → MachineService
    → Reply × MachineService
reject_call w who l chron row r svc =
    (was_rejected r, record svc { chron = some (appended w who.realm_id (reject_row row) chron) })

-- What the service does with the engine's answer; `row` is the payload of a rejection.
abbrev pub conclude_call :
    World
    → Identity
    → Live
    → Chronicle
    → (Rejection → RejectRow)
    → Py Answer
    → MachineService
    → Reply × MachineService
conclude_call w who l chron row (raised e) svc = (engine_failed e, svc)
conclude_call w who l chron row (ok (rejected r)) svc = reject_call w who l chron (row r) r svc
conclude_call w who l chron row (ok (outcome o)) svc = after_append w who l chron o svc

abbrev pub engine_act : World → Identity → Live → String → Dict Value → ActCall
engine_act w who l transition args = record {
  caller = who.agent_id;
  transition = transition;
  args = args;
  escrow = escrow_for w.escrow_lookup l who.realm_id (some transition) who.agent_id args;
  now_ms = w.clock_ms;
}

abbrev pub engine_set : World → Identity → Live → String → Value → Option String → SetCall
engine_set w who l key value owner = record {
  caller = who.agent_id;
  key = key;
  value = value;
  owner = owner;
  escrow = escrow_for w.escrow_lookup l who.realm_id none who.agent_id [];
}

module _ (w : World) (who : Identity) where
  abbrev pub act_live :
      String → Dict Value → Live → Chronicle → MachineService → Reply × MachineService
  act_live transition args l chron svc =
      conclude_call w who l chron (act_reject l who.agent_id transition args)
        (act l.defn l.bindings l.state (engine_act w who l transition args)) svc

  abbrev pub set_live :
      String → Value → Option String → Live → Chronicle → MachineService → Reply × MachineService
  set_live key value owner l chron svc =
      conclude_call w who l chron (set_reject who.agent_id key owner)
        (set_value l.defn l.bindings l.state (engine_set w who l key value owner)) svc

  -- `live is None or self._chron is None`, once `_get` is done.
  abbrev pub with_live :
      (Live → Chronicle → MachineService → Reply × MachineService)
      → Loaded
      → Option Chronicle
      → MachineService
      → Reply × MachineService
  with_live run nothing chron svc = (no_machine, svc)
  with_live run (damaged d) chron svc = (load_failed d, svc)
  with_live run (live l) none svc = (no_machine, svc)
  with_live run (live l) (some chron) svc = run l chron svc

  abbrev pub got :
      (Live → Chronicle → MachineService → Reply × MachineService)
      → Loaded × MachineService
      → Reply × MachineService
  got run (loaded, svc) = with_live run loaded svc.chron svc

  abbrev pub unless_refused :
      Option Hazard
      → (Live → Chronicle → MachineService → Reply × MachineService)
      → MachineService
      → Reply × MachineService
  unless_refused (some why) run svc = (refused why, svc)
  unless_refused none run svc = got run (get who.realm_id svc)

  unfoldable pub serve_act : String → Dict Value → MachineService → Reply × MachineService
  serve_act transition args svc =
      unless_refused (refuse w.points w.dumps (dict (args_object args))) (act_live transition args)
        svc

  -- The key, the owner and the value are refused in this order.
  unfoldable pub serve_set :
      String → Value → Option String → MachineService → Reply × MachineService
  serve_set key value owner svc =
      unless_refused
        (first_of (refuse w.points w.dumps (str key))
          (first_of (refuse w.points w.dumps (text_or_null owner)) (refuse w.points w.dumps value)))
        (set_live key value owner) svc

-- A role as `declaration` shows it: the members of a hidden one only to itself and the referee.
pub data RoleView : Type 0 where
  as_declared : RoleDef → RoleView
  members_hidden : Openness → RoleView

abbrev pub sees_members : Bool → Bindings → String → String → Openness → Bool
sees_members ref bindings caller name Openness.public = true
sees_members ref bindings caller name Openness.hidden =
    if ref then true else contains caller (members_of bindings name)

abbrev pub role_view : Bool → RoleDef → RoleView
role_view true r = as_declared r
role_view false r = members_hidden r.visibility

abbrev pub role_views : Bool → Bindings → String → Dict RoleDef → Dict RoleView
role_views ref bindings caller [] = []
role_views ref bindings caller ((name, r) ∷ rs) =
    (name, role_view (sees_members ref bindings caller name r.visibility) r)
    ∷ role_views ref bindings caller rs

-- The other fields of the declaration are shown as they are.
pub record DeclarationView : Type 0 where
  pub roles : Dict RoleView
  pub rest : MachineDef

unfoldable pub declaration_view : MachineDef → Bindings → String → DeclarationView
declaration_view defn bindings caller = record {
  roles = role_views (is_referee defn bindings caller) bindings caller defn.roles;
  rest = record defn { roles = [] };
}

pub data DeclarationReply : Type 0 where
  declared : DeclarationView → DeclarationReply
  none_declared : DeclarationReply
  not_loaded : Damage → DeclarationReply

abbrev pub declaration_of : Identity → Loaded → DeclarationReply
declaration_of who nothing = none_declared
declaration_of who (damaged d) = not_loaded d
declaration_of who (live l) = declared (declaration_view l.defn l.bindings who.agent_id)

unfoldable pub declaration : Identity → MachineService → DeclarationReply × MachineService
unfolding declaration_view
declaration who svc = let found = get who.realm_id svc in (declaration_of who found.0, found.1)
