-- ===== src/Service/Escrows.antt =====
-- The escrow rounds that a call looks up before it asks the engine
-- (src/bearpit/realmtools/machine_service.py, `_escrow_for`).
use bearpit.Base.{String, List, [], ◌∷◌, ◌++◌, Option, none, some, if◌then◌else◌}
use bearpit.Base.Dict.{Dict, lookup, has_key, insert}
use bearpit.Base.StrSet.{StrSet}
use bearpit.Value.{Value, dict, get_or_null, py_str}
use bearpit.Machine.Decl.{MachineDef, Guard, GuardName, TransitionDef, WakeRule}
use bearpit.Machine.State.{MachineState, Ctx, resolve}
use bearpit.Machine.Act.{act_ctx}
use bearpit.Service.Load.{Live}

-- Which agents have sealed in a realm's round, as the escrow service answers it.
abbrev pub EscrowLookup : Type 0
EscrowLookup = String → String → StrSet

abbrev pub guards_of : Option TransitionDef → List Guard
guards_of none = []
guards_of (some t) = t.guard

abbrev pub rule_guards : List WakeRule → List Guard
rule_guards [] = []
rule_guards (w ∷ ws) = w.when ++ (w.unless ++ rule_guards ws)

abbrev pub named_transition : MachineDef → Option String → Option TransitionDef
named_transition defn none = none
named_transition defn (some name) = lookup name defn.transitions

abbrev pub fetch : (String → StrSet) → String → Dict StrSet → Dict StrSet
fetch ask rid out = if has_key rid out then out else insert rid (ask rid) out

abbrev pub fetch_round :
    (String → StrSet) → GuardName → Value → Ctx → MachineState → Dict StrSet → Dict StrSet
fetch_round ask GuardName.escrow_complete (dict a) ctx state out =
    fetch ask (py_str (resolve (get_or_null "round" a) ctx state)) out
fetch_round ask _ arg ctx state out = out

unfoldable pub fetch_rounds :
    (String → StrSet) → List Guard → Ctx → MachineState → Dict StrSet → Dict StrSet
fetch_rounds ask [] ctx state out = out
fetch_rounds ask (g ∷ gs) ctx state out =
    fetch_rounds ask gs ctx state (fetch_round ask g.name g.arg ctx state out)

unfoldable pub escrow_for :
    Option EscrowLookup → Live → String → Option String → String → Dict Value → Dict StrSet
unfolding fetch_rounds
escrow_for none live realm transition caller args = []
escrow_for (some ask) live realm transition caller args =
    fetch_rounds (ask realm)
      (guards_of (named_transition live.defn transition) ++ rule_guards live.defn.wake)
      (act_ctx caller args []) live.state []
