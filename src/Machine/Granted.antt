-- ===== src/Machine/Granted.antt =====
-- What a granted act and a granted write come to, told without the engine's own helpers
-- (src/bearpit/realmtools/machine.py, `act` and `set_value`).
use bearpit.Base.{
  String, ◌≡◌, Bool, true, false, not, ◌&&◌, ◌||◌, Option, none, some, List, [], ◌==◌, All, any,
  contains, if◌then◌else◌, is_some, or_else,
}
use bearpit.Base.Dict.{Dict, lookup}
use bearpit.Base.Outcome.{ok}
use bearpit.Value.{Value}
use bearpit.Machine.Decl.{MachineDef, TransitionDef, DataDef, is_set_type}
use bearpit.Machine.State.{Bindings, MachineState, Ctx, is_owner, is_referee}
use bearpit.Machine.Pointer.{stepped}
use bearpit.Machine.Guards.{check_guard}
use bearpit.Machine.Effects.{apply_effects}
use bearpit.Machine.Rows.{act_row, set_row, Outcome}
use bearpit.Machine.Act.{ActCall, SetCall, compute_wakes, owner_reason}

-- The agent is bound to the role.
abbrev pub plays : Bindings → String → String → Bool
plays bindings role agent = any (λ e. e.0 == role && contains agent e.1) bindings.members

module _ (defn : MachineDef) (bindings : Bindings) (s : MachineState) (c : ActCall) where
  abbrev ctx : Ctx
  ctx = record { caller = some c.caller; args = c.args; escrow = c.escrow }

  -- What was true before the act, and all that it came to.
  pub record IsFired (o : Outcome) : Type 0 where
    pub t : TransitionDef
    pub declared : lookup c.transition defn.transitions ≡ some t
    pub from_here : contains "any" t.from || contains s.state t.from ≡ true
    pub by_role : plays bindings t.by c.caller ≡ true
    pub guarded : All (λ g. check_guard g bindings s ctx ≡ ok true) t.guard
    pub applied : MachineState
    pub effects : apply_effects t.effects defn bindings s ctx c.now_ms ≡ ok (stepped applied)
    pub moves : o.state ≡ (if t.to == "same" then applied else record applied { state = t.to })
    pub wakes : List String × List String
    pub woken : compute_wakes defn bindings s o.state c.escrow ≡ ok wakes
    pub row :
        o.payload
        ≡ act_row (record {
          transition = c.transition;
          caller = c.caller;
          args = c.args;
          from = s.state;
          to = o.state.state;
          actor = o.state.actor;
          log = t.log;
          wake = wakes.0;
          wake_actor = wakes.1;
        })

-- The entry of an owner, and whether it is open to all.
abbrev pub entry_at : String → String → MachineState → Option Value
entry_at key owner s = lookup owner (or_else (lookup key s.owner_data) [])

abbrev pub open_at : String → String → MachineState → Bool
open_at key owner s = contains owner (or_else (lookup key s.revealed) [])

-- All that a write changes: the value of the key, or the entry of the owner, which is closed.
abbrev pub Writes : String → Value → Option String → MachineState → MachineState → Type 0
Writes key v none s new =
    ((k : String) → lookup k new.values ≡ (if key == k then some v else lookup k s.values))
    × (record new { values = s.values } ≡ s)
Writes key v (some o) s new =
    ((k i : String) → entry_at k i new ≡ (if key == k && o == i then some v else entry_at k i s))
    × ((k i : String) → open_at k i new ≡ (not (key == k && o == i) && open_at k i s))
    × (record new { owner_data = s.owner_data; revealed = s.revealed } ≡ s)

module _ (defn : MachineDef) (bindings : Bindings) (s : MachineState) (c : SetCall) where
  -- What was true before the write, and all that it came to.
  pub record Stored (o : Outcome) : Type 0 where
    pub d : DataDef
    pub by_referee : is_referee defn bindings c.caller ≡ true
    pub declared : lookup c.key defn.data_defs ≡ some d
    pub no_set : is_set_type d.type ≡ false
    pub owner_fits : is_some c.owner ≡ is_owner d.visibility
    pub owner_known : owner_reason defn bindings c.owner ≡ ok none
    pub writes : Writes c.key c.value c.owner s o.state
    pub wakes : List String × List String
    pub woken : compute_wakes defn bindings s o.state c.escrow ≡ ok wakes
    pub row :
        o.payload
        ≡ set_row (record {
          key = c.key;
          owner = c.owner;
          value = c.value;
          caller = c.caller;
          log = d.visibility;
          wake = wakes.0;
          wake_actor = wakes.1;
        })
