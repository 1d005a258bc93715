-- ===== src/Service/Paging.antt =====
-- A caller's view of a realm with a page of its log (src/bearpit/realmtools/machine_service.py,
-- `state`).
use bearpit.Base.{
  ℕ, zero, suc, ◌-◌, max, min, String, ◌||◌, List, [], ◌∷◌, Option, none, some, if◌then◌else◌, leb,
  length, drop,
}
use bearpit.Machine.Decl.{MachineDef}
use bearpit.Machine.State.{Bindings}
use bearpit.Machine.Rows.{Payload}
use bearpit.Machine.View.{View, view, log_row}
use bearpit.Service.Chronicle.{Chronicle, GameEvent, game_events}
use bearpit.Service.Load.{Live, Loaded, nothing, live, damaged, Damage, MachineService, get}
use bearpit.Service.Calls.{Identity}

abbrev pub log_limit_max : ℕ
log_limit_max = 500

-- A limit below 1 counts as 1.
abbrev pub clamp : ℕ → ℕ
clamp log_limit = max 1 (min log_limit log_limit_max)

-- A row of the log, with the id of its event.
abbrev pub LogRow : Type 0
LogRow = ℕ × Payload

-- The rows that were read, and the id at which the next page begins.
abbrev pub Page : Type 0
Page = List LogRow × ℕ

abbrev pub add_row : LogRow → Page → Page
add_row row page = (row ∷ page.0, page.1)

module _ (defn : MachineDef) (bindings : Bindings) (caller : String) (head : ℕ) where
  -- One event: `room` is how many rows the page still takes, or `none` for the first, unpaged
  -- call; `rest` goes on with the events after it.
  abbrev pub take_row : Option Payload → ℕ → Option ℕ → (Option ℕ → Page) → Page
  take_row none id room rest = rest room
  take_row (some p) id none rest = add_row (id, p) (rest none)
  take_row (some p) id (some zero) rest = add_row (id, p) (rest (some zero))
  take_row (some p) id (some (suc zero)) rest = ((id, p) ∷ [], id)
  take_row (some p) id (some (suc (suc room))) rest = add_row (id, p) (rest (some (suc room)))

  -- The loop over the events; a page that is full ends it.
  unfoldable pub scan_log : List GameEvent → ℕ → Option ℕ → Page
  scan_log [] last room = ([], last)
  scan_log (e ∷ es) last room =
      if leb e.id last || leb e.id head
      then scan_log es last room
      else take_row (log_row defn bindings e.payload caller) e.id room (λ r. scan_log es e.id r)

-- `rows[-log_limit:]`
abbrev pub tail_rows : ℕ → List LogRow → List LogRow
tail_rows limit rows = drop (length rows - limit) rows

-- The first call scans everything from the head and keeps the last rows; a later call scans on
-- from `since` until its page is full.
abbrev pub log_page : Live → String → ℕ → Option ℕ → List GameEvent → Page
log_page l caller limit none events =
    let page =
      scan_log l.defn l.bindings caller l.machine_event_id events l.machine_event_id none in
    (tail_rows limit page.0, page.1)
log_page l caller limit (some since) events =
    scan_log l.defn l.bindings caller l.machine_event_id events since (some limit)

pub record StateAnswer : Type 0 where
  pub shown_view : View
  pub log : List LogRow
  pub next_since : ℕ

pub data StateReply : Type 0 where
  answered : StateAnswer → StateReply
  none_declared : StateReply
  not_loaded : Damage → StateReply

abbrev pub answer_page : Live → String → Page → StateReply
answer_page l caller page = answered (record {
  shown_view = view l.defn l.bindings l.state caller;
  log = page.0;
  next_since = page.1;
})

abbrev pub state_of : Identity → Option ℕ → ℕ → Loaded → Option Chronicle → StateReply
state_of who since log_limit nothing chron = none_declared
state_of who since log_limit (damaged d) chron = not_loaded d
state_of who since log_limit (live l) none = none_declared
state_of who since log_limit (live l) (some chron) =
    answer_page l who.agent_id
      (log_page l who.agent_id (clamp log_limit) since (game_events who.realm_id chron))

unfoldable pub state : Identity → Option ℕ → ℕ → MachineService → StateReply × MachineService
unfolding scan_log
state who since log_limit svc =
    let found = get who.realm_id svc in
    (state_of who since log_limit found.0 found.1.chron, found.1)
