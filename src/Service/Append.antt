-- ===== src/Service/Append.antt =====
-- Appending an event and loading again (src/bearpit/realmtools/machine_service.py, `_load`;
-- src/bearpit/chronicle/chronicle.py, `append_event`).
use bearpit.Base.{
  ℕ, String, ◌≡◌, refl, sym, ap, ◌∙◌, Bool, true, false, List, [], ◌∷◌, ◌++◌, map, Option, none,
  some, if◌then◌else◌, eqb, ltb, ◌==◌, ◌<◌, select, All, arith, Bool-cases, inl, inr,
}
use bearpit.Base.{==_refl}
use mathlib.Core.Path.{subst}
use bearpit.Machine.Decl.{MachineDef}
use bearpit.Machine.State.{Bindings, MachineState, initial_state}
use bearpit.Machine.Rows.{Payload}
use bearpit.Machine.Replay.{
  Replayed, reached, failed_at, Walk, go_on, conclude_replay, replay_step, replay_steps, replay,
}
use bearpit.Machine.Validate.{Verdict, passes, refuses, crashes}
use bearpit.Machine.Authority.{validate}
use bearpit.Service.Chronicle.{
  Chronicle, Body, machine, game, of_kind, Head, GameEvent, add_head, add_game, machine_events,
  game_events, append_event, Fresh,
}
use bearpit.Service.Load.{
  Live, nothing, live, latest, as_event, games_after, as_live, replay_valid, load_head, load_from,
  machine_version,
}

abbrev pub and_then : Replayed → (MachineState → Replayed) → Replayed
and_then (failed_at e) f = failed_at e
and_then (reached s) f = f s

conclude_replay-next :
    (s n : MachineState) (w : Walk) → conclude_replay s (n ∷ w.0, w.1) ≡ conclude_replay n w
conclude_replay-next s n (states, none) = refl
conclude_replay-next s n (states, some e) = refl

module _ (defn : MachineDef) (bindings : Bindings) where
  abbrev run : List (ℕ × Payload) → MachineState → Replayed
  run events s = conclude_replay s (replay_steps defn bindings events s)

  run-last :
      (s : MachineState) (r : Replayed)
      → conclude_replay s (go_on r (replay_steps defn bindings [])) ≡ r
  unfolding replay_steps
  run-last s (failed_at e) = refl
  run-last s (reached n) = refl

  -- Replay reads the events one after the other.
  run-append :
      (events : List (ℕ × Payload)) (ts : ℕ) (p : Payload) (s : MachineState)
      → run (events ++ ((ts, p) ∷ [])) s ≡ and_then (run events s) (replay_step defn bindings ts p)
  unfolding replay_steps
  run-append [] ts p s = run-last s (replay_step defn bindings ts p s)
  run-append ((t, q) ∷ events) ts p s =
      by_step (replay_step defn bindings t q s) (run-append events ts p)
    where
      by_step :
          (r : Replayed)
          → ((n : MachineState)
              → run (events ++ ((ts, p) ∷ [])) n
                ≡ and_then (run events n) (replay_step defn bindings ts p))
          → conclude_replay s (go_on r (replay_steps defn bindings (events ++ ((ts, p) ∷ []))))
            ≡ and_then
                (conclude_replay s (go_on r (replay_steps defn bindings events)))
                (replay_step defn bindings ts p)
      by_step (failed_at e) h = refl
      by_step (reached n) h =
          conclude_replay-next s n (replay_steps defn bindings (events ++ ((ts, p) ∷ [])) n)
          ∙ h n
          ∙ ap (λ x. and_then x (replay_step defn bindings ts p))
              (sym (conclude_replay-next s n (replay_steps defn bindings events n)))

  pub replay-append :
      (events : List (ℕ × Payload)) (ts : ℕ) (p : Payload) (start : ℕ)
      → replay defn bindings (events ++ ((ts, p) ∷ [])) start
        ≡ and_then (replay defn bindings events start) (replay_step defn bindings ts p)
  unfolding replay
  replay-append events ts p start = run-append events ts p (initial_state defn bindings start)

select-append {ℓ} :
    {A : Type ℓ} (p : A → Bool) (xs ys : List A) → select p (xs ++ ys) ≡ select p xs ++ select p ys
select-append p [] ys = refl
select-append p (x ∷ xs) ys = elim (Bool-cases (p x)) [
  | inl e ↦ rw e (ap (λ l. x ∷ l) (select-append p xs ys))
  | inr e ↦ rw e (select-append p xs ys)
]

map-append {ℓ κ} :
    {A : Type ℓ} {B : Type κ} (f : A → B) (xs ys : List A) → map f (xs ++ ys) ≡ map f xs ++ map f ys
map-append f [] ys = refl
map-append f (x ∷ xs) ys = ap (λ l. f x ∷ l) (map-append f xs ys)

module _ (id ts : ℕ) (realm : String) (p : Payload) where
  abbrev pub new_game : GameEvent
  new_game = record { id = id; ts_ms = ts; payload = p }

  -- A GAME event adds no head, and is the last of its realm's events.
  machine_events-append :
      (r : String) (chron : Chronicle)
      → machine_events r (append_event chron id ts realm (game p)) ≡ machine_events r chron
  machine_events-append r [] = ground arith
  machine_events-append r (e ∷ es) = by_body e.body (machine_events-append r es)
    where
      by_body :
          (b : Body)
          → machine_events r (append_event es id ts realm (game p)) ≡ machine_events r es
          → (if e.realm_id == r
              then add_head e.id e.ts_ms b (machine_events r (append_event es id ts realm (game p)))
              else machine_events r (append_event es id ts realm (game p)))
            ≡ (if e.realm_id == r
                then add_head e.id e.ts_ms b (machine_events r es)
                else machine_events r es)
      by_body b h = rw h refl

  game_events-append :
      (r : String) (chron : Chronicle)
      → game_events r (append_event chron id ts realm (game p))
        ≡ game_events r chron ++ (if realm == r then new_game ∷ [] else [])
  game_events-append r [] = refl
  game_events-append r (e ∷ es) = rw (game_events-append r es) (by_body e.body (e.realm_id == r))
    where
      by_body :
          (b : Body) (same : Bool)
          → (if same
              then add_game e.id e.ts_ms b
                  (game_events r es ++ (if realm == r then new_game ∷ [] else []))
              else game_events r es ++ (if realm == r then new_game ∷ [] else []))
            ≡ (if same then add_game e.id e.ts_ms b (game_events r es) else game_events r es)
              ++ (if realm == r then new_game ∷ [] else [])
      by_body b false = refl
      by_body (machine m) true = refl
      by_body (game q) true = refl
      by_body (of_kind k) true = refl

  latest-All : (P : Head → Type 0) (hs : List Head) (h : Head) → All P hs → latest hs ≡ some h → P h
  latest-All P [] h a e = cc
  latest-All P (x ∷ []) h a e = subst P (cc) a.0
  latest-All P (x ∷ y ∷ hs) h a e = latest-All P (y ∷ hs) h a.1 e

  heads-Fresh :
      (r : String) (chron : Chronicle)
      → Fresh id chron
      → All (λ (h : Head). h.id < id) (machine_events r chron)
  heads-Fresh r [] f = tt
  heads-Fresh r (e ∷ es) f = by_body e.body (e.realm_id == r) (heads-Fresh r es f.1)
    where
      by_body :
          (b : Body) (same : Bool)
          → All (λ (h : Head). h.id < id) (machine_events r es)
          → All
              (λ (h : Head). h.id < id)
              (if same then add_head e.id e.ts_ms b (machine_events r es) else machine_events r es)
      by_body b false a = a
      by_body (machine m) true a = (f.0, a)
      by_body (game q) true a = a
      by_body (of_kind k) true a = a

  append_nil {ℓ} : {A : Type ℓ} (xs : List A) → xs ++ [] ≡ xs
  append_nil [] = refl
  append_nil (x ∷ xs) = ap (λ l. x ∷ l) (append_nil xs)

  games_after-append :
      (head : ℕ) (chron : Chronicle)
      → head < id
      → games_after head realm (append_event chron id ts realm (game p))
        ≡ games_after head realm chron ++ ((ts, p) ∷ [])
  games_after-append head chron h =
      let q = λ (g : GameEvent). ltb head g.id in
      let later : ltb head id ≡ true = ground (arith, h) in
      ap (λ l. map as_event (select q l)) (game_events-append realm chron)
      ∙ ap (λ l. map as_event (select q (game_events realm chron ++ l)))
          (ap (λ b. if b then new_game ∷ [] else []) (==_refl realm))
      ∙ ap (map as_event) (select-append q (game_events realm chron) (new_game ∷ []))
      ∙ ap
          (λ b.
            map as_event (select q (game_events realm chron) ++ (if b then new_game ∷ [] else [])))
          later
      ∙ map-append as_event (select q (game_events realm chron)) (new_game ∷ [])

  -- Another realm does not notice.
  pub load-append_other :
      (r : String) (chron : Chronicle)
      → (realm == r) ≡ false
      → load_from r (append_event chron id ts realm (game p)) ≡ load_from r chron
  load-append_other r chron d =
      ap (load_head r (append_event chron id ts realm (game p)))
        (ap latest (machine_events-append r chron))
      ∙ by_head (latest (machine_events r chron))
    where
      games :
          (head : ℕ)
          → games_after head r (append_event chron id ts realm (game p)) ≡ games_after head r chron
      games head =
          ap (λ l. map as_event (select (λ (g : GameEvent). ltb head g.id) l))
            (game_events-append r chron
              ∙ ap (λ b. game_events r chron ++ (if b then new_game ∷ [] else [])) d
              ∙ append_nil (game_events r chron))

      by_head :
          (o : Option Head)
          → load_head r (append_event chron id ts realm (game p)) o ≡ load_head r chron o
      by_head none = refl
      by_head (some h) =
          ap
            (λ l.
              if eqb h.payload.version machine_version
              then replay_valid h (validate h.payload.machine_def) l
              else nothing)
            (games h.id)

  -- A realm that loads, and whose state the new event takes to another one, loads to that one.
  pub load-append :
      (chron : Chronicle) (l : Live) (s : MachineState)
      → Fresh id chron
      → load_from realm chron ≡ live l
      → replay_step l.defn l.bindings ts p l.state ≡ reached s
      → load_from realm (append_event chron id ts realm (game p)) ≡ live (record l { state = s })
  load-append chron l s f e step =
      ap (load_head realm (append_event chron id ts realm (game p)))
        (ap latest (machine_events-append realm chron))
      ∙ by_head (latest (machine_events realm chron)) refl e
    where
      by_replay :
          (h : Head) (x : Replayed)
          → as_live h x ≡ live l
          → as_live h (and_then x (replay_step h.payload.machine_def h.payload.bindings ts p))
            ≡ live (record l { state = s })
      by_replay h (failed_at err) e = cc
      by_replay h (reached now) e =
          let same : (record {
            defn = h.payload.machine_def;
            bindings = h.payload.bindings;
            state = now;
            machine_event_id = h.id;
          })
              ≡ l =
            cc in
          ap (as_live h) (
            subst (λ (k : Live). replay_step k.defn k.bindings ts p k.state ≡ reached s) (sym same)
              step)
          ∙ ap (λ (k : Live). live (record k { state = s })) same

      by_version :
          (h : Head) (b : Bool) (v : Verdict)
          → h.id < id
          → (if b then replay_valid h v (games_after h.id realm chron) else nothing) ≡ live l
          → (if b
              then replay_valid h v
                  (games_after h.id realm (append_event chron id ts realm (game p)))
              else nothing)
            ≡ live (record l { state = s })
      by_version h false v n e = cc
      by_version h true (refuses r) n e = cc
      by_version h true (crashes r) n e = cc
      by_version h true passes n e =
          ap (λ g. as_live h (replay h.payload.machine_def h.payload.bindings g h.ts_ms))
            (games_after-append h.id chron n)
          ∙ ap (as_live h) (
              replay-append h.payload.machine_def h.payload.bindings (games_after h.id realm chron)
                ts p h.ts_ms)
          ∙ by_replay h _ e

      by_head :
          (o : Option Head)
          → latest (machine_events realm chron) ≡ o
          → load_head realm chron o ≡ live l
          → load_head realm (append_event chron id ts realm (game p)) o
            ≡ live (record l { state = s })
      by_head none q e = cc
      by_head (some h) q e =
          by_version h (eqb h.payload.version machine_version) (validate h.payload.machine_def)
            (latest-All (λ (h : Head). h.id < id) _ h (heads-Fresh realm chron f) q) e

-- The declaration of a realm that loads passed the launch checks.
pub load-valid :
    (realm : String) (chron : Chronicle) (l : Live)
    → load_from realm chron ≡ live l
    → validate l.defn ≡ passes
load-valid realm chron l e = by_head (latest (machine_events realm chron)) e
  where
    by_replay :
        (h : Head) (x : Replayed)
        → validate h.payload.machine_def ≡ passes
        → as_live h x ≡ live l
        → validate l.defn ≡ passes
    by_replay h (failed_at err) v e = cc
    by_replay h (reached s) v e =
        let same : h.payload.machine_def ≡ l.defn = cc in subst (λ d. validate d ≡ passes) same v

    by_version :
        (h : Head) (b : Bool) (v : Verdict)
        → validate h.payload.machine_def ≡ v
        → (if b then replay_valid h v (games_after h.id realm chron) else nothing) ≡ live l
        → validate l.defn ≡ passes
    by_version h false v q e = cc
    by_version h true (refuses r) q e = cc
    by_version h true (crashes r) q e = cc
    by_version h true passes q e = by_replay h _ q e

    by_head : (o : Option Head) → load_head realm chron o ≡ live l → validate l.defn ≡ passes
    by_head none e = cc
    by_head (some h) e = by_version h _ (validate h.payload.machine_def) refl e
