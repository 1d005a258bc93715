-- ===== src/Machine/Secrecy.antt =====
-- A write against what others are shown (src/bearpit/realmtools/machine.py, `set_value` against `view`).
use bearpit.Base.{
  String, ◌≡◌, refl, sym, ◌∙◌, ap, Bool, true, false, Option, none, some, [], ◌∷◌, arith, ◌==◌,
  eq_iff, or_else, Bool-cases, if◌then◌else◌, ◌==◌, ==_refl, inl, inr, contains,
}
use mathlib.Core.Path.{subst}
use mathlib.Core.Bool.{true≢false}
use bearpit.Base.Dict.{Dict, lookup, insert, lookup-insert, UniqueKeys, lookup-rest}
use bearpit.Base.StrSet.{StrSet, contains-discard, discard}
use bearpit.Base.Outcome.{ok}
use bearpit.Value.{Value}
use bearpit.Machine.Decl.{MachineDef, DataDef, Visibility, DataType}
use bearpit.Machine.State.{Bindings, MachineState, is_referee}
use bearpit.Machine.Rows.{Outcome, outcome}
use bearpit.Machine.View.{
  View, Shown, owned, plain_at, owner_entries, shown_at, add_shown, shown_data, view, is_public,
  same_owner,
}
use bearpit.Machine.Act.{SetCall, written, set_value}
use bearpit.Machine.Writes.{set_value_granted}

-- A view is made of the entries of the declared keys.
shown_data-agree :
    (ds : Dict DataDef) (ref : Bool) (caller : String) (s u : MachineState)
    → UniqueKeys ds
    → ((k : String) (d : DataDef)
        → lookup k ds ≡ some d
        → shown_at d ref caller k s ≡ shown_at d ref caller k u)
    → shown_data ds ref caller s ≡ shown_data ds ref caller u
unfolding shown_data
shown_data-agree [] ref caller s u unique h = refl
shown_data-agree ((k, d) ∷ ds) ref caller s u unique h =
    ap (λ x. add_shown k x (shown_data ds ref caller s)) (h k d (ground (arith, ==_refl k)))
    ∙ ap (add_shown k (shown_at d ref caller k u)) (
        shown_data-agree ds ref caller s u unique.1
          (λ j e m. h j e (lookup-rest k j d e ds unique.0 m)))

-- Writing an entry that the caller may not read.
owner_entries-insert :
    (caller o : String) (open_to_all : StrSet) (v w : Value) (entries : Dict Value)
    → (o == caller) ≡ false
    → contains o open_to_all ≡ false
    → owner_entries false caller open_to_all (insert o v entries)
      ≡ owner_entries false caller open_to_all (insert o w entries)
unfolding owner_entries
owner_entries-insert caller o open_to_all v w [] n c = ground (arith, n, c)
owner_entries-insert caller o open_to_all v w ((i, x) ∷ d) n c =
    ground (arith, n, c, eq_iff i o, owner_entries-insert caller o open_to_all v w d n c)

module _ (caller : String) (s : MachineState) (key : String) (v w : Value) where
  abbrev SameEntry : DataDef → String → Option String → Type 0
  SameEntry d k o =
      shown_at d false caller k (written key v o s) ≡ shown_at d false caller k (written key w o s)

  owner-agree :
      (o k : String) (t : DataType) (x : Visibility)
      → (o == caller) ≡ false
      → SameEntry (record { visibility = x; type = t }) k (some o)
  owner-agree o k DataType.set x n = refl
  owner-agree o k DataType.value Visibility.public n = refl
  owner-agree o k DataType.value Visibility.referee n = refl
  owner-agree o k DataType.value Visibility.owner n =
      ap (λ d. some (owned d))
        (rw
          (
            lookup-insert key k (discard o (or_else (lookup key s.revealed) [])) s.revealed,
            lookup-insert key k (insert o v (or_else (lookup key s.owner_data) [])) s.owner_data,
            lookup-insert key k (insert o w (or_else (lookup key s.owner_data) [])) s.owner_data,
          )
          (entries-agree (key == k)))
    where
      entries-agree :
          (b : Bool)
          → owner_entries false caller
              (or_else
                (if b
                  then some (discard o (or_else (lookup key s.revealed) []))
                  else lookup k s.revealed)
                [])
              (or_else
                (if b
                  then some (insert o v (or_else (lookup key s.owner_data) []))
                  else lookup k s.owner_data)
                [])
            ≡ owner_entries false caller
                (or_else
                  (if b
                    then some (discard o (or_else (lookup key s.revealed) []))
                    else lookup k s.revealed)
                  [])
                (or_else
                  (if b
                    then some (insert o w (or_else (lookup key s.owner_data) []))
                    else lookup k s.owner_data)
                  [])
      entries-agree false = refl
      entries-agree true =
          owner_entries-insert caller o (discard o (or_else (lookup key s.revealed) [])) v w
            (or_else (lookup key s.owner_data) []) n
            (contains-discard o o (or_else (lookup key s.revealed) []) ∙ ground (arith, ==_refl o))

  other-value :
      (k : String)
      → (key == k) ≡ false
      → lookup k (insert key v s.values) ≡ lookup k (insert key w s.values)
  other-value k n =
      ground (arith, n, lookup-insert key k v s.values, lookup-insert key k w s.values)

  plain-agree :
      (k : String) (t : DataType) (x : Visibility)
      → (key ≡ k → is_public x ≡ false)
      → SameEntry (record { visibility = x; type = t }) k none
  plain-agree k DataType.set x hidden = refl
  plain-agree k DataType.value Visibility.owner hidden = refl
  plain-agree k DataType.value Visibility.referee hidden = refl
  plain-agree k DataType.value Visibility.public hidden = elim (Bool-cases (key == k)) [
    | inl e ↦ absurd (true≢false (hidden ((eq_iff key k).0 e)))
    | inr e ↦ ap plain_at (other-value k e)
  ]

-- A view with the data that a caller is shown.
abbrev shown_after : MachineState → Dict Shown → View
shown_after s data_shown = record {
  state = s.state;
  actor = s.actor;
  actor_since = s.actor_since;
  shown = data_shown;
}

-- Two granted writes that differ in the value, to a key that is not public and not to an entry of
-- the caller's own, leave a caller who is no referee with the same view, where the declaration has
-- each data key once: the view tells nothing about the value written.
pub set_value-secret :
    (defn : MachineDef) (bindings : Bindings) (s : MachineState) (c : SetCall) (w : Value)
    (caller : String) (o p : Outcome) (d : DataDef)
    → UniqueKeys defn.data_defs
    → is_referee defn bindings caller ≡ false
    → lookup c.key defn.data_defs ≡ some d
    → is_public d.visibility ≡ false
    → same_owner c.owner caller ≡ false
    → set_value defn bindings s c ≡ ok (outcome o)
    → set_value defn bindings s (record c { value = w }) ≡ ok (outcome p)
    → view defn bindings o.state caller ≡ view defn bindings p.state caller
unfolding view
set_value-secret defn bindings s c w caller o p d unique player declared hidden foreign h1 h2 =
    let g1 = set_value_granted defn bindings s c o h1 in
    let g2 = set_value_granted defn bindings s (record c { value = w }) p h2 in
    subst (λ (x : Outcome). view defn bindings x.state caller ≡ view defn bindings p.state caller)
      (sym g1.result)
      (subst
        (λ (x : Outcome).
          view defn bindings (written c.key c.value c.owner s) caller
          ≡ view defn bindings x.state caller)
        (sym g2.result) (views c.owner foreign))
  where
    same_def : (k : String) (e : DataDef) → c.key ≡ k → lookup k defn.data_defs ≡ some e → d ≡ e
    same_def k e q m = cc

    unread :
        (q : Option String)
        → same_owner q caller ≡ false
        → (k : String) (e : DataDef) → lookup k defn.data_defs ≡ some e
        → shown_at e false caller k (written c.key c.value q s)
          ≡ shown_at e false caller k (written c.key w q s)
    unread (some q) n k e m = owner-agree caller s c.key c.value w q k e.type e.visibility n
    unread none n k e m =
        plain-agree caller s c.key c.value w k e.type e.visibility
          (λ q. subst (λ (x : DataDef). is_public x.visibility ≡ false) (same_def k e q m) hidden)

    entries :
        (q : Option String)
        → same_owner q caller ≡ false
        → shown_data defn.data_defs
            (is_referee defn bindings caller)
            caller
            (written c.key c.value q s)
          ≡ shown_data defn.data_defs (is_referee defn bindings caller) caller (written c.key w q s)
    entries q n = rw player (
        shown_data-agree defn.data_defs false caller (written c.key c.value q s)
          (written c.key w q s) unique (unread q n))

    views :
        (q : Option String)
        → same_owner q caller ≡ false
        → view defn bindings (written c.key c.value q s) caller
          ≡ view defn bindings (written c.key w q s) caller
    views none n = ap (shown_after s) (entries none n)
    views (some q) n = ap (shown_after s) (entries (some q) n)
