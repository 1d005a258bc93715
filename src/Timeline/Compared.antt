-- ===== src/Timeline/Compared.antt =====
-- Where two views can be compared (src/bearpit/realmtools/timeline.py, `diff_views`).
use bearpit.Base.{
  String, Bool, true, false, ◌||◌, ◌≡◌, List, [], ◌∷◌, ◌++◌, Option, some, All, if◌then◌else◌,
}
use bearpit.Base.Dict.{Dict, lookup, keys}
use bearpit.Base.Outcome.{Py, ok, Returns, Returns-if, Returns-bind}
use bearpit.Machine.Decl.{MachineDef, DataDef, is_set_type}
use bearpit.Machine.State.{is_owner}
use bearpit.Machine.View.{View, Shown}
use bearpit.Timeline.Changes.{
  Change, all_names, key_changes, data_changes, state_change, actor_change, diff_views,
}

-- A key that holds a set, or entries by owner, compares with whatever stood there.
pub key_changes-Returns :
    (d : DataDef) (key : String) (b a : Option Shown)
    → (is_set_type d.type || is_owner d.visibility) ≡ true
    → Returns (key_changes (some d) key b a)
key_changes-Returns d key b a kind =
    Returns-if _ (ok []) _ tt (by_kind (is_set_type d.type) (is_owner d.visibility) kind _ _ _)
  where
    by_kind :
        (x y : Bool)
        → (x || y) ≡ true
        → (v w : List Change) (rest : Py (List Change))
        → Returns (if x then ok v else if y then ok w else rest)
    by_kind true y k v w rest = tt
    by_kind false true k v w rest = tt
    by_kind false false k v w rest = cc

data_changes-Returns :
    (defn : MachineDef) (b a : Dict Shown) (names : List String)
    → All
        (λ key. Returns (key_changes (lookup key defn.data_defs) key (lookup key b) (lookup key a)))
        names
    → Returns (data_changes defn b a names)
data_changes-Returns defn b a [] h = tt
data_changes-Returns defn b a (key ∷ names) h =
    Returns-bind (key_changes (lookup key defn.data_defs) key (lookup key b) (lookup key a)) _ h.0
      (λ here _.
        Returns-bind (data_changes defn b a names) (λ others. ok (here ++ others))
          (data_changes-Returns defn b a names h.1) (λ others _. tt))

-- Two views compare where each of their keys does.
pub diff_views-Returns :
    (defn : MachineDef) (b a : View)
    → All
        (λ key.
          Returns
            (key_changes (lookup key defn.data_defs) key (lookup key b.shown) (lookup key a.shown)))
        (all_names (keys b.shown) (keys a.shown))
    → Returns (diff_views defn b a)
unfolding diff_views
diff_views-Returns defn b a h =
    Returns-bind (data_changes defn b.shown a.shown (all_names (keys b.shown) (keys a.shown)))
      (λ changes. ok (state_change b a ++ (actor_change b a ++ changes)))
      (data_changes-Returns defn b.shown a.shown _ h) (λ changes _. tt)
