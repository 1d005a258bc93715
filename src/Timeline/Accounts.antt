-- ===== src/Timeline/Accounts.antt =====
-- What the changes at one key must say of two views, and that they do
-- (src/bearpit/realmtools/timeline.py, `diff_views`).
use bearpit.Base.{
  String, ◌≡◌, refl, ◌∙◌, ap, Bool, true, false, not, ◌&&◌, ◌||◌, Option, none, some, List, [], ◌∷◌,
  ◌==◌, any, contains, arith, eq_iff,
}
use bearpit.Base.Dict.{Dict, lookup, keys}
use bearpit.Base.StrSet.{union, of_list, sorted, insert_sorted, contains-union, contains-of_list}
use bearpit.Value.{Value, null, dict, Fields, end, field, get, value_eq}
use bearpit.Machine.Decl.{DataDef, is_set_type}
use bearpit.Machine.State.{value_or_null, is_owner}
use bearpit.Machine.View.{View, Shown, members, plain, owned}
use bearpit.Timeline.Changes.{
  Change, state_moved, actor_moved, set_moved, owner_moved, map_moved, value_moved, same_name,
  same_shown, is_object, field_names, all_names,
}

-- What stands at a key of a view: the member, the owner's entry, the object's entry, the value.
abbrev pub has_member : Option Shown → String → Bool
has_member (some (members x)) e = contains e x
has_member _ e = false

abbrev pub owner_value : Option Shown → String → Value
owner_value (some (owned d)) o = value_or_null (lookup o d)
owner_value _ o = null

abbrev pub object_entry : Value → String → Value
object_entry (dict d) e = value_or_null (get e d)
object_entry _ e = null

abbrev pub plain_value : Option Shown → Value
plain_value (some (plain v)) = v
plain_value _ = null

module _ (b a : View) where
  -- A change tells what is so.
  abbrev pub Sound : Change → Type 0
  Sound (state_moved x y) = (x ≡ b.state) × (y ≡ a.state) × ((x == y) ≡ false)
  Sound (actor_moved x y) = (x ≡ b.actor) × (y ≡ a.actor) × (same_name x y ≡ false)
  Sound (set_moved k add rem) =
      (e : String)
      → (contains e add
          ≡ (has_member (lookup k a.shown) e && not (has_member (lookup k b.shown) e)))
        × (contains e rem
            ≡ (has_member (lookup k b.shown) e && not (has_member (lookup k a.shown) e)))
  Sound (owner_moved k o v w) =
      (v ≡ owner_value (lookup k b.shown) o)
      × (w ≡ owner_value (lookup k a.shown) o)
      × (value_eq v w ≡ false)
  Sound (map_moved k e v w) =
      (v ≡ object_entry (plain_value (lookup k b.shown)) e)
      × (w ≡ object_entry (plain_value (lookup k a.shown)) e)
      × (value_eq v w ≡ false)
  Sound (value_moved k v w) =
      (v ≡ plain_value (lookup k b.shown))
      × (w ≡ plain_value (lookup k a.shown))
      × (same_shown (lookup k b.shown) (lookup k a.shown) ≡ false)

abbrev pub tells_set : String → Change → Bool
tells_set k (set_moved j add rem) = j == k
tells_set k _ = false

abbrev pub tells_owner : String → String → Change → Bool
tells_owner k o (owner_moved j i v w) = j == k && i == o
tells_owner k o _ = false

abbrev pub tells_entry : String → String → Change → Bool
tells_entry k e (map_moved j i v w) = j == k && i == e
tells_entry k e _ = false

abbrev pub tells_value : String → Change → Bool
tells_value k (value_moved j v w) = j == k
tells_value k _ = false

-- Every difference at a declared key is told, by the kind of its declaration.
pub record Complete (d : DataDef) (k : String) (x y : Option Shown) (cs : List Change)
    : Type 0 where
  pub sets : not (is_set_type d.type) || (same_shown x y || any (tells_set k) cs) ≡ true
  pub owners :
      (o : String)
      → is_set_type d.type
          || (not (is_owner d.visibility)
              || (same_shown x y
                  || (value_eq (owner_value x o) (owner_value y o) || any (tells_owner k o) cs)))
        ≡ true
  pub entries :
      (e : String)
      → is_set_type d.type
          || (is_owner d.visibility
              || (same_shown x y
                  || (value_eq (object_entry (plain_value x) e) (object_entry (plain_value y) e)
                      || any (tells_entry k e) cs)))
        ≡ true
  pub values :
      is_set_type d.type
        || (is_owner d.visibility
            || (same_shown x y
                || (is_object (plain_value x)
                    || (is_object (plain_value y) || any (tells_value k) cs))))
      ≡ true

contains-insert_sorted :
    (k a : String) (xs : List String) → contains k (insert_sorted a xs) ≡ (k == a || contains k xs)
contains-insert_sorted k a [] = refl
contains-insert_sorted k a (x ∷ xs) = ground (arith, contains-insert_sorted k a xs)

pub contains-sorted : (k : String) (xs : List String) → contains k (sorted xs) ≡ contains k xs
contains-sorted k [] = refl
contains-sorted k (x ∷ xs) =
    contains-insert_sorted k x (sorted xs) ∙ ap (λ b. k == x || b) (contains-sorted k xs)

pub contains-all_names :
    (k : String) (x y : List String) → contains k (all_names x y) ≡ (contains k x || contains k y)
contains-all_names k x y = ground (
  arith,
  contains-sorted k (union (of_list x) (of_list y)),
  contains-union k (of_list x) (of_list y),
  contains-of_list k x,
  contains-of_list k y,
)

pub lookup-absent :
    {V : Type 0} (k : String) (d : Dict V) → contains k (keys d) ≡ false → lookup k d ≡ none
lookup-absent k [] h = refl
lookup-absent k ((j, v) ∷ d) h = ground (arith, eq_iff k j, eq_iff j k, h, lookup-absent k d)

pub get-absent : (k : String) (d : Fields) → contains k (field_names d) ≡ false → get k d ≡ none
get-absent k end h = refl
get-absent k (field j v d) h = ground (arith, eq_iff k j, eq_iff j k, h, get-absent k d)
