-- ===== src/Timeline/Entries.antt =====
-- The changes at the entries of one key tell the differences of two views
-- (src/bearpit/realmtools/timeline.py, `diff_views`).
use bearpit.Base.{
  String, ◌≡◌, refl, ◌∙◌, Bool, true, false, not, ◌&&◌, ◌||◌, Option, none, some, List, [], ◌∷◌,
  ◌==◌, All, any, contains, if◌then◌else◌, arith, eq_iff, ==_refl, eqb,
}
use bearpit.Base.Dict.{Dict, lookup, keys}
use bearpit.Base.StrSet.{of_list, minus, sorted, contains-of_list, contains-minus}
use bearpit.Base.Outcome.{ok, raised, Holds, Holds-if, type_error, attribute_error}
use bearpit.Value.{
  Value, null, bool, int, negative, str, list, dict, nil, cons, Fields, end, get, value_eq,
}
use bearpit.Machine.State.{value_or_null}
use bearpit.Machine.View.{View, Shown, members, plain, owned}
use bearpit.Timeline.Changes.{
  Change, owner_moved, map_moved, members_in, owners_in, plain_in, mapping_of, field_names,
  all_names, owner_changes, map_changes, set_change, entry_changes,
}
use bearpit.Timeline.Accounts.{
  has_member, owner_value, object_entry, plain_value, Sound, tells_owner, tells_entry,
  contains-sorted, contains-all_names, lookup-absent, get-absent,
}

pub owner_value_lem :
    (x : Option Shown) (o : String) → value_or_null (lookup o (owners_in x)) ≡ owner_value x o
owner_value_lem none o = refl
owner_value_lem (some (members m)) o = refl
owner_value_lem (some (plain v)) o = refl
owner_value_lem (some (owned d)) o = refl

has_member_lem : (x : Option Shown) (e : String) → contains e (members_in x) ≡ has_member x e
has_member_lem none e = refl
has_member_lem (some (members m)) e = refl
has_member_lem (some (plain v)) e = refl
has_member_lem (some (owned d)) e = refl

pub plain_value_lem : (x : Option Shown) → plain_in x ≡ plain_value x
plain_value_lem none = refl
plain_value_lem (some (members m)) = refl
plain_value_lem (some (plain v)) = refl
plain_value_lem (some (owned d)) = refl

-- The entries that are asked for are those of the object, or none.
pub mapping_of-object_entry :
    (v : Value) (e : String)
    → Holds (λ d. value_or_null (get e d) ≡ object_entry v e) (mapping_of v)
mapping_of-object_entry (dict d) e = refl
mapping_of-object_entry null e = refl
mapping_of-object_entry (bool b) e = Holds-if _ b (raised type_error) (ok end) (λ t. tt) (λ t. refl)
mapping_of-object_entry (int n) e =
    Holds-if _ (eqb n 0) (ok end) (raised type_error) (λ t. refl) (λ t. tt)
mapping_of-object_entry (negative n) e = tt
mapping_of-object_entry (str s) e =
    Holds-if _ (s == "") (ok end) (raised attribute_error) (λ t. refl) (λ t. tt)
mapping_of-object_entry (list nil) e = refl
mapping_of-object_entry (list (cons v xs)) e = tt

module _ (b a : View) (k : String) where
  abbrev x : Option Shown
  x = lookup k b.shown

  abbrev y : Option Shown
  y = lookup k a.shown

  pub owners-Sound :
      (names : List String) → All (Sound b a) (owner_changes k (owners_in x) (owners_in y) names)
  owners-Sound [] = tt
  owners-Sound (o ∷ names) = by_test _ refl _ (owners-Sound names)
    where
      v : Value
      v = value_or_null (lookup o (owners_in x))

      w : Value
      w = value_or_null (lookup o (owners_in y))

      by_test :
          (t : Bool)
          → value_eq v w ≡ t
          → (rest : List Change) → All (Sound b a) rest
          → All (Sound b a) (if t then rest else owner_moved k o v w ∷ rest)
      by_test true e rest h = h
      by_test false e rest h = ((owner_value_lem x o, owner_value_lem y o, e), h)

  owners_told :
      (o : String) (p q : Dict Value) (names : List String)
      → contains o names ≡ true
      → value_eq (value_or_null (lookup o p)) (value_or_null (lookup o q))
          || any (tells_owner k o) (owner_changes k p q names)
        ≡ true
  owners_told o p q [] h = cc
  owners_told o p q (n ∷ names) h =
      ground (arith, eq_iff o n, eq_iff n o, ==_refl k, h, owners_told o p q names)

  pub entries-Sound :
      (p q : Fields)
      → ((e : String) → value_or_null (get e p) ≡ object_entry (plain_value x) e)
      → ((e : String) → value_or_null (get e q) ≡ object_entry (plain_value y) e)
      → (names : List String) → All (Sound b a) (map_changes k p q names)
  entries-Sound p q f g [] = tt
  entries-Sound p q f g (n ∷ names) = by_test _ refl _ (entries-Sound p q f g names)
    where
      v : Value
      v = value_or_null (get n p)

      w : Value
      w = value_or_null (get n q)

      by_test :
          (t : Bool)
          → value_eq v w ≡ t
          → (rest : List Change) → All (Sound b a) rest
          → All (Sound b a) (if t then rest else map_moved k n v w ∷ rest)
      by_test true e rest h = h
      by_test false e rest h = ((f n, g n, e), h)

  entries_told :
      (e : String) (p q : Fields) (names : List String)
      → contains e names ≡ true
      → value_eq (value_or_null (get e p)) (value_or_null (get e q))
          || any (tells_entry k e) (map_changes k p q names)
        ≡ true
  entries_told e p q [] h = cc
  entries_told e p q (n ∷ names) h =
      ground (arith, eq_iff e n, eq_iff n e, ==_refl k, h, entries_told e p q names)

  -- A name that neither side has has no value on either.
  pub all_owners_told :
      (o : String) (p q : Dict Value)
      → value_eq (value_or_null (lookup o p)) (value_or_null (lookup o q))
          || any (tells_owner k o) (owner_changes k p q (all_names (keys p) (keys q)))
        ≡ true
  unfolding value_eq
  all_owners_told o p q = by_name (contains o (keys p)) refl (contains o (keys q)) refl
    where
      by_name :
          (s : Bool)
          → contains o (keys p) ≡ s
          → (t : Bool) → contains o (keys q) ≡ t
          → value_eq (value_or_null (lookup o p)) (value_or_null (lookup o q))
              || any (tells_owner k o) (owner_changes k p q (all_names (keys p) (keys q)))
            ≡ true
      by_name true e t f =
          owners_told o p q _ (contains-all_names o (keys p) (keys q) ∙ ground (arith, e))
      by_name false e true f =
          owners_told o p q _ (contains-all_names o (keys p) (keys q) ∙ ground (arith, e, f))
      by_name false e false f = rw (lookup-absent o p e, lookup-absent o q f) refl

  pub all_entries_told :
      (e : String) (p q : Fields)
      → value_eq (value_or_null (get e p)) (value_or_null (get e q))
          || any (tells_entry k e) (entry_changes k p q)
        ≡ true
  unfolding value_eq
  all_entries_told e p q =
      by_name (contains e (field_names p)) refl (contains e (field_names q)) refl
    where
      by_name :
          (s : Bool)
          → contains e (field_names p) ≡ s
          → (t : Bool) → contains e (field_names q) ≡ t
          → value_eq (value_or_null (get e p)) (value_or_null (get e q))
              || any (tells_entry k e) (entry_changes k p q)
            ≡ true
      by_name true i t j =
          entries_told e p q _
            (contains-all_names e (field_names p) (field_names q) ∙ ground (arith, i))
      by_name false i true j =
          entries_told e p q _
            (contains-all_names e (field_names p) (field_names q) ∙ ground (arith, i, j))
      by_name false i false j = rw (get-absent e p i, get-absent e q j) refl

  pub set-Sound : Sound b a (set_change k (members_in x) (members_in y))
  set-Sound e = (
    side (members_in x) (members_in y) x y (has_member_lem x e) (has_member_lem y e),
    side (members_in y) (members_in x) y x (has_member_lem y e) (has_member_lem x e),
  )
    where
      side :
          (m n : List String) (u v : Option Shown)
          → contains e m ≡ has_member u e
          → contains e n ≡ has_member v e
          → contains e (sorted (minus (of_list n) (of_list m)))
            ≡ (has_member v e && not (has_member u e))
      side m n u v h g =
          contains-sorted e (minus (of_list n) (of_list m))
          ∙ contains-minus e (of_list n) (of_list m)
          ∙ ground (arith, contains-of_list e n, contains-of_list e m, h, g)
