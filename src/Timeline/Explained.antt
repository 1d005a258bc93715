-- ===== src/Timeline/Explained.antt =====
-- The changes of a timeline's row explain how the caller's view moved
-- (src/bearpit/realmtools/timeline.py, `diff_views`).
use bearpit.Base.{
  String, ◌≡◌, refl, sym, ◌∙◌, ap, Bool, true, false, ◌||◌, Option, some, List, [], ◌∷◌, All,
  if◌then◌else◌, arith, ==_refl,
}
use bearpit.Base.Dict.{lookup, keys}
use bearpit.Base.Outcome.{ok, ◌>>=◌, Holds, Holds-bind, Holds-ok}
use bearpit.Value.{Value, null, bool, int, negative, str, list, dict, Fields, get, value_eq}
use bearpit.Machine.Decl.{DataDef, is_set_type}
use bearpit.Machine.State.{value_or_null, is_owner}
use bearpit.Machine.View.{View, Shown}
use bearpit.Timeline.Changes.{
  Change, same_shown, members_in, owners_in, plain_in, mapping_of, is_object, all_names,
  owner_changes, set_change, entry_changes, plain_changes, key_changes, value_moved,
}
use bearpit.Timeline.Accounts.{object_entry, plain_value, Sound, Complete}
use bearpit.Timeline.Entries.{
  owner_value_lem, plain_value_lem, mapping_of-object_entry, owners-Sound, entries-Sound,
  all_owners_told, all_entries_told, set-Sound,
}

no_object-object_entry : (v : Value) (e : String) → is_object v ≡ false → object_entry v e ≡ null
no_object-object_entry (dict d) e h = cc
no_object-object_entry null e h = refl
no_object-object_entry (bool b) e h = refl
no_object-object_entry (int n) e h = refl
no_object-object_entry (negative n) e h = refl
no_object-object_entry (str s) e h = refl
no_object-object_entry (list xs) e h = refl

module _ (b a : View) (d : DataDef) (k : String) where
  abbrev x : Option Shown
  x = lookup k b.shown

  abbrev y : Option Shown
  y = lookup k a.shown

  -- The changes tell the truth, and all of it.
  abbrev Told : List Change → Type 0
  Told cs = All (Sound b a) cs × Complete d k x y cs

  pub told_nothing : same_shown x y ≡ true → Complete d k x y []
  told_nothing e = record {
    sets = ground (arith, e);
    owners = λ o. ground (arith, e);
    entries = λ i. ground (arith, e);
    values = ground (arith, e);
  }

  told_set : is_set_type d.type ≡ true → Told (set_change k (members_in x) (members_in y) ∷ [])
  told_set e = (
    (set-Sound b a k, tt),
    record {
      sets = ground (arith, ==_refl k);
      owners = λ o. ground (arith, e);
      entries = λ i. ground (arith, e);
      values = ground (arith, e);
    },
  )

  told_owners :
      is_set_type d.type ≡ false
      → is_owner d.visibility ≡ true
      → Told (
          owner_changes k
            (owners_in x)
            (owners_in y)
            (all_names (keys (owners_in x)) (keys (owners_in y))))
  told_owners s o = (
    owners-Sound b a k _,
    record {
      sets = ground (arith, s);
      owners = λ i. ground (
        arith,
        owner_value_lem x i,
        owner_value_lem y i,
        all_owners_told b a k i (owners_in x) (owners_in y),
      );
      entries = λ i. ground (arith, o);
      values = ground (arith, o);
    },
  )

  told_entries :
      (p q : Fields)
      → is_set_type d.type ≡ false
      → is_owner d.visibility ≡ false
      → is_object (plain_value x) || is_object (plain_value y) ≡ true
      → ((e : String) → value_or_null (get e p) ≡ object_entry (plain_value x) e)
      → ((e : String) → value_or_null (get e q) ≡ object_entry (plain_value y) e)
      → Told (entry_changes k p q)
  told_entries p q s o objects f g = (
    entries-Sound b a k p q f g _,
    record {
      sets = ground (arith, s);
      owners = λ i. ground (arith, o);
      entries = λ i. ground (arith, f i, g i, all_entries_told b a k i p q);
      values = ground (arith, objects);
    },
  )

  told_value :
      is_set_type d.type ≡ false
      → is_owner d.visibility ≡ false
      → is_object (plain_value x) || is_object (plain_value y) ≡ false
      → same_shown x y ≡ false
      → Told (value_moved k (plain_in x) (plain_in y) ∷ [])
  unfolding value_eq
  told_value s o objects differ = (
    ((plain_value_lem x, plain_value_lem y, differ), tt),
    record {
      sets = ground (arith, s);
      owners = λ i. ground (arith, o);
      entries = λ i.
          let l = no_object-object_entry (plain_value x) i (ground (arith, objects)) in
          let r = no_object-object_entry (plain_value y) i (ground (arith, objects)) in
          let same : value_eq (object_entry (plain_value x) i) (object_entry (plain_value y) i)
              ≡ true =
            rw (l, r) refl in
          ground (arith, same);
      values = ground (arith, ==_refl k);
    },
  )

  told_plain :
      is_set_type d.type ≡ false
      → is_owner d.visibility ≡ false
      → same_shown x y ≡ false
      → Holds Told (plain_changes k (plain_in x) (plain_in y))
  told_plain s o differ = by_objects (is_object (plain_in x) || is_object (plain_in y)) refl
    where
      objects :
          (t : Bool)
          → is_object (plain_in x) || is_object (plain_in y) ≡ t
          → is_object (plain_value x) || is_object (plain_value y) ≡ t
      objects t e =
          ap (λ v. is_object v || is_object (plain_value y)) (sym (plain_value_lem x))
          ∙ ap (λ v. is_object (plain_in x) || is_object v) (sym (plain_value_lem y))
          ∙ e

      by_objects :
          (t : Bool)
          → is_object (plain_in x) || is_object (plain_in y) ≡ t
          → Holds Told (
              if t
              then (do
                before ← mapping_of (plain_in x)
                after ← mapping_of (plain_in y)
                ok (entry_changes k before after))
              else ok (value_moved k (plain_in x) (plain_in y) ∷ []))
      by_objects true e = Holds-bind Told (mapping_of (plain_in x)) _ (λ p ep.
          Holds-bind Told (mapping_of (plain_in y)) (λ q. ok (entry_changes k p q))
            (λ q eq.
              told_entries p q s o (objects true e)
                (λ i.
                  Holds-ok _ (mapping_of (plain_in x)) p (mapping_of-object_entry (plain_in x) i) ep
                  ∙ ap (λ v. object_entry v i) (plain_value_lem x))
                (λ i.
                  Holds-ok _ (mapping_of (plain_in y)) q (mapping_of-object_entry (plain_in y) i) eq
                  ∙ ap (λ v. object_entry v i) (plain_value_lem y))))
      by_objects false e = told_value s o (objects false e) differ

  pub key_changes-Told : Holds Told (key_changes (some d) k x y)
  key_changes-Told =
      by_kind (same_shown x y) refl (is_set_type d.type) refl (is_owner d.visibility) refl
    where
      by_kind :
          (t : Bool)
          → same_shown x y ≡ t
          → (s : Bool) → is_set_type d.type ≡ s
          → (o : Bool) → is_owner d.visibility ≡ o
          → Holds Told (
              if t
              then ok []
              else if s
              then ok (set_change k (members_in x) (members_in y) ∷ [])
              else if o
              then ok (
                  owner_changes k
                    (owners_in x)
                    (owners_in y)
                    (all_names (keys (owners_in x)) (keys (owners_in y))))
              else plain_changes k (plain_in x) (plain_in y))
      by_kind true e s f o g = (tt, told_nothing e)
      by_kind false e true f o g = told_set f
      by_kind false e false f true g = told_owners f g
      by_kind false e false f false g = told_plain f g e
