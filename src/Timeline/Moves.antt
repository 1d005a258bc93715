-- ===== src/Timeline/Moves.antt =====
-- All that a list of changes says of two views (src/bearpit/realmtools/timeline.py, `diff_views`).
use bearpit.Base.{
  String, ◌≡◌, refl, sym, ◌∙◌, Bool, true, false, ◌||◌, Option, none, some, List, [], ◌∷◌, ◌++◌,
  ◌==◌, All, any, contains, if◌then◌else◌, arith, eq_iff,
}
use mathlib.Core.Path.{subst}
use bearpit.Base.Dict.{lookup, keys}
use bearpit.Base.Outcome.{ok, Holds, Holds-bind, Holds-ok}
use bearpit.Machine.Decl.{MachineDef, DataDef}
use bearpit.Machine.View.{View, Shown}
use bearpit.Timeline.Changes.{
  Change, state_moved, actor_moved, same_name, all_names, key_changes, data_changes, state_change,
  actor_change, diff_views,
}
use bearpit.Timeline.Accounts.{
  Sound, Complete, tells_set, tells_owner, tells_entry, tells_value, contains-all_names,
  lookup-absent,
}
use bearpit.Timeline.Explained.{key_changes-Told, told_nothing}

any-append : (p : Change → Bool) (xs ys : List Change) → any p (xs ++ ys) ≡ (any p xs || any p ys)
any-append p [] ys = refl
any-append p (c ∷ xs) ys = ground (arith, any-append p xs ys)

All-append : {A : Type 0} (P : A → Type 0) (xs ys : List A) → All P xs → All P ys → All P (xs ++ ys)
All-append P [] ys h k = k
All-append P (x ∷ xs) ys h k = (h.0, All-append P xs ys h.1 k)

-- More changes tell no less.
Complete-more :
    (d : DataDef) (k : String) (x y : Option Shown) (cs more : List Change)
    → ((p : Change → Bool) → any p cs ≡ true → any p more ≡ true)
    → Complete d k x y cs
    → Complete d k x y more
Complete-more d k x y cs more h c = record {
  sets = ground (arith, c.sets, h (tells_set k));
  owners = λ o. ground (arith, c.owners o, h (tells_owner k o));
  entries = λ e. ground (arith, c.entries e, h (tells_entry k e));
  values = ground (arith, c.values, h (tells_value k));
}

abbrev pub tells_state : Change → Bool
tells_state (state_moved v w) = true
tells_state _ = false

abbrev pub tells_actor : Change → Bool
tells_actor (actor_moved v w) = true
tells_actor _ = false

module _ (defn : MachineDef) (b a : View) where
  -- A declared key's differences are told; an undeclared key is in no view.
  abbrev pub CompleteAt : Option DataDef → String → List Change → Type 0
  CompleteAt none k cs = Unit
  CompleteAt (some d) k cs = Complete d k (lookup k b.shown) (lookup k a.shown) cs

  -- Each change is a difference of the two views, and each difference in the state, the pointer
  -- and the declared keys is among the changes.
  pub record Explains (cs : List Change) : Type 0 where
    pub sound : All (Sound b a) cs
    pub states : b.state == a.state || any tells_state cs ≡ true
    pub actors : same_name b.actor a.actor || any tells_actor cs ≡ true
    pub at_keys : (k : String) → CompleteAt (lookup k defn.data_defs) k cs

  abbrev At : String → List Change → Type 0
  At k cs = CompleteAt (lookup k defn.data_defs) k cs

  more_told :
      (o : Option DataDef) (k : String) (cs more : List Change)
      → ((p : Change → Bool) → any p cs ≡ true → any p more ≡ true)
      → CompleteAt o k cs
      → CompleteAt o k more
  more_told none k cs more h c = tt
  more_told (some d) k cs more h c = Complete-more d k _ _ cs more h c

  names_more_told :
      (names : List String) (cs more : List Change)
      → ((p : Change → Bool) → any p cs ≡ true → any p more ≡ true)
      → All (λ k. At k cs) names
      → All (λ k. At k more) names
  names_more_told [] cs more h c = tt
  names_more_told (k ∷ names) cs more h c =
      (more_told (lookup k defn.data_defs) k cs more h c.0, names_more_told names cs more h c.1)

  abbrev ToldAt : Option DataDef → String → List Change → Type 0
  ToldAt o k cs = All (Sound b a) cs × CompleteAt o k cs

  key-ToldAt :
      (o : Option DataDef) (k : String)
      → Holds (ToldAt o k) (key_changes o k (lookup k b.shown) (lookup k a.shown))
  key-ToldAt none k = (tt, tt)
  key-ToldAt (some d) k = key_changes-Told b a d k

  abbrev ToldAll : List String → List Change → Type 0
  ToldAll names cs = All (Sound b a) cs × All (λ k. At k cs) names

  data_changes-ToldAll :
      (names : List String) → Holds (ToldAll names) (data_changes defn b.shown a.shown names)
  data_changes-ToldAll [] = (tt, tt)
  data_changes-ToldAll (k ∷ names) =
      Holds-bind (ToldAll (k ∷ names))
        (key_changes (lookup k defn.data_defs) k (lookup k b.shown) (lookup k a.shown)) _
        (λ here eh.
          let first =
            Holds-ok (ToldAt (lookup k defn.data_defs) k) _ here
              (key-ToldAt (lookup k defn.data_defs) k) eh in
          Holds-bind (ToldAll (k ∷ names)) (data_changes defn b.shown a.shown names)
            (λ others. ok (here ++ others))
            (λ others eo.
              let rest = Holds-ok (ToldAll names) _ others (data_changes-ToldAll names) eo in
              (
                All-append (Sound b a) here others first.0 rest.0,
                (
                  more_told (lookup k defn.data_defs) k here (here ++ others)
                      (λ p h. ground (arith, any-append p here others, h)) first.1,
                  names_more_told names others (here ++ others)
                      (λ p h. ground (arith, any-append p here others, h)) rest.1,
                ),
              )))

  named_told :
      (k : String) (cs : List Change) (names : List String)
      → contains k names ≡ true
      → All (λ n. At n cs) names
      → At k cs
  named_told k cs [] h c = cc
  named_told k cs (n ∷ names) h c = by_test (k == n) refl (λ r. named_told k cs names r c.1)
    where
      by_test : (t : Bool) → (k == n) ≡ t → (contains k names ≡ true → At k cs) → At k cs
      by_test true e rest = subst (λ m. At m cs) (sym ((eq_iff k n).0 e)) c.0
      by_test false e rest = rest (ground (arith, h, e))

  -- A key of neither view has nothing to tell.
  absent_told :
      (o : Option DataDef) (k : String) (cs : List Change)
      → contains k (keys b.shown) ≡ false
      → contains k (keys a.shown) ≡ false
      → CompleteAt o k cs
  absent_told none k cs e f = tt
  absent_told (some d) k cs e f =
      Complete-more d k _ _ [] cs (λ p h. cc)
        (told_nothing b a d k (rw (lookup-absent k b.shown e, lookup-absent k a.shown f) refl))

  every_told :
      (cs : List Change)
      → All (λ n. At n cs) (all_names (keys b.shown) (keys a.shown))
      → (k : String) → At k cs
  every_told cs c k = by_test (contains k (keys b.shown)) refl (contains k (keys a.shown)) refl
    where
      by_test :
          (s : Bool)
          → contains k (keys b.shown) ≡ s
          → (t : Bool) → contains k (keys a.shown) ≡ t
          → At k cs
      by_test true e t f =
          named_told k cs _ (contains-all_names k (keys b.shown) (keys a.shown) ∙ ground (arith, e))
            c
      by_test false e true f =
          named_told k cs _
            (contains-all_names k (keys b.shown) (keys a.shown) ∙ ground (arith, e, f)) c
      by_test false e false f = absent_told (lookup k defn.data_defs) k cs e f

  state_change-told :
      All (Sound b a) (state_change b a)
      × (b.state == a.state || any tells_state (state_change b a) ≡ true)
  state_change-told = by_test (b.state == a.state) refl
    where
      by_test :
          (t : Bool)
          → (b.state == a.state) ≡ t
          → All (Sound b a) (if t then [] else state_moved b.state a.state ∷ [])
            × (t || any tells_state (if t then [] else state_moved b.state a.state ∷ []) ≡ true)
      by_test true e = (tt, refl)
      by_test false e = (((refl, refl, e), tt), refl)

  actor_change-told :
      All (Sound b a) (actor_change b a)
      × (same_name b.actor a.actor || any tells_actor (actor_change b a) ≡ true)
  actor_change-told = by_test (same_name b.actor a.actor) refl
    where
      by_test :
          (t : Bool)
          → same_name b.actor a.actor ≡ t
          → All (Sound b a) (if t then [] else actor_moved b.actor a.actor ∷ [])
            × (t || any tells_actor (if t then [] else actor_moved b.actor a.actor ∷ []) ≡ true)
      by_test true e = (tt, refl)
      by_test false e = (((refl, refl, e), tt), refl)

  pub diff_views-Explains : Holds Explains (diff_views defn b a)
  unfolding diff_views
  diff_views-Explains =
      Holds-bind Explains
        (data_changes defn b.shown a.shown (all_names (keys b.shown) (keys a.shown)))
        (λ changes. ok (state_change b a ++ (actor_change b a ++ changes)))
        (λ cs e.
          let told =
            Holds-ok (ToldAll (all_names (keys b.shown) (keys a.shown))) _ cs
              (data_changes-ToldAll (all_names (keys b.shown) (keys a.shown))) e in
          let rest = actor_change b a ++ cs in
          record {
            sound =
                All-append (Sound b a) (state_change b a) rest state_change-told.0
                  (All-append (Sound b a) (actor_change b a) cs actor_change-told.0 told.0);
            states =
                ground (arith, any-append tells_state (state_change b a) rest, state_change-told.1);
            actors = ground (
              arith,
              any-append tells_actor (state_change b a) rest,
              any-append tells_actor (actor_change b a) cs,
              actor_change-told.1,
            );
            at_keys = λ k.
                more_told (lookup k defn.data_defs) k cs (state_change b a ++ rest)
                  (λ p h. ground (
                    arith,
                    any-append p (state_change b a) rest,
                    any-append p (actor_change b a) cs,
                    h,
                  ))
                  (every_told cs told.1 k);
          })
