-- ===== src/Escrow/Recovery.antt =====
-- The memory of the escrow against the chronicle
-- (src/bearpit/realmtools/escrow.py, `_load` against `submit` and `reveal`).
use bearpit.Base.{
  String, Bool, true, false, not, ◌||◌, ◌≡◌, refl, sym, ◌∙◌, ap, some, List, [], ◌∷◌, ◌++◌, arith,
  ◌==◌, if◌then◌else◌, is_some, contains, eq_iff, ==_refl,
}
use mathlib.Core.Path.{subst}
use bearpit.Base.Dict.{Dict, lookup, has_key, insert, lookup-insert}
use bearpit.Base.StrSet.{StrSet, add, contains-add}
use bearpit.Escrow.{
  Cipher, SealEvent, sealed_submit, reveal, not_participant, already_revealed, already_sealed,
  Sealing, accepted, error, Escrow, round_of, set_default, take_marker, read_submits, read_reveals,
  load, seal_in, submit_loaded, submit, reveal_loaded, reveal_round, restarted, sealed_at,
}

module _ (cipher : Cipher) where
  -- The memory says what the chronicle says.
  pub record IsCoherent (s : Escrow) : Type 0 where
    pub is_loaded : s.loaded ≡ true
    pub same_sealed :
        (r a : String)
        → sealed_at cipher r a (read_submits cipher s.events []) ≡ sealed_at cipher r a s.sealed
    pub same_revealed :
        (r : String) → contains r (read_reveals cipher s.events []) ≡ contains r s.revealed

  read_submits-append :
      (xs ys : List SealEvent) (d : Dict (Dict String))
      → read_submits cipher (xs ++ ys) d ≡ read_submits cipher ys (read_submits cipher xs d)
  unfolding read_submits
  read_submits-append [] ys d = refl
  read_submits-append (sealed_submit r a blob ∷ xs) ys d = read_submits-append xs ys _
  read_submits-append (reveal r p ∷ xs) ys d = read_submits-append xs ys d

  read_reveals-append :
      (xs ys : List SealEvent) (seen : StrSet)
      → read_reveals cipher (xs ++ ys) seen ≡ read_reveals cipher ys (read_reveals cipher xs seen)
  unfolding read_reveals
  read_reveals-append [] ys seen = refl
  read_reveals-append (sealed_submit r a blob ∷ xs) ys seen = read_reveals-append xs ys seen
  read_reveals-append (reveal r p ∷ xs) ys seen = read_reveals-append xs ys _

  load-loaded : (s : Escrow) → s.loaded ≡ true → load cipher s ≡ s
  unfolding load
  load-loaded s h = simp h

  accepted-injective : (s t : Escrow) → accepted s ≡ accepted t → s ≡ t
  accepted-injective s t h = cc

  revealed-injective :
      (s t : Escrow) (p q : Dict String)
      → ◌≡◌ {A = Sealing (Escrow × Dict String)} (accepted (s, p)) (accepted (t, q))
      → s ≡ t
  revealed-injective s t p q h = cc

  sealed_at-insert :
      (r q a : String) (x : Dict String) (d : Dict (Dict String))
      → sealed_at cipher q a (insert r x d)
        ≡ (if r == q then lookup a x else sealed_at cipher q a d)
  sealed_at-insert r q a x d = ground (arith, lookup-insert r q x d)

  lookup-set_default :
      (a b p : String) (d : Dict String)
      → has_key a d ≡ false
      → lookup b (set_default a p d) ≡ (if a == b then some p else lookup b d)
  lookup-set_default a b p d h = ground (arith, h, lookup-insert a b p d)

  -- What the cipher is relied on for, and names that count as given.
  abbrev pub Faithful : Type 0
  Faithful =
      (p : String)
      → (cipher.decrypt (cipher.encrypt p) ≡ some p) × ((cipher.encrypt p == "") ≡ false)

  -- After a restart the round can be revealed, with this payload of the agent.
  unfoldable pub Revealed : String → String → String → Escrow → Type 0
  Revealed r a p t =
      (u : Escrow) × (payloads : Dict String) × (reveal_round cipher r (restarted cipher t)
        ≡ accepted (u, payloads))
      × (lookup a payloads ≡ some p)

  module _ (faithful : Faithful) (r a p : String) (given_r : (r == "") ≡ false)
      (given_a : (a == "") ≡ false) where
    marker :
        (d : Dict (Dict String))
        → take_marker cipher r a (cipher.encrypt p) d ≡ insert r (set_default a p (round_of r d)) d
    marker d = simp (given_r, given_a, (faithful p).1, (faithful p).0)

    sealed_same :
        (s : Escrow)
        → IsCoherent s
        → has_key a (round_of r s.sealed) ≡ false
        → (q b : String)
        → sealed_at cipher q b (read_submits cipher (seal_in cipher r a p s).events [])
          ≡ sealed_at cipher q b (seal_in cipher r a p s).sealed
    unfolding read_submits
    sealed_same s g fresh q b =
        let before = read_submits cipher s.events [] in
        let old : has_key a (round_of r before) ≡ false = ap is_some (g.same_sealed r a) ∙ fresh in
        ap (sealed_at cipher q b) (
          read_submits-append s.events (sealed_submit r a (some (cipher.encrypt p)) ∷ []) []
          ∙ marker before)
        ∙ ground (
          arith,
          sealed_at-insert r q b (set_default a p (round_of r before)) before,
          sealed_at-insert r q b (insert a p (round_of r s.sealed)) s.sealed,
          lookup-set_default a b p (round_of r before) old,
          lookup-insert a b p (round_of r s.sealed),
          g.same_sealed q b,
          g.same_sealed r b,
          eq_iff r q,
        )

    reveals_same :
        (s : Escrow)
        → IsCoherent s
        → (q : String)
        → contains q (read_reveals cipher (seal_in cipher r a p s).events [])
          ≡ contains q s.revealed
    unfolding read_reveals
    reveals_same s g q =
        ap (contains q)
          (read_reveals-append s.events (sealed_submit r a (some (cipher.encrypt p)) ∷ []) [])
        ∙ g.same_revealed q

    submit_loaded-IsCoherent :
        (s t : Escrow) → IsCoherent s → submit_loaded cipher r a p s ≡ accepted t → IsCoherent t
    submit_loaded-IsCoherent s t g h =
        by_tests (contains a s.participants) (contains r s.revealed)
          (has_key a (round_of r s.sealed)) refl h
      where
        by_tests :
            (member open_no fresh_no : Bool)
            → has_key a (round_of r s.sealed) ≡ fresh_no
            → (if not member
                then error not_participant
                else if open_no
                then error already_revealed
                else if fresh_no
                then error already_sealed
                else accepted (seal_in cipher r a p s))
              ≡ accepted t
            → IsCoherent t
        by_tests true false false e q =
            subst IsCoherent (accepted-injective (seal_in cipher r a p s) t q) (record {
              is_loaded = g.is_loaded;
              same_sealed = sealed_same s g e;
              same_revealed = reveals_same s g;
            })
        by_tests false _ _ e q = cc
        by_tests true true _ e q = cc
        by_tests true false true e q = cc

    -- In a process that has loaded the chronicle, an accepted submission keeps the escrow's memory
    -- and the chronicle in agreement: with a cipher that decrypts what it encrypts to a text that
    -- is not empty, and with names that are not empty.
    pub submit-IsCoherent :
        (s t : Escrow) → IsCoherent s → submit cipher r a p s ≡ accepted t → IsCoherent t
    unfolding submit
    submit-IsCoherent s t g h =
        submit_loaded-IsCoherent s t g
          (ap (submit_loaded cipher r a p) (sym (load-loaded s g.is_loaded)) ∙ h)

    -- An accepted submission was to a round that is not revealed, and is in the memory.
    submit_loaded-parts :
        (s t : Escrow)
        → submit_loaded cipher r a p s ≡ accepted t
        → (contains r t.revealed ≡ false) × (sealed_at cipher r a t.sealed ≡ some p)
    submit_loaded-parts s t h =
        by_tests (contains a s.participants) (contains r s.revealed) refl
          (has_key a (round_of r s.sealed)) h
      where
        by_tests :
            (member closed : Bool)
            → contains r s.revealed ≡ closed
            → (taken : Bool)
            → (if not member
                then error not_participant
                else if closed
                then error already_revealed
                else if taken
                then error already_sealed
                else accepted (seal_in cipher r a p s))
              ≡ accepted t
            → (contains r t.revealed ≡ false) × (sealed_at cipher r a t.sealed ≡ some p)
        by_tests true false e false q =
            subst
              (λ (u : Escrow).
                (contains r u.revealed ≡ false) × (sealed_at cipher r a u.sealed ≡ some p))
              (accepted-injective (seal_in cipher r a p s) t q)
              (
                e,
                ground (
                  arith,
                  sealed_at-insert r r a (insert a p (round_of r s.sealed)) s.sealed,
                  lookup-insert a a p (round_of r s.sealed),
                  ==_refl r,
                  ==_refl a,
                ),
              )
        by_tests false _ e _ q = cc
        by_tests true true e _ q = cc
        by_tests true false e true q = cc

    restarted-Revealed :
        (t : Escrow)
        → IsCoherent t
        → contains r t.revealed ≡ false
        → sealed_at cipher r a t.sealed ≡ some p
        → Revealed r a p t
    unfolding Revealed reveal_round load
    restarted-Revealed t g open_round held =
        let l = load cipher (restarted cipher t) in
        let payloads = round_of r l.sealed in
        let done = record l {
          revealed = add r l.revealed;
          events = l.events ++ reveal r payloads ∷ [];
        } in
        (
          done,
          payloads,
          ap (λ b. if b then error already_revealed else accepted (done, payloads))
              (g.same_revealed r ∙ open_round),
          g.same_sealed r a ∙ held,
        )

    -- A payload whose submission was accepted is what a reveal gives after a restart, which loses
    -- the memory: from a state in which memory and chronicle agree, with a cipher that decrypts
    -- what it encrypts to a text that is not empty, and with names that are not empty.
    pub submit-Revealed :
        (s t : Escrow) → IsCoherent s → submit cipher r a p s ≡ accepted t → Revealed r a p t
    unfolding submit
    submit-Revealed s t g h =
        let same = ap (submit_loaded cipher r a p) (sym (load-loaded s g.is_loaded)) ∙ h in
        let parts = submit_loaded-parts s t same in
        restarted-Revealed t (submit_loaded-IsCoherent s t g same) parts.0 parts.1

  reveal_loaded-IsCoherent :
      (r : String) (s t : Escrow) (payloads : Dict String)
      → IsCoherent s
      → reveal_loaded cipher r s ≡ accepted (t, payloads)
      → IsCoherent t
  unfolding read_submits read_reveals
  reveal_loaded-IsCoherent r s t payloads g h = by_test (contains r s.revealed) h
    where
      done : Escrow
      done = record s {
        revealed = add r s.revealed;
        events = s.events ++ reveal r (round_of r s.sealed) ∷ [];
      }

      by_test :
          (b : Bool)
          → if◌then◌else◌ {A = Sealing (Escrow × Dict String)} b
              (error already_revealed)
              (accepted (done, round_of r s.sealed))
            ≡ accepted (t, payloads)
          → IsCoherent t
      by_test true q = cc
      by_test false q =
          subst IsCoherent (revealed-injective done t (round_of r s.sealed) payloads q) (record {
            is_loaded = g.is_loaded;
            same_sealed = λ q a.
                ap (sealed_at cipher q a)
                  (read_submits-append s.events (reveal r (round_of r s.sealed) ∷ []) [])
                ∙ g.same_sealed q a;
            same_revealed = λ q.
                ap (contains q)
                  (read_reveals-append s.events (reveal r (round_of r s.sealed) ∷ []) [])
                ∙ contains-add q r (read_reveals cipher s.events [])
                ∙ ap (λ b. q == r || b) (g.same_revealed q)
                ∙ sym (contains-add q r s.revealed);
          })

  -- In a process that has loaded the chronicle, an accepted reveal keeps the escrow's memory and
  -- the chronicle in agreement.
  pub reveal_round-IsCoherent :
      (r : String) (s t : Escrow) (payloads : Dict String)
      → IsCoherent s
      → reveal_round cipher r s ≡ accepted (t, payloads)
      → IsCoherent t
  unfolding reveal_round
  reveal_round-IsCoherent r s t payloads g h =
      reveal_loaded-IsCoherent r s t payloads g
        (ap (reveal_loaded cipher r) (sym (load-loaded s g.is_loaded)) ∙ h)
