-- ===== src/Turns/Removals.antt =====
-- Where the position stands and who is granted the floor after the referee's eliminations
-- (src/bearpit/warden/turns.py, `apply_resolutions`).
use bearpit.Base.{
  ℕ, suc, zero, ◌+◌, ◌<◌, ◌≤◌, String, ◌≡◌, refl, sym, ◌∙◌, Bool, true, false, not, ◌||◌, Option,
  none, some, List, [], ◌∷◌, arith, if◌then◌else◌, is_empty, length, All, ltb, ltb→lt,
}
use mathlib.Core.Path.{subst}
use mathlib.Core.Bool.{true≢false}
use bearpit.Base.Outcome.{
  ok, Holds, Holds-bind, Holds-if, Holds-ok, Holds-Total, or_raise, value_error,
}
use bearpit.Turns.State.{Awaiting, Config, Turns, TurnEvent, Out, Run, current}
use bearpit.Turns.Speech.{Text}
use bearpit.Turns.Floor.{grant_floor, wrapped, rolled, pop_at, is_held}
use bearpit.Turns.Resolutions.{
  index_from, index_of, without, remove_all, hand_on, end_lap, reopen, after_removal, by_name,
  targets, apply_resolutions,
}
use bearpit.Turns.Seats.{IsForHolder, IsSeated, Seat, All-append, grant_floor-Seat, emit-Seat}
use bearpit.Turns.Ticks.{resume-Seat, nonempty, not_paused}

-- While players are taken out the position may stand just behind the last one.
record IsLoose (cfg : Config) (s : Turns) : Type 0 where
  close : is_empty s.order ≡ false → s.position ≤ length s.order
  still_parked : (w : Awaiting) → s.awaiting ≡ some w → (s.position ≡ 0) × (is_held cfg ≡ true)

abbrev Announced : List Out → Type 0
Announced sent = (u : Turns) → All (IsForHolder u) sent

abbrev Removing : Config → Turns × List Out → Type 0
Removing cfg (s, sent) = IsLoose cfg s × Announced sent

index_from-in :
    (a : String) (xs : List String) (k i : ℕ)
    → index_from a xs k ≡ some i
    → (k ≤ i) × (i < length xs + k)
index_from-in a [] k i h = cc
index_from-in a (x ∷ xs) k i h = ground (arith, index_from-in a xs (suc k) i, h)

length-pop_at {ℓ} :
    {A : Type ℓ} (i : ℕ) (xs : List A) → i < length xs → suc (length (pop_at i xs)) ≡ length xs
length-pop_at i [] h = absurd (omega (arith, h))
length-pop_at zero (x ∷ xs) h = refl
length-pop_at (suc i) (x ∷ xs) h = omega (arith, length-pop_at i xs (omega (arith, h)))

filled : (xs : List String) (i : ℕ) → i < length xs → is_empty xs ≡ false
filled [] i h = absurd (omega (arith, h))
filled (x ∷ xs) i h = refl

behind : {m n : ℕ} → m < n → m ≤ n
behind h = omega (arith, h)

module _ (text : Text) (cfg : Config) where
  without-IsLoose :
      (i : ℕ) (a : String) (s : Turns)
      → IsLoose cfg s
      → i < length s.order
      → IsLoose cfg (without text cfg i a s)
  without-IsLoose i a s g h = record {
    close = λ _. ground (arith, length-pop_at i s.order h, g.close (filled s.order i h), h);
    still_parked = λ w e. let p = g.still_parked w e in (ground (arith, p.0), p.1);
  }

  index_of-in : (a : String) (xs : List String) → Holds (λ i. i < length xs) (index_of a xs)
  index_of-in a xs = by_find (index_from a xs 0) refl
    where
      by_find :
          (o : Option ℕ)
          → index_from a xs 0 ≡ o
          → Holds (λ i. i < length xs) (or_raise o value_error)
      by_find none e = tt
      by_find (some i) e = omega (arith, (index_from-in a xs 0 i e).1)

  remove_all-Removing :
      (names : List String) (s : Turns)
      → IsLoose cfg s
      → Holds (Removing cfg) (remove_all text cfg names s)
  unfolding remove_all
  remove_all-Removing [] s g = (g, λ u. tt)
  remove_all-Removing (a ∷ rest) s g = Holds-bind (Removing cfg) (index_of a s.order) _ (λ i e.
      Holds-bind (Removing cfg) (remove_all text cfg rest (without text cfg i a s)) _ (λ r q.
        let k =
          Holds-ok (Removing cfg) _ r
            (remove_all-Removing rest (without text cfg i a s) (
              without-IsLoose i a s g (
                Holds-ok (λ j. j < length s.order) (index_of a s.order) i (index_of-in a s.order)
                  e)))
            q in
        (k.0, λ u. (tt, k.1 u))))

  loose-IsSeated :
      (s : Turns)
      → IsLoose cfg s
      → (is_empty s.order ≡ false → s.position < length s.order)
      → IsSeated cfg s
  loose-IsSeated s g h = record { in_range = h; parked = g.still_parked }

  hand_on-Seat :
      (now later : ℕ) (held : Option String) (completed : Option ℕ) (s : Turns)
      → s.position < length s.order
      → s.awaiting ≡ none
      → Holds (Seat cfg) (hand_on text cfg now later held completed s)
  hand_on-Seat now later held completed s h n = Holds-bind (Seat cfg) (current s) _ (λ holder _.
      Holds-if (Seat cfg) _ (grant_floor text cfg later (record s { turn_start = now }))
        (ok (s, []))
        (λ _.
          Holds-Total (Seat cfg) _
            (grant_floor-Seat text cfg later (record s { turn_start = now }) h n))
        (λ _.
          (record { in_range = λ _. h; parked = λ w e. absurd (not_paused text cfg s w n e) }, tt)))

  end_lap-Seat :
      (now later : ℕ) (held : Option String) (completed : Option ℕ) (s : Turns)
      → s.position < length s.order
      → s.awaiting ≡ none
      → Holds (Seat cfg) (end_lap text cfg now later held completed s)
  end_lap-Seat now later held none s h n = hand_on-Seat now later held none s h n
  end_lap-Seat now later held (some c) s h n =
      Holds-bind (Seat cfg)
        (hand_on text cfg now later held (some c) (record s { round_msgs = [] })) _
        (λ r q.
          emit-Seat text cfg (TurnEvent.round_complete c s.round s.order s.position cfg.min_rounds)
            r
            (Holds-ok (Seat cfg) _ r
              (hand_on-Seat now later held (some c) (record s { round_msgs = [] }) h n) q))

  rolled-in : (s : Turns) → is_empty s.order ≡ false → (rolled s).position < length (rolled s).order
  rolled-in s e = by_place (ltb s.position (length s.order)) refl
    where
      by_place :
          (b : Bool)
          → ltb s.position (length s.order) ≡ b
          → (if b then s else record s { position = 0; round = suc s.round }).position
            < length (if b then s else record s { position = 0; round = suc s.round }).order
      by_place true h = ltb→lt s.position (length s.order) h
      by_place false h = nonempty s.order e

  rolled-awaiting : (s : Turns) → (rolled s).awaiting ≡ s.awaiting
  rolled-awaiting s = by_place (ltb s.position (length s.order))
    where
      by_place :
          (b : Bool)
          → (if b then s else record s { position = 0; round = suc s.round }).awaiting ≡ s.awaiting
      by_place true = refl
      by_place false = refl

  reopen-Seat :
      (now later : ℕ) (held : Option String) (names : List String) (a : Option Awaiting) (s : Turns)
      → IsLoose cfg s
      → s.awaiting ≡ a
      → is_empty s.order ≡ false
      → (names ≡ [] → s.position < length s.order)
      → Holds (Seat cfg) (reopen text cfg now later held names a s)
  reopen-Seat now later held names (some Awaiting.round) s g n e k =
      Holds-Total (Seat cfg) _ (resume-Seat text cfg now later s e)
  reopen-Seat now later held names (some Awaiting.opener) s g n e k = (
    loose-IsSeated s g (λ _.
        subst (λ i. i < length s.order) (sym (g.still_parked Awaiting.opener n).0)
          (nonempty s.order e)),
    tt,
  )
  reopen-Seat now later held [] none s g n e k = (loose-IsSeated s g (λ _. k refl), tt)
  reopen-Seat now later held (t ∷ ts) none s g n e k =
      end_lap-Seat now later held (wrapped s) (rolled s) (rolled-in s e) (rolled-awaiting s ∙ n)

  after_removal-Seat :
      (now later : ℕ) (held : Option String) (names : List String) (s : Turns)
      → IsLoose cfg s
      → (names ≡ [] → is_empty s.order ≡ false → s.position < length s.order)
      → Holds (Seat cfg) (after_removal text cfg now later held names s)
  unfolding after_removal
  after_removal-Seat now later held names s g k =
      Holds-if (Seat cfg) (is_empty s.order) _ _
        (λ e. (
          record { in_range = λ f. absurd (true≢false (sym e ∙ f)); parked = g.still_parked },
          (tt, tt),
        ))
        (λ e. reopen-Seat now later held names s.awaiting s g refl e (λ z. k z e))

  kept :
      (names : List String) (s : Turns) (r : Turns × List Out)
      → IsSeated cfg s
      → remove_all text cfg names s ≡ ok r
      → names ≡ []
      → is_empty r.0.order ≡ false
      → r.0.position < length r.0.order
  unfolding remove_all
  kept [] s r g h z =
      subst (λ (x : Turns × List Out). is_empty x.0.order ≡ false → x.0.position < length x.0.order)
        (same r h) g.in_range
    where
      same : (q : Turns × List Out) → ◌≡◌ {A = Run} (ok (s, [])) (ok q) → (s, []) ≡ q
      same q e = cc
  kept (a ∷ rest) s r g h z = cc

  -- Eliminations that are carried out leave the position inside the rotation, with play waiting
  -- only for a driving referee; and whoever was granted the floor is its holder, with play not
  -- waiting.
  pub apply_resolutions-IsSeated :
      (now later : ℕ) (resolutions : List (Option String)) (s : Turns)
      → IsSeated cfg s
      → Holds
          (λ r. IsSeated cfg r.0 × All (IsForHolder r.0) r.1)
          (apply_resolutions text cfg now later resolutions s)
  unfolding apply_resolutions
  apply_resolutions-IsSeated now later resolutions s g =
      Holds-if (Seat cfg) (not s.started || is_empty resolutions) _ _ (λ _. (g, tt))
        (λ _. Holds-bind (Seat cfg) (current s) _ (λ held _.
          let names = targets text cfg (by_name text cfg s.order []) resolutions in
          Holds-bind (Seat cfg) (remove_all text cfg names s) _ (λ r q.
            let k =
              Holds-ok (Removing cfg) _ r
                (remove_all-Removing names s
                  (record { close = λ e. behind (g.in_range e); still_parked = g.parked }))
                q in
            Holds-bind (Seat cfg) (after_removal text cfg now later held names r.0) _ (λ t e.
              let f =
                Holds-ok (Seat cfg) _ t
                  (after_removal-Seat now later held names r.0 k.0 (kept names s r g q)) e in
              (f.0, All-append (IsForHolder t.0) r.1 t.1 (k.1 t.0) f.1)))))
