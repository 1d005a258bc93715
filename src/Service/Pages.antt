-- ===== src/Service/Pages.antt =====
-- Paging through the log (src/bearpit/realmtools/machine_service.py, `state`).
use bearpit.Base.{
  ℕ, zero, suc, ◌≤◌, ◌<◌, String, ◌≡◌, refl, sym, ap, ◌∙◌, Bool, true, false, ◌||◌, List, [], ◌∷◌,
  ◌++◌, Option, none, some, if◌then◌else◌, leb, length, arith, All,
}
use bearpit.Machine.Decl.{MachineDef}
use bearpit.Machine.State.{Bindings}
use bearpit.Machine.Rows.{Payload}
use bearpit.Machine.View.{log_row}
use bearpit.Service.Chronicle.{GameEvent}
use bearpit.Service.Paging.{LogRow, Page, add_row, take_row, scan_log}

module _ (defn : MachineDef) (bindings : Bindings) (caller : String) (head : ℕ) where
  abbrev add_visible : Option Payload → ℕ → List LogRow → List LogRow
  add_visible none id rows = rows
  add_visible (some p) id rows = (id, p) ∷ rows

  -- The rows that the caller may read of the events after `last`, in their order.
  unfoldable pub visible_after : ℕ → List GameEvent → List LogRow
  visible_after last [] = []
  visible_after last (e ∷ es) =
      if leb e.id last || leb e.id head
      then visible_after last es
      else add_visible (log_row defn bindings e.payload caller) e.id (visible_after last es)

  -- The ids grow, as those of the rows of a table in the order of its key do.
  abbrev pub Ascending : List GameEvent → Type 0
  Ascending [] = Unit
  Ascending (e ∷ es) = All (λ (f : GameEvent). e.id < f.id) es × Ascending es

  abbrev page_of : List GameEvent → ℕ → Option ℕ → Page
  page_of = scan_log defn bindings caller head

  -- Of events that are all later than `a` and `b`, the visible rows are the same after both.
  visible_later :
      (a b : ℕ) (es : List GameEvent)
      → All (λ (f : GameEvent). a < f.id) es
      → All (λ (f : GameEvent). b < f.id) es
      → visible_after a es ≡ visible_after b es
  unfolding visible_after
  visible_later a b [] h k = refl
  visible_later a b (e ∷ es) h k = ground (arith, h.0, k.0, visible_later a b es h.1 k.1)

  All-later :
      (a b : ℕ) (es : List GameEvent)
      → a < b
      → All (λ (f : GameEvent). b < f.id) es
      → All (λ (f : GameEvent). a < f.id) es
  All-later a b [] l h = tt
  All-later a b (e ∷ es) l h = (omega (arith, h.0), All-later a b es l h.1)

  -- What a page of at most `n` rows that starts after `last` is among the events.
  pub record Paged (es : List GameEvent) (last n : ℕ) (page : Page) : Type 0 where
    pub resumes : page.0 ++ visible_after page.1 es ≡ visible_after last es
    pub fits : length page.0 ≤ n
    pub complete : length page.0 < n → visible_after page.1 es ≡ []
    pub forward : last ≤ page.1

  -- An event that is skipped before a page is skipped after it.
  skipped_lem :
      (e : GameEvent) (es : List GameEvent) (last n : ℕ) (page : Page)
      → (leb e.id last || leb e.id head) ≡ true
      → Paged es last n page
      → Paged (e ∷ es) last n page
  unfolding visible_after
  skipped_lem e es last n page h p = record {
    resumes =
        ap (λ r. page.0 ++ r) (still page.1 p.forward) ∙ p.resumes ∙ sym (still last (omega arith));
    fits = p.fits;
    complete = λ short. still page.1 p.forward ∙ p.complete short;
    forward = p.forward;
  }
    where
      still : (x : ℕ) → last ≤ x → visible_after x (e ∷ es) ≡ visible_after x es
      still x l = ground (arith, h, l)

  taken_lem :
      (e : GameEvent) (es : List GameEvent) (last : ℕ) (row : Option Payload)
      → log_row defn bindings e.payload caller ≡ row
      → (leb e.id last || leb e.id head) ≡ false
      → visible_after last (e ∷ es) ≡ add_visible row e.id (visible_after last es)
  unfolding visible_after
  taken_lem e es last row r h =
      ap
        (λ b.
          if b
          then visible_after last es
          else add_visible (log_row defn bindings e.payload caller) e.id (visible_after last es))
        h
      ∙ ap (λ o. add_visible o e.id (visible_after last es)) r

  seen_lem :
      (e : GameEvent) (es : List GameEvent) (x : ℕ)
      → e.id ≤ x
      → visible_after x (e ∷ es) ≡ visible_after x es
  unfolding visible_after
  seen_lem e es x h = ground (arith, h)

  abbrev PagesFrom : List GameEvent → ℕ → Type 0
  PagesFrom es last = (n : ℕ) → Paged es last (suc n) (page_of es last (some (suc n)))

  module _ (e : GameEvent) (es : List GameEvent) (last : ℕ) (p : Payload) where
    abbrev one : List LogRow → List LogRow
    one rows = (e.id, p) ∷ rows

    -- A page goes on after a row that it shows.
    shown-Paged :
        (m : ℕ) (page : Page)
        → last < e.id
        → visible_after last (e ∷ es) ≡ one (visible_after last es)
        → visible_after e.id es ≡ visible_after last es
        → Paged es e.id (suc m) page
        → Paged (e ∷ es) last (suc (suc m)) (add_row (e.id, p) page)
    shown-Paged m page l v later q = record {
      resumes =
          ap (λ r. one (page.0 ++ r)) (seen_lem e es page.1 q.forward)
          ∙ ap one (q.resumes ∙ later)
          ∙ sym v;
      fits = omega (arith, q.fits);
      complete = λ short. seen_lem e es page.1 q.forward ∙ q.complete (omega (arith, short));
      forward = omega (arith, l, q.forward);
    }

    -- A page ends with the row that fills it.
    full-Paged :
        last < e.id
        → visible_after last (e ∷ es) ≡ one (visible_after last es)
        → visible_after e.id es ≡ visible_after last es
        → Paged (e ∷ es) last 1 ((e.id, p) ∷ [], e.id)
    full-Paged l v later = record {
      resumes = ap one (seen_lem e es e.id (omega arith) ∙ later) ∙ sym v;
      fits = omega arith;
      complete = λ short. absurd (omega (arith, short));
      forward = omega (arith, l);
    }

  hidden-Paged :
      (e : GameEvent) (es : List GameEvent) (last n : ℕ) (page : Page)
      → last < e.id
      → visible_after last (e ∷ es) ≡ visible_after last es
      → visible_after e.id es ≡ visible_after last es
      → Paged es e.id n page
      → Paged (e ∷ es) last n page
  hidden-Paged e es last n page l v later q = record {
    resumes = ap (λ r. page.0 ++ r) (seen_lem e es page.1 q.forward) ∙ q.resumes ∙ later ∙ sym v;
    fits = q.fits;
    complete = λ short. seen_lem e es page.1 q.forward ∙ q.complete short;
    forward = omega (arith, l, q.forward);
  }

  taken-Paged :
      (e : GameEvent) (es : List GameEvent) (last n : ℕ) (row : Option Payload)
      → last < e.id
      → visible_after last (e ∷ es) ≡ add_visible row e.id (visible_after last es)
      → visible_after e.id es ≡ visible_after last es
      → PagesFrom es e.id
      → Paged
          (e ∷ es)
          last
          (suc n)
          (take_row defn bindings caller head row e.id (some (suc n)) (λ r. page_of es e.id r))
  taken-Paged e es last n none l v later ih = hidden-Paged e es last (suc n) _ l v later (ih n)
  taken-Paged e es last zero (some p) l v later ih = full-Paged e es last p l v later
  taken-Paged e es last (suc m) (some p) l v later ih = shown-Paged e es last p m _ l v later (ih m)

  -- Where the ids of the events grow, a page of the caller's log holds at most as many rows as
  -- asked for; it and the rows after the id that it ends with are all the caller's rows after its
  -- start, none lost or repeated; if it is not full, no row is left.
  pub scan_log-Paged :
      (es : List GameEvent) (last n : ℕ)
      → Ascending es
      → Paged es last (suc n) (scan_log defn bindings caller head es last (some (suc n)))
  unfolding scan_log visible_after
  scan_log-Paged [] last n a = record {
    resumes = refl;
    fits = omega arith;
    complete = λ short. refl;
    forward = omega arith;
  }
  scan_log-Paged (e ∷ es) last n a =
      by_test (leb e.id last || leb e.id head) refl (scan_log-Paged es last n a.1)
        (λ m. scan_log-Paged es e.id m a.1)
    where
      by_test :
          (b : Bool)
          → (leb e.id last || leb e.id head) ≡ b
          → Paged es last (suc n) (page_of es last (some (suc n)))
          → PagesFrom es e.id
          → Paged (e ∷ es) last (suc n) (
              if b
              then page_of es last (some (suc n))
              else take_row defn bindings caller head
                  (log_row defn bindings e.payload caller)
                  e.id
                  (some (suc n))
                  (λ r. page_of es e.id r))
      by_test true h skip take = skipped_lem e es last (suc n) _ h skip
      by_test false h skip take =
          let later : last < e.id = ground (arith, h) in
          taken-Paged e es last n (log_row defn bindings e.payload caller) later
            (taken_lem e es last _ refl h)
            (visible_later e.id last es a.0 (All-later last e.id es later a.0)) take
