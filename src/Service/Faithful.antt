-- ===== src/Service/Faithful.antt =====
-- The live states against the chronicle (src/bearpit/realmtools/machine_service.py, `_get`, `act`
-- and `set`).
use bearpit.Base.{
  String, ◌≡◌, refl, sym, ap, ◌∙◌, false, Option, none, some, ◌==◌, if◌then◌else◌, eq_iff,
  Bool-cases, inl, inr,
}
use mathlib.Core.Path.{subst}
use bearpit.Base.Dict.{Dict, lookup, insert, lookup-insert}
use bearpit.Service.Chronicle.{Chronicle}
use bearpit.Service.Load.{
  Live, Loaded, nothing, live, damaged, MachineService, load, remember, found_entry, get_unless,
  get, setdefault, setdefault_value,
}

-- Each live state is what the realm loads to.
abbrev pub Faithful : MachineService → Type 0
Faithful svc = (r : String) (l : Live) → lookup r svc.live ≡ some l → load r svc.chron ≡ live l

pub insert-Faithful :
    (chron : Option Chronicle) (d : Dict Live) (realm : String) (new : Live)
    → load realm chron ≡ live new
    → ((r : String) (l : Live) → (realm == r) ≡ false → lookup r d ≡ some l → load r chron ≡ live l)
    → Faithful (record { chron = chron; live = insert realm new d })
insert-Faithful chron d realm new e others r l h = elim (Bool-cases (realm == r)) [
  | inl same ↦
      let here : ◌≡◌ {A = Option Live} (some new) (some l) =
        ap (λ b. if b then some new else lookup r d) (sym same)
        ∙ sym (lookup-insert realm r new d)
        ∙ h in
      ap (λ x. load x chron) (sym ((eq_iff realm r).0 same)) ∙ e ∙ ap live (cc)
  | inr apart ↦ others r l apart (
      ap (λ b. if b then some new else lookup r d) (sym apart)
      ∙ sym (lookup-insert realm r new d)
      ∙ h)
]

remember-Faithful :
    (realm : String) (loaded : Loaded) (svc : MachineService)
    → load realm svc.chron ≡ loaded
    → lookup realm svc.live ≡ none
    → Faithful svc
    → Faithful (remember realm loaded svc)
remember-Faithful realm nothing svc e n f = f
remember-Faithful realm (damaged d) svc e n f = f
remember-Faithful realm (live l) svc e n f =
    subst (λ o. Faithful (remembered o)) (sym n)
      (insert-Faithful svc.chron svc.live realm l e (λ r k apart h. f r k h))
  where
    remembered : Option Live → MachineService
    remembered o = record svc { live = setdefault realm l o svc.live }

found_entry-load :
    (realm : String) (loaded : Loaded) (svc : MachineService)
    → lookup realm svc.live ≡ none
    → found_entry realm loaded svc ≡ loaded
found_entry-load realm nothing svc n = refl
found_entry-load realm (damaged d) svc n = refl
found_entry-load realm (live l) svc n = ap (λ o. live (setdefault_value l o)) n

pub remember-chron :
    (realm : String) (loaded : Loaded) (svc : MachineService)
    → (remember realm loaded svc).chron ≡ svc.chron
remember-chron realm nothing svc = refl
remember-chron realm (damaged d) svc = refl
remember-chron realm (live l) svc = refl

-- What `get` gives of a faithful service.
pub record Gotten (realm : String) (svc : MachineService) (found : Loaded × MachineService)
    : Type 0 where
  pub faithful : Faithful found.1
  pub loaded : found.0 ≡ load realm svc.chron
  pub same_chron : found.1.chron ≡ svc.chron

-- Taking a realm's machine from a service whose live states are those that the chronicle replays
-- to gives what the chronicle replays to, whether it was cached or not, and leaves the service so.
pub get-Faithful :
    (realm : String) (svc : MachineService) → Faithful svc → Gotten realm svc (get realm svc)
unfolding get
get-Faithful realm svc f = by_entry (lookup realm svc.live) refl
  where
    by_entry :
        (o : Option Live) → lookup realm svc.live ≡ o → Gotten realm svc (get_unless realm o svc)
    by_entry (some l) e = record { faithful = f; loaded = sym (f realm l e); same_chron = refl }
    by_entry none e = record {
      faithful = remember-Faithful realm (load realm svc.chron) svc refl e f;
      loaded = found_entry-load realm (load realm svc.chron) svc e;
      same_chron = remember-chron realm (load realm svc.chron) svc;
    }
