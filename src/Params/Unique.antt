-- ===== src/Params/Unique.antt =====
-- Each parameter is found once (src/bearpit/core/params.py, `scan`).
use bearpit.Base.{
  String, ◌≡◌, refl, sym, ap, ◌∙◌, Bool, true, false, List, [], ◌∷◌, Option, none, some,
  if◌then◌else◌,
}
use mathlib.Core.Path.{subst}
use bearpit.Base.Dict.{lookup, has_key, insert, UniqueKeys, insert-UniqueKeys}
use bearpit.Params.Placeholder.{Placeholder, parse_placeholders}
use bearpit.Params.Prose.{Field}
use bearpit.Params.Scan.{
  ParameterError, Found, Scanned, scanned, error, and_scan, note_path, note_default, same_as_prior,
  note_description, note_placeholder, note_all, find_in,
}

pub and_scan-eq {ℓ κ} :
    {A : Type ℓ} {B : Type κ} (m : Scanned A) (f : A → Scanned B) (b : B)
    → and_scan m f ≡ scanned b
    → (a : A) × (m ≡ scanned a) × (f a ≡ scanned b)
and_scan-eq (scanned a) f b e = (a, refl, e)
and_scan-eq (error x) f b e = cc

-- What the walk over the prose keeps: each name once.
abbrev pub Once : Found → Type 0
Once f = UniqueKeys f.occurrences

note_path-Once : (name path : String) (f : Found) → Once f → Once (note_path name path f)
note_path-Once name path f u = insert-UniqueKeys name _ f.occurrences u

note_default-occurrences :
    (name : String) (d : Option String) (f g : Found)
    → note_default name d f ≡ scanned g
    → f.occurrences ≡ g.occurrences
note_default-occurrences name none f g e =
    let same : f ≡ g = cc in ap (λ (x : Found). x.occurrences) same
note_default-occurrences name (some d) f g e =
    by_test (same_as_prior (lookup name f.inline_default) d) e
  where
    by_test :
        (b : Bool)
        → (if b
            then scanned (record f { inline_default = insert name d f.inline_default })
            else error (ParameterError.two_defaults name))
          ≡ scanned g
        → f.occurrences ≡ g.occurrences
    by_test true e =
        let same : (record f { inline_default = insert name d f.inline_default }) ≡ g = cc in
        ap (λ (x : Found). x.occurrences) same
    by_test false e = cc

note_description-occurrences :
    (name : String) (d : Option String) (f : Found)
    → (note_description name d f).occurrences ≡ f.occurrences
note_description-occurrences name none f = refl
note_description-occurrences name (some d) f = by_test (has_key name f.inline_desc)
  where
    by_test :
        (b : Bool)
        → (if b then f else record f { inline_desc = insert name d f.inline_desc }).occurrences
          ≡ f.occurrences
    by_test true = refl
    by_test false = refl

note_placeholder-Once :
    (path : String) (ph : Placeholder) (f g : Found)
    → note_placeholder path ph f ≡ scanned g
    → Once f
    → Once g
note_placeholder-Once path ph f g e u =
    let (h, eh, eg) =
      and_scan-eq (note_default ph.name ph.default (note_path ph.name path f)) _ g e in
    let same : note_description ph.name ph.description h ≡ g = cc in
    subst UniqueKeys
      (note_default-occurrences ph.name ph.default (note_path ph.name path f) h eh
        ∙ sym (note_description-occurrences ph.name ph.description h)
        ∙ ap (λ (x : Found). x.occurrences) same)
      (note_path-Once ph.name path f u)

note_all-Once :
    (path : String) (phs : List Placeholder) (f g : Found)
    → note_all path phs f ≡ scanned g
    → Once f
    → Once g
note_all-Once path [] f g e u = let same : f ≡ g = cc in subst Once same u
note_all-Once path (ph ∷ phs) f g e u =
    let (h, eh, eg) = and_scan-eq (note_placeholder path ph f) _ g e in
    note_all-Once path phs h g eg (note_placeholder-Once path ph f h eh u)

pub find_in-Once :
    (fields : List Field) (f g : Found) → find_in fields f ≡ scanned g → Once f → Once g
unfolding find_in
find_in-Once [] f g e u = let same : f ≡ g = cc in subst Once same u
find_in-Once ((path, text) ∷ fields) f g e u =
    let (h, eh, eg) = and_scan-eq (note_all path (parse_placeholders text) f) _ g e in
    find_in-Once fields h g eg (note_all-Once path (parse_placeholders text) f h eh u)
