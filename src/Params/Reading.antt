-- ===== src/Params/Reading.antt =====
-- What substitution reads (src/bearpit/core/params.py, `substitute` and `parse_placeholders`).
use bearpit.Base.{
  ℕ, zero, suc, ◌≤◌, String, ◌≡◌, refl, ap, ◌∙◌, Bool, true, false, ◌&&◌, ◌||◌, List, [], ◌∷◌,
  if◌then◌else◌, or_else, ◌+++◌, All, arith,
}
use bearpit.Base.Dict.{Dict, lookup}
use text.Mathlib.TextLemmas.{cons-append, nil-append}
use Prim.Native.Char.{Char}
use bearpit.Params.Token.{
  is_char, dollar, open_brace, Piece, escape, braces, plain, as_written, next_piece, pieces_fuel,
  pieces, text_length,
}
use bearpit.Params.Placeholder.{
  Placeholder, body_name, is_name, as_placeholder, placeholders_in, parse_placeholders, rendered,
  render_all, substitute,
}

-- The two sets of values agree on the names of some placeholders.
abbrev pub Agree : Dict String → Dict String → List Placeholder → Type 0
Agree values other = All (λ (p : Placeholder). lookup p.name values ≡ lookup p.name other)

render_all-Agree :
    (values other : Dict String) (ps : List Piece)
    → Agree values other (placeholders_in ps)
    → render_all values ps ≡ render_all other ps
render_all-Agree values other [] a = refl
render_all-Agree values other (escape ∷ ps) a =
    ap (λ t. "${" +++ t) (render_all-Agree values other ps a)
render_all-Agree values other (plain c ∷ ps) a =
    ap (λ t. String.◌∷◌ c String.[] +++ t) (render_all-Agree values other ps a)
render_all-Agree values other (braces body ∷ ps) a =
    by_valid (is_name (body_name body)) a (render_all-Agree values other ps)
  where
    by_valid :
        (b : Bool)
        → Agree values other
            (if b then as_placeholder body ∷ placeholders_in ps else placeholders_in ps)
        → (Agree values other (placeholders_in ps) → render_all values ps ≡ render_all other ps)
        → (if b then or_else (lookup (body_name body) values) "" else as_written (braces body))
            +++ render_all values ps
          ≡ (if b then or_else (lookup (body_name body) other) "" else as_written (braces body))
            +++ render_all other ps
    by_valid true a rest =
        ap (λ o. or_else o "" +++ render_all values ps) a.0
        ∙ ap (λ t. or_else (lookup (body_name body) other) "" +++ t) (rest a.1)
    by_valid false a rest = ap (λ t. as_written (braces body) +++ t) (rest a)

-- Two sets of values that agree on the names of the placeholders that the parser reports for a text
-- give the same substituted text: substitution reads nothing else.
pub substitute-Agree :
    (text : String) (values other : Dict String)
    → Agree values other (parse_placeholders text)
    → substitute text values ≡ substitute text other
unfolding parse_placeholders substitute
substitute-Agree text values other a = render_all-Agree values other (pieces text) a

-- Somewhere in the text a `{` follows a `$`.
unfoldable pub has_opening : String → Bool
has_opening String.[] = false
has_opening (String.◌∷◌ c String.[]) = false
has_opening (String.◌∷◌ c (String.◌∷◌ d s)) =
    is_char dollar c && is_char open_brace d || has_opening (String.◌∷◌ d s)

next_piece-plain :
    (c : Char) (s : String) → has_opening (String.◌∷◌ c s) ≡ false → next_piece c s ≡ (plain c, s)
unfolding next_piece has_opening
next_piece-plain c String.[] h = refl
next_piece-plain c (String.◌∷◌ d String.[]) h = ground (arith, h)
next_piece-plain c (String.◌∷◌ d (String.◌∷◌ e s)) h = ground (arith, h)

tail_opening :
    (c : Char) (s : String) → has_opening (String.◌∷◌ c s) ≡ false → has_opening s ≡ false
unfolding has_opening
tail_opening c String.[] h = refl
tail_opening c (String.◌∷◌ d s) h = ground (arith, h)

render_fuel :
    (n : ℕ) (s : String) (values : Dict String)
    → text_length s ≤ n
    → has_opening s ≡ false
    → render_all values (pieces_fuel n s) ≡ s
unfolding pieces_fuel
render_fuel zero String.[] values l h = refl
render_fuel zero (String.◌∷◌ c s) values l h = absurd (omega (arith, l))
render_fuel (suc n) String.[] values l h = refl
render_fuel (suc n) (String.◌∷◌ c s) values l h =
    ap (λ (p : Piece × String). rendered values p.0 +++ render_all values (pieces_fuel n p.1))
      (next_piece-plain c s h)
    ∙ ap (λ t. String.◌∷◌ c String.[] +++ t)
        (render_fuel n s values (omega (arith, l)) (tail_opening c s h))
    ∙ cons-append c String.[] s
    ∙ ap (λ t. String.◌∷◌ c t) (nil-append s)

-- Text in which no `{` follows a `$` is left exactly as it is, whatever the values.
pub substitute_inert :
    (text : String) (values : Dict String)
    → has_opening text ≡ false
    → substitute text values ≡ text
unfolding substitute pieces
substitute_inert text values h = render_fuel (text_length text) text values (omega arith) h
