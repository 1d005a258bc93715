-- ===== src/Base/Text.antt =====
-- What the code asks of a text: a prefix, the order that `sorted` uses, and decimal numerals.
use Prim.Native.Nat.{ℕ, zero, suc, ◌/◌, ◌%◌}
use Prim.Native.Char.{code}
use Prim.Native.String.{String, compare, ◌++◌}
use mathlib.Core.Path.{◌≡◌, refl}
use mathlib.Core.Bool.{Bool, true}
use mathlib.Core.Option.{Option, none, some}
use text.Mathlib.Text.{◌==◌, is_le}
use text.Mathlib.TextEquality.{eq_iff}
use bearpit.Base.Tests.{eqb, if◌then◌else◌}

infixl 65 ◌+++◌
abbrev pub ◌+++◌ : String → String → String
s +++ t = s ++ t

-- `s[len(p):]` when `s.startswith(p)`, else `none`. Characters, not bytes.
abbrev pub strip_prefix : String → String → Option String
strip_prefix String.[] s = some s
strip_prefix (String.◌∷◌ c p) String.[] = none
strip_prefix (String.◌∷◌ c p) (String.◌∷◌ d s) =
    let rest = strip_prefix p s in if eqb (code c) (code d) then rest else none

-- The order of `sorted`: by code points.
abbrev pub str_leb : String → String → Bool
str_leb s t = is_le (compare s t)

abbrev digit : ℕ → String
digit zero = "0"
digit (suc zero) = "1"
digit (suc (suc zero)) = "2"
digit (suc (suc (suc zero))) = "3"
digit (suc (suc (suc (suc zero)))) = "4"
digit (suc (suc (suc (suc (suc zero))))) = "5"
digit (suc (suc (suc (suc (suc (suc zero)))))) = "6"
digit (suc (suc (suc (suc (suc (suc (suc zero))))))) = "7"
digit (suc (suc (suc (suc (suc (suc (suc (suc zero)))))))) = "8"
digit n = "9"

decimal_fuel : ℕ → ℕ → String
decimal_fuel zero n = digit (n % 10)
decimal_fuel (suc f) n =
    let front = decimal_fuel f (n / 10) in
    if eqb (n / 10) 0 then digit (n % 10) else front ++ digit (n % 10)

-- `str(n)` of a natural number; a number has at most as many digits as its value.
unfoldable pub decimal : ℕ → String
unfolding decimal_fuel
decimal n = decimal_fuel n n

pub ==_refl : (s : String) → (s == s) ≡ true
==_refl s = (eq_iff s s).1 refl
