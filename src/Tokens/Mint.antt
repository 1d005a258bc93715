-- ===== src/Tokens/Mint.antt =====
-- Minting and verifying a token (src/bearpit/realmtools/tokens.py). The base64 texts and the keyed
-- hash are those of the standard library.
use bearpit.Base.{
  ℕ, ◌-◌, String, Bool, true, false, not, ◌&&◌, List, [], ◌∷◌, Option, none, some, if◌then◌else◌,
  eqb, ltb, ◌==◌, ◌+++◌, select,
}
use bearpit.Base.StrSet.{sorted}
use bearpit.Base.Outcome.{Py, ok, raised, type_error}
use Prim.Native.Char.{Char, code}

-- `encode` is `urlsafe_b64encode` without its padding, `decode` the decoding of such a text, `none`
-- where it raises, and `sign` is `_sign`.
pub record Codec : Type 0 where
  pub encode : String → String
  pub decode : String → Option String
  pub sign : String → String → String

abbrev pub colon : Char
colon = ":"

abbrev pub comma : Char
comma = ","

abbrev pub dot : Char
dot = "."

abbrev pub same_char : Char → Char → Bool
same_char c d = eqb (code c) (code d)

-- `c.join(xs)`
unfoldable pub join : Char → List String → String
join c [] = String.[]
join c (x ∷ []) = x
join c (x ∷ y ∷ xs) = x +++ String.◌∷◌ c (join c (y ∷ xs))

abbrev pub onto_first : Char → List String → List String
onto_first d [] = String.◌∷◌ d String.[] ∷ []
onto_first d (p ∷ ps) = String.◌∷◌ d p ∷ ps

-- `s.split(c, room)`: at most `room` cuts, or any number of them.
abbrev pub may_cut : Option ℕ → Bool
may_cut none = true
may_cut (some n) = ltb 0 n

abbrev pub one_less : Option ℕ → Option ℕ
one_less none = none
one_less (some n) = some (n - 1)

unfoldable pub split : Char → Option ℕ → String → List String
split c room String.[] = String.[] ∷ []
split c room (String.◌∷◌ d s) =
    let cut = split c (one_less room) s in
    let on = split c room s in
    if same_char d c && may_cut room then String.[] ∷ cut else onto_first d on

-- What a token says of its bearer.
pub record Bearer : Type 0 where
  pub realm_id : String
  pub agent_id : String
  pub is_referee : Bool
  pub roster : List String
  pub grants : List String

abbrev pub role_name : Bool → String
role_name true = "referee"
role_name false = "player"

unfoldable pub payload_of : Bearer → String
unfolding join
payload_of b = join colon (
    b.realm_id
    ∷ b.agent_id
    ∷ role_name b.is_referee
    ∷ join comma b.roster
    ∷ join comma (sorted b.grants)
    ∷ [])

abbrev pub nonempty_parts : List String → List String
nonempty_parts parts = select (λ p. not (p == "")) parts

abbrev pub bearer_of : String → String → String → String → String → Bearer
unfolding split
bearer_of realm agent role roster grants = record {
  realm_id = realm;
  agent_id = agent;
  is_referee = role == "referee";
  roster = nonempty_parts (split comma none roster);
  grants = nonempty_parts (split comma none grants);
}

-- A payload has five fields, or four where it is from before grants existed.
abbrev pub bearer_in : List String → Option Bearer
bearer_in (r ∷ a ∷ role ∷ roster ∷ []) = some (bearer_of r a role roster "")
bearer_in (r ∷ a ∷ role ∷ roster ∷ grants ∷ []) = some (bearer_of r a role roster grants)
bearer_in _ = none

abbrev pub is_ascii : String → Bool
is_ascii String.[] = true
is_ascii (String.◌∷◌ c s) = ltb (code c) 128 && is_ascii s

module _ (codec : Codec) where
  unfoldable pub mint_token : String → Bearer → String
  mint_token secret b =
      let payload = payload_of b in
      codec.encode payload +++ String.◌∷◌ dot (codec.sign payload secret)

  -- `compare_digest` raises on a text with a character outside ASCII.
  abbrev pub signed : String → String → String → Option Bearer → Py (Option Bearer)
  signed sig payload secret none = ok none
  signed sig payload secret (some b) =
      let own = codec.sign payload secret in
      if is_ascii sig && is_ascii own
      then ok (if sig == own then some b else none)
      else raised type_error

  abbrev pub verify_payload : String → String → Option String → Py (Option Bearer)
  verify_payload sig secret none = ok none
  verify_payload sig secret (some payload) =
      signed sig payload secret (bearer_in (split colon (some 4) payload))

  abbrev pub verify_parts : String → List String → Py (Option Bearer)
  verify_parts secret (body ∷ sig ∷ []) = verify_payload sig secret (codec.decode body)
  verify_parts secret _ = ok none

  unfoldable pub verify_token : String → String → Py (Option Bearer)
  verify_token token secret = verify_parts secret (split dot (some 1) token)
