-- ===== src/Tokens/Tests.antt =====
-- A token, and the theorem applied to it (src/bearpit/realmtools/tokens.py).
use bearpit.Base.{
  String, ◌≡◌, refl, sym, ap, ◌∙◌, Bool, true, false, not, ◌&&◌, [], ◌∷◌, Option, none, some,
  if◌then◌else◌, arith,
}
use bearpit.Base.Outcome.{ok}
use Prim.Native.Char.{Char}
use text.Mathlib.TextEquality.{Char-path}
use bearpit.Tokens.Mint.{Codec, Bearer, dot, same_char, mint_token, verify_token}
use bearpit.Tokens.Split.{free_of}
use bearpit.Tokens.Verify.{Lawful, Named, verify_token-mint_token}

-- A code in place of base64: each character behind a tag, and a dot as another character.
abbrev one : Char
one = "1"

abbrev zero_tag : Char
zero_tag = "0"

abbrev tagged : String → String
tagged String.[] = String.[]
tagged (String.◌∷◌ c s) =
    if same_char c dot
    then String.◌∷◌ one (String.◌∷◌ zero_tag (tagged s))
    else String.◌∷◌ zero_tag (String.◌∷◌ c (tagged s))

abbrev onto : Char → Option String → Option String
onto c none = none
onto c (some s) = some (String.◌∷◌ c s)

abbrev untagged : String → Option String
untagged String.[] = some String.[]
untagged (String.◌∷◌ t String.[]) = none
untagged (String.◌∷◌ t (String.◌∷◌ c s)) =
    let rest = untagged s in if same_char t one then onto dot rest else onto c rest

abbrev tags : Codec
tags = record { encode = tagged; decode = untagged; sign = λ payload secret. "seal" }

untagged-tagged : (s : String) → untagged (tagged s) ≡ some s
untagged-tagged String.[] = refl
untagged-tagged (String.◌∷◌ c s) = by_test (same_char c dot) refl (untagged-tagged s)
  where
    by_test :
        (b : Bool)
        → same_char c dot ≡ b
        → untagged (tagged s) ≡ some s
        → untagged (
            if b
            then String.◌∷◌ one (String.◌∷◌ zero_tag (tagged s))
            else String.◌∷◌ zero_tag (String.◌∷◌ c (tagged s)))
          ≡ some (String.◌∷◌ c s)
    by_test true e h =
        ap (onto dot) h
        ∙ ap (λ d. some (String.◌∷◌ d s)) (sym (Char-path c dot (ground (arith, e))))
    by_test false e h = ap (onto c) h

tagged-free : (s : String) → free_of dot (tagged s) ≡ true
tagged-free String.[] = refl
tagged-free (String.◌∷◌ c s) = by_test (same_char c dot) refl (tagged-free s)
  where
    by_test :
        (b : Bool)
        → same_char c dot ≡ b
        → free_of dot (tagged s) ≡ true
        → free_of dot (
            if b
            then String.◌∷◌ one (String.◌∷◌ zero_tag (tagged s))
            else String.◌∷◌ zero_tag (String.◌∷◌ c (tagged s)))
          ≡ true
    by_test true e h = h
    by_test false e h = ap (λ b. not b && free_of dot (tagged s)) e ∙ h

tags-Lawful : Lawful tags
tags-Lawful = record {
  decodes = untagged-tagged;
  no_dot = tagged-free;
  ascii = λ payload secret. refl;
}

abbrev ann : Bearer
ann = record {
  realm_id = "duel";
  agent_id = "ann";
  is_referee = false;
  roster = "ann" ∷ "bob" ∷ [];
  grants = "web.search" ∷ "file.read" ∷ [];
}

ann-Named : Named ann
ann-Named = record {
  realm = refl;
  agent = refl;
  roster = (
    record { no_colon = refl; no_comma = refl; given = refl },
    (record { no_colon = refl; no_comma = refl; given = refl }, tt),
  );
  grants = (
    record { no_colon = refl; no_comma = refl; given = refl },
    (record { no_colon = refl; no_comma = refl; given = refl }, tt),
  );
}

verify_token-mint_token_example :
    verify_token tags (mint_token tags "key" ann) "key"
    ≡ ok (some (record ann { grants = "file.read" ∷ "web.search" ∷ [] }))
verify_token-mint_token_example = verify_token-mint_token tags "key" ann tags-Lawful ann-Named
