-- ===== src/Tokens/Verify.antt =====
-- A minted token under `verify_token` (src/bearpit/realmtools/tokens.py).
use bearpit.Base.{
  ◌-◌, String, ◌≡◌, refl, ap, ◌∙◌, Bool, true, false, not, ◌&&◌, List, [], ◌∷◌, none, some,
  if◌then◌else◌, ◌==◌, ◌+++◌, All,
}
use bearpit.Base.{==_refl, str_leb}
use bearpit.Base.StrSet.{sorted, insert_sorted}
use bearpit.Base.Outcome.{ok, raised, type_error}
use Prim.Native.Char.{Char}
use bearpit.Tokens.Mint.{
  Codec, Bearer, colon, comma, dot, same_char, join, onto_first, split, role_name, payload_of,
  nonempty_parts, bearer_in, mint_token, verify_token, verify_parts, verify_payload, signed,
  is_ascii,
}
use bearpit.Tokens.Split.{free_of, split-part, split-join, free_of-join}

-- With no cut left, the rest is one part.
split-rest : (c : Char) (s : String) → split c (some 0) s ≡ s ∷ []
unfolding split
split-rest c String.[] = refl
split-rest c (String.◌∷◌ d s) = by_test (same_char d c) (split-rest c s)
  where
    by_test :
        (b : Bool)
        → split c (some 0) s ≡ s ∷ []
        → (if b && false
            then String.[] ∷ split c (some (0 - 1)) s
            else onto_first d (split c (some 0) s))
          ≡ String.◌∷◌ d s ∷ []
    by_test true h = ap (onto_first d) h
    by_test false h = ap (onto_first d) h

-- A name that may stand in a list of a token.
pub record Listed (name : String) : Type 0 where
  pub no_colon : free_of colon name ≡ true
  pub no_comma : free_of comma name ≡ true
  pub given : (name == "") ≡ false

-- The names in a token are without its separators, as the schema's ids and tool names are.
pub record Named (b : Bearer) : Type 0 where
  pub realm : free_of colon b.realm_id ≡ true
  pub agent : free_of colon b.agent_id ≡ true
  pub roster : All Listed b.roster
  pub grants : All Listed b.grants

insert_sorted-All :
    (P : String → Type 0) (a : String) (xs : List String)
    → P a
    → All P xs
    → All P (insert_sorted a xs)
insert_sorted-All P a [] p h = (p, tt)
insert_sorted-All P a (x ∷ xs) p h = by_test (str_leb a x) (insert_sorted-All P a xs p h.1)
  where
    by_test :
        (b : Bool)
        → All P (insert_sorted a xs)
        → All P (if b then a ∷ x ∷ xs else x ∷ insert_sorted a xs)
    by_test true r = (p, h)
    by_test false r = (h.0, r)

sorted-All : (P : String → Type 0) (xs : List String) → All P xs → All P (sorted xs)
sorted-All P [] h = tt
sorted-All P (x ∷ xs) h = insert_sorted-All P x (sorted xs) h.0 (sorted-All P xs h.1)

commas-free : (xs : List String) → All Listed xs → All (λ y. free_of comma y ≡ true) xs
commas-free [] h = tt
commas-free (x ∷ xs) h = (h.0.no_comma, commas-free xs h.1)

colons-free : (xs : List String) → All Listed xs → All (λ y. free_of colon y ≡ true) xs
colons-free [] h = tt
colons-free (x ∷ xs) h = (h.0.no_colon, colons-free xs h.1)

select-given : (xs : List String) → All Listed xs → nonempty_parts xs ≡ xs
select-given [] h = refl
select-given (x ∷ xs) h =
    ap (λ b. if not b then x ∷ nonempty_parts xs else nonempty_parts xs) h.0.given
    ∙ ap (λ l. x ∷ l) (select-given xs h.1)

-- A list of names comes back from its text.
names_again :
    (xs : List String) → All Listed xs → nonempty_parts (split comma none (join comma xs)) ≡ xs
unfolding join split
names_again [] h = refl
names_again (x ∷ xs) h =
    ap nonempty_parts (split-join comma x xs h.0.no_comma (commas-free xs h.1))
    ∙ select-given (x ∷ xs) h

role_free : (b : Bool) → free_of colon (role_name b) ≡ true
role_free true = refl
role_free false = refl

role_again : (b : Bool) → (role_name b == "referee") ≡ b
role_again true = refl
role_again false = refl

abbrev parts_of : Bearer → List String
unfolding join
parts_of b =
    b.realm_id
    ∷ b.agent_id
    ∷ role_name b.is_referee
    ∷ join comma b.roster
    ∷ join comma (sorted b.grants)
    ∷ []

payload-parts : (b : Bearer) → Named b → split colon (some 4) (payload_of b) ≡ parts_of b
unfolding payload_of join
payload-parts b n =
    let roster = join comma b.roster in
    let grants = join comma (sorted b.grants) in
    let role = role_name b.is_referee in
    let last = roster +++ String.◌∷◌ colon grants in
    split-part colon (some 4) b.realm_id
      (b.agent_id +++ String.◌∷◌ colon (role +++ String.◌∷◌ colon last)) n.realm refl
    ∙ ap (λ l. b.realm_id ∷ l)
        (split-part colon (some 3) b.agent_id (role +++ String.◌∷◌ colon last) n.agent refl
          ∙ ap (λ l. b.agent_id ∷ l)
              (split-part colon (some 2) role last (role_free b.is_referee) refl
                ∙ ap (λ l. role ∷ l)
                    (split-part colon (some 1) roster grants
                        (free_of-join colon comma b.roster refl (colons-free b.roster n.roster))
                        refl
                      ∙ ap (λ l. roster ∷ l) (split-rest colon grants))))

bearer_again :
    (b : Bearer) → Named b → bearer_in (parts_of b) ≡ some (record b { grants = sorted b.grants })
unfolding split join
bearer_again b n =
    ap
      (λ (r : Bool). some (record {
        realm_id = b.realm_id;
        agent_id = b.agent_id;
        is_referee = r;
        roster = nonempty_parts (split comma none (join comma b.roster));
        grants = nonempty_parts (split comma none (join comma (sorted b.grants)));
      }))
      (role_again b.is_referee)
    ∙ ap
        (λ (l : List String). some (record b {
          roster = l;
          grants = nonempty_parts (split comma none (join comma (sorted b.grants)));
        }))
        (names_again b.roster n.roster)
    ∙ ap (λ (l : List String). some (record b { grants = l }))
        (names_again (sorted b.grants) (sorted-All Listed b.grants n.grants))

-- What the base64 texts promise: they decode to what was encoded, have no dot, and are ASCII.
pub record Lawful (codec : Codec) : Type 0 where
  pub decodes : (s : String) → codec.decode (codec.encode s) ≡ some s
  pub no_dot : (s : String) → free_of dot (codec.encode s) ≡ true
  pub ascii : (payload secret : String) → is_ascii (codec.sign payload secret) ≡ true

-- A signature is taken by the one who made it.
signed_own :
    (codec : Codec) (payload secret : String) (b : Bearer)
    → Lawful codec
    → signed codec (codec.sign payload secret) payload secret (some b) ≡ ok (some b)
signed_own codec payload secret b law =
    let own = codec.sign payload secret in
    ap (λ t. if t && t then ok (if own == own then some b else none) else raised type_error)
      (law.ascii payload secret)
    ∙ ap (λ t. ok (if t then some b else none)) (==_refl own)

-- A token whose names are without the separators verifies, with the secret that it was minted with,
-- as exactly its bearer: realm, agent, role and roster, and the grants in their order; base64 texts
-- must decode to what was encoded, without a dot, and signatures must be ASCII.
pub verify_token-mint_token :
    (codec : Codec) (secret : String) (b : Bearer)
    → Lawful codec
    → Named b
    → verify_token codec (mint_token codec secret b) secret
      ≡ ok (some (record b { grants = sorted b.grants }))
unfolding verify_token mint_token
verify_token-mint_token codec secret b law n =
    let payload = payload_of b in
    let sig = codec.sign payload secret in
    let body = codec.encode payload in
    ap (verify_parts codec secret) (
      split-part dot (some 1) body sig (law.no_dot payload) refl
      ∙ ap (λ l. body ∷ l) (split-rest dot sig))
    ∙ ap (verify_payload codec sig secret) (law.decodes payload)
    ∙ ap (λ l. signed codec sig payload secret (bearer_in l)) (payload-parts b n)
    ∙ ap (signed codec sig payload secret) (bearer_again b n)
    ∙ signed_own codec payload secret (record b { grants = sorted b.grants }) law
