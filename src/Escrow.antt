-- ===== src/Escrow.antt =====
-- The sealed escrow (src/bearpit/realmtools/escrow.py): what was sealed can be revealed once, and
-- survives a restart. The cipher is a parameter, and the realm has a secret. An append that raises,
-- after which the memory is ahead of the chronicle, is left out.
pub mod Recovery
use bearpit.Base.{
  String, Bool, true, false, not, ◌&&◌, ◌||◌, ◌≡◌, refl, sym, ◌∙◌, ap, Option, none, some, List, [],
  ◌∷◌, ◌++◌, arith, ◌==◌, if◌then◌else◌, is_empty, is_some, or_else, contains, eq_iff, ==_refl, all,
}
use mathlib.Core.Path.{subst}
use bearpit.Base.Dict.{Dict, lookup, has_key, insert, keys, lookup-insert}
use bearpit.Base.StrSet.{StrSet, add, minus, subset, sorted, contains-add, of_list}

-- Fernet: a text that was not encrypted with the key gives `none` (InvalidToken).
pub record Cipher : Type 0 where
  pub encrypt : String → String
  pub decrypt : String → Option String

pub data SealEvent : Type 0 where
  sealed_submit : String → String → Option String → SealEvent
  reveal : String → Dict String → SealEvent

pub data SealedError : Type 0 where
  not_participant already_revealed already_sealed : SealedError

pub data Sealing {ℓ} (A : Type ℓ) : Type ℓ where
  accepted : A → Sealing A
  error : SealedError → Sealing A

-- The process's memory, and the chronicle's events of this realm.
pub record Escrow : Type 0 where
  pub participants : StrSet
  pub sealed : Dict (Dict String)
  pub revealed : StrSet
  pub loaded : Bool
  pub events : List SealEvent

-- A missing round or submission is empty.
abbrev pub round_of : String → Dict (Dict String) → Dict String
round_of r d = or_else (lookup r d) []

abbrev pub set_default {ℓ} : {V : Type ℓ} → String → V → Dict V → Dict V
set_default k v d = if has_key k d then d else insert k v d

module _ (cipher : Cipher) where
  abbrev pub named : String → String → String → Bool
  named r a blob = not (r == "") && (not (a == "") && not (blob == ""))

  abbrev pub take_plain : String → String → Option String → Dict (Dict String) → Dict (Dict String)
  take_plain r a none d = d
  take_plain r a (some p) d = insert r (set_default a p (round_of r d)) d

  -- One marker; a missing blob is an empty one.
  abbrev pub take_marker : String → String → String → Dict (Dict String) → Dict (Dict String)
  take_marker r a blob d = if named r a blob then take_plain r a (cipher.decrypt blob) d else d

  unfoldable pub read_submits : List SealEvent → Dict (Dict String) → Dict (Dict String)
  read_submits [] d = d
  read_submits (sealed_submit r a blob ∷ es) d =
      read_submits es (take_marker r a (or_else blob "") d)
  read_submits (reveal r p ∷ es) d = read_submits es d

  unfoldable pub read_reveals : List SealEvent → StrSet → StrSet
  read_reveals [] seen = seen
  read_reveals (sealed_submit r a blob ∷ es) seen = read_reveals es seen
  read_reveals (reveal r p ∷ es) seen = read_reveals es (add r seen)

  -- `_load`, with a secret.
  unfoldable pub load : Escrow → Escrow
  unfolding read_submits read_reveals
  load s = if s.loaded then s else record s {
    sealed = read_submits s.events s.sealed;
    revealed = read_reveals s.events s.revealed;
    loaded = true;
  }

  abbrev pub seal_in : String → String → String → Escrow → Escrow
  seal_in r a payload s = record s {
    sealed = insert r (insert a payload (round_of r s.sealed)) s.sealed;
    events = s.events ++ sealed_submit r a (some (cipher.encrypt payload)) ∷ [];
  }

  abbrev pub submit_loaded : String → String → String → Escrow → Sealing Escrow
  submit_loaded r a payload s =
      if not (contains a s.participants)
      then error not_participant
      else if contains r s.revealed
      then error already_revealed
      else if has_key a (round_of r s.sealed)
      then error already_sealed
      else accepted (seal_in r a payload s)

  unfoldable pub submit : String → String → String → Escrow → Sealing Escrow
  unfolding load
  submit r a payload s = submit_loaded r a payload (load s)

  unfoldable pub status : String → Escrow → List String × List String
  status r s =
      let submitted = keys (round_of r s.sealed) in
      (sorted submitted, sorted (minus s.participants submitted))

  unfoldable pub all_in : String → Escrow → Bool
  all_in r s = not (is_empty s.participants) && subset s.participants (keys (round_of r s.sealed))

  abbrev pub reveal_loaded : String → Escrow → Sealing (Escrow × Dict String)
  reveal_loaded r s =
      if contains r s.revealed
      then error already_revealed
      else (let payloads = round_of r s.sealed in
          accepted (
            record s { revealed = add r s.revealed; events = s.events ++ reveal r payloads ∷ [] },
            payloads,
          ))

  unfoldable pub reveal_round : String → Escrow → Sealing (Escrow × Dict String)
  unfolding load
  reveal_round r s = reveal_loaded r (load s)

  -- A new process: only the chronicle is left.
  abbrev pub restarted : Escrow → Escrow
  restarted s = record s { sealed = []; revealed = []; loaded = false }

  abbrev pub sealed_at : String → String → Dict (Dict String) → Option String
  sealed_at r a d = lookup a (round_of r d)
