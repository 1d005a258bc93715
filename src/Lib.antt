-- ===== src/Lib.antt =====
-- Bearpit: a verification library beside the Python package src/bearpit.
--
-- Bearpit runs realms. In a realm, agents (containers with a language model) talk on a message
-- bus under a referee. The warden watches the realm, passes the floor on and ends the realm; the
-- realm tools give the referee and the agents what a model cannot be trusted with: a game state
-- machine, a sealed escrow, a tally; the chronicle keeps every event, and what is in memory is
-- rebuilt from it after a restart. Here the parts that decide are modelled, each by functions that
-- follow the source's, clause by clause:
--
-- * Machine, from core/machine.py and realmtools/machine.py. Machine/Decl has the declaration's
--   types, Machine/Validate and Machine/Authority the two validators (`structure` is `_structure`,
--   `authority` is `_authority_and_visibility`). Machine/State has the engine's data, Pointer,
--   Guards and Effects its parts, Act the functions `compute_wakes`, `act` and `set_value`, Rows
--   the payloads of the events, View `view` and `log_row`, Replay `replay_steps` and `replay`.
-- * Turns, from warden/turns.py: State (the fields of `TurnManager`), Speech (what is a
--   statement), Floor (`start`, `_grant`, `_cue_referee`, `_advance`, `_resume`), Observe
--   (`observe`), Resolutions (`apply_resolutions`).
-- * Termination, from warden/termination.py; Lifecycle, from core/state.py; RateLimit, from
--   herald/ratelimit.py; Tally, from realmtools/tally.py; Escrow, from realmtools/escrow.py.
-- * Arbiter, from realmtools/arbiter.py.
-- * Service, from realmtools/machine_service.py and chronicle/safety.py: Safety (`_refuse`,
--   `unstorable`), Chronicle (`append_event`, `events`), Load (`_load`, `_get`), Escrows
--   (`_escrow_for`), Calls (`act`, `set`, `declaration`; here `serve_act` and `serve_set`), Paging
--   (`state`). Storable, Pages, Append, Faithful, Operations and Refusals prove.
-- * Warden, from warden/warden.py: Conclude (`conclude`) and Watch (`watch`). Order, Success,
--   Ending and Nudges prove.
-- * Project, from core/schema.py and gatekeeper/machine_record.py: Spec (the authored fields),
--   Agents and Checks (the validators), Launch (`effective_termination`, `machine_record`). Roles
--   and Verdict prove.
-- * Params, from core/params.py: Token (`_TOKEN`), Placeholder (`parse_placeholders`,
--   `substitute`), Prose (`_prose_fields`, `bind`), Scan (`scan`), Values (`resolve_values`,
--   `missing_values`, `validate_values`). Reading, Unique, Declared and Choices prove.
-- * Grants, from core/tools.py: Registry (`tool_registry`, `_accept`), Manifest (`grant_manifest`),
--   Problems (`check_grants`, `elevated_grants`). Kept and Usable prove.
-- * Timeline, from realmtools/timeline.py: Changes (`diff_views`) and Build (`build_timeline`).
--   Compared, Accounts, Entries, Explained, Moves and Shows prove.
-- * Tokens, from realmtools/tokens.py: Mint (`mint_token`, `verify_token`). Split and Verify prove.
-- * Value has the values that the code types as `Any`; Base has what all share: dicts in insertion
--   order, sets of names, Python calls that return or raise (`Py`), texts and lists.
--
-- The parts interact through values: the machine's guards read which agents have sealed a round
-- (`escrow`, a table of names that the caller hands over); the warden hands the turn manager the
-- feed and the eliminations, and reads the machine's state for the termination test. The machine
-- service calls the engine, appends the event and then moves its live state; it rebuilds that state
-- from the events by the engine's replay. The watch asks the termination test about each snapshot.
--
-- State is a record that is passed on; a method that mutates it returns the new record. A call
-- that can raise returns `Py`, and an error that the code reports is a constructor of the answer.
-- Calls of the bus and of the chronicle are a list of effects, in their order; a call that raises
-- keeps none of them. Clocks are natural numbers, and a function that reads the clock twice takes
-- two readings. Numbers in JSON values are integers. Every loop of the source is a recursion on a
-- list, but for the tokens of a text (Params/Token): there the fuel is the number of characters
-- left, and each token takes at least one. The watch's polls come as a list. The operations of the
-- machine service run one after another, as the lock of a realm makes them.
--
-- Parameters stand for Python's text functions, regular expressions, file patterns and the
-- seconds of a duration text (`Text`, `Patterns`, `TallyText`), for the cipher of the escrow
-- (`Cipher`), the length of a JSON text, the code points of a text, which may be halves of
-- surrogate pairs, and the escrow lookup (`World`), for Python's floats (`Floats`), base64 and the
-- keyed hash (`Codec`), the JSON schema validator, and the validation of a substituted project; the
-- arbiter's points (`Points`, `Names`) stand for rounded floats and the reading of a name. Whether
-- the chronicle takes a row of the arbiter is an argument of its calls.
--
-- Not modelled: the web API, the containers, the bus, the database and the proxies, which are
-- input and output; the interleaving of a cold read of a realm with a writer; the private
-- commons; pydantic's parsing, lengths and ranges; the English
-- texts of refusals, notices and details, which are constructors with what they are made of;
-- custom tally rulesets; an escrow without a secret,
-- and an append of the escrow that raises.
pub mod Arbiter
pub mod Base
pub mod Value
pub mod Lifecycle
pub mod Machine
pub mod Service
pub mod Params
pub mod Project
pub mod RateLimit
pub mod Termination
pub mod Tally
pub mod Escrow
pub mod Grants
pub mod Tests
pub mod Timeline
pub mod Tokens
pub mod Turns
pub mod Warden
