-- ===== src/Lifecycle.antt =====
-- The states of realms and of agents (src/bearpit/core/state.py).
use bearpit.Base.{
  ℕ, ◌<◌, ◌≤◌, ◌≡◌, refl, Bool, true, false, arith, List, [], ◌∷◌, if◌then◌else◌, length,
}
use bearpit.Base.Outcome.{Py, ok, raised, value_error}

pub data RealmState : Type 0 where
  draft provisioning running concluding archived failed : RealmState

pub data AgentState : Type 0 where
  provisioning running starved stopped killed archived failed : AgentState

-- `REALM_TRANSITIONS`, as a test.
unfoldable pub realm_can_transition : RealmState → RealmState → Bool
realm_can_transition RealmState.draft RealmState.provisioning = true
realm_can_transition RealmState.draft RealmState.failed = true
realm_can_transition RealmState.provisioning RealmState.running = true
realm_can_transition RealmState.provisioning RealmState.failed = true
realm_can_transition RealmState.running RealmState.concluding = true
realm_can_transition RealmState.running RealmState.failed = true
realm_can_transition RealmState.concluding RealmState.archived = true
realm_can_transition RealmState.concluding RealmState.failed = true
realm_can_transition _ _ = false

-- `AGENT_TRANSITIONS`
unfoldable pub agent_can_transition : AgentState → AgentState → Bool
agent_can_transition AgentState.provisioning AgentState.running = true
agent_can_transition AgentState.provisioning AgentState.failed = true
agent_can_transition AgentState.running AgentState.starved = true
agent_can_transition AgentState.running AgentState.stopped = true
agent_can_transition AgentState.running AgentState.killed = true
agent_can_transition AgentState.running AgentState.failed = true
agent_can_transition AgentState.starved AgentState.running = true
agent_can_transition AgentState.starved AgentState.stopped = true
agent_can_transition AgentState.starved AgentState.killed = true
agent_can_transition AgentState.stopped AgentState.archived = true
agent_can_transition AgentState.killed AgentState.archived = true
agent_can_transition _ _ = false

-- `InvalidTransition` is a ValueError.
unfoldable pub realm_transition : RealmState → RealmState → Py RealmState
unfolding realm_can_transition
realm_transition frm to = if realm_can_transition frm to then ok to else raised value_error

unfoldable pub agent_transition : AgentState → AgentState → Py AgentState
unfolding agent_can_transition
agent_transition frm to = if agent_can_transition frm to then ok to else raised value_error

-- The states that a realm goes through after one, each by a transition that was accepted.
pub data Goes : RealmState → List RealmState → Type 0 where
  rests : (s : RealmState) → Goes s []
  moves :
      (s t : RealmState) (later : List RealmState)
      → realm_transition s t ≡ ok t
      → Goes t later
      → Goes s (t ∷ later)

-- An agent gets from one state to another by transitions that were accepted.
pub data Reaches : AgentState → AgentState → Type 0 where
  here : (s : AgentState) → Reaches s s
  step : (s t u : AgentState) → agent_transition s t ≡ ok t → Reaches t u → Reaches s u

abbrev pub stages_left : RealmState → ℕ
stages_left RealmState.draft = 4
stages_left RealmState.provisioning = 3
stages_left RealmState.running = 2
stages_left RealmState.concluding = 1
stages_left _ = 0

accepted-realm : (s t : RealmState) → realm_transition s t ≡ ok t → realm_can_transition s t ≡ true
unfolding realm_transition
accepted-realm s t h = by_test (realm_can_transition s t) h
  where
    by_test : (b : Bool) → (if b then ok t else raised value_error) ≡ ok t → b ≡ true
    by_test true h = refl
    by_test false h = cc

nearer : (s t : RealmState) → realm_can_transition s t ≡ true → stages_left t < stages_left s
unfolding realm_can_transition
nearer s t h = ground arith

-- A realm goes through at most as many states as are left to it: four from a draft, and none once
-- it was archived or has failed.
pub transitions_bounded :
    (s : RealmState) (later : List RealmState) → Goes s later → length later ≤ stages_left s
transitions_bounded s _ (rests _) = omega arith
transitions_bounded s _ (moves _ t later h g) =
    omega (arith, nearer s t (accepted-realm s t h), transitions_bounded t later g)

abbrev pub ended : AgentState → Bool
ended AgentState.stopped = true
ended AgentState.killed = true
ended AgentState.archived = true
ended AgentState.failed = true
ended _ = false

accepted-agent : (s t : AgentState) → agent_transition s t ≡ ok t → agent_can_transition s t ≡ true
unfolding agent_transition
accepted-agent s t h = by_test (agent_can_transition s t) h
  where
    by_test : (b : Bool) → (if b then ok t else raised value_error) ≡ ok t → b ≡ true
    by_test true h = refl
    by_test false h = cc

stays_ended : (s t : AgentState) → agent_can_transition s t ≡ true → ended s ≡ true → ended t ≡ true
unfolding agent_can_transition
stays_ended s t h e = ground arith

-- An agent that was stopped or killed, was archived or has failed is in one of these states ever
-- after.
ended_for_good : (s t : AgentState) → Reaches s t → ended s ≡ true → ended t ≡ true
ended_for_good s _ (here _) e = e
ended_for_good s _ (step _ t u h g) e =
    ended_for_good t u g (stays_ended s t (accepted-agent s t h) e)
