-- ===== src/Project/Tests.antt =====
-- A project with a machine, and the theorems applied to it (src/bearpit/core/schema.py).
use bearpit.Base.{◌≡◌, refl, true, false, none, some, [], ◌∷◌, is_some, ◌==◌}
use bearpit.Machine.State.{members_of}
use bearpit.Machine.Samples.{game, table, players}
use bearpit.Termination.{Snapshot, Patterns, evaluate_termination}
use bearpit.Service.Chronicle.{MachineRecord}
use bearpit.Project.Spec.{AgentRole, AgentSpec, EgressTier, MechanicKind, Project}
use bearpit.Project.Checks.{check_project}
use bearpit.Project.Launch.{machine_record, effective_termination}
use bearpit.Project.Roles.{Bound, machine_record-Bound}
use bearpit.Project.Verdict.{effective_termination_ends}

abbrev ann : AgentSpec
ann = record {
  id = "ann";
  role = AgentRole.participant;
  model = none;
  budget = record { max_usd = none; max_tokens = none };
  tools = "web.search" ∷ [];
  skills = [];
  private_messaging = record {
    enabled = false;
    include_referee = false;
    peers = [];
    max_per_round = 0;
  };
  rubric = none;
  powers = none;
}

abbrev dee : AgentSpec
dee = record ann {
  id = "dee";
  role = AgentRole.referee;
  tools = [];
  rubric = some "Score the bids";
  powers =
      some (record { read_dms = false; inspect_private_fs = false; verdict_ends_realm = true });
}

abbrev card_game : Project
card_game = record {
  spec = record {
    network_egress = EgressTier.model_only;
    termination = [];
    mechanics =
        record { kind = MechanicKind.state_machine; rule_set = none; machine = some game } ∷ [];
    turns = none;
    outputs = "scores/*.md" ∷ [];
    tools = "web.search" ∷ [];
  };
  agents = ann ∷ record ann { id = "bob" } ∷ record ann { id = "cat" } ∷ dee ∷ [];
}

card_game-passes : check_project card_game ≡ none
unfolding check_project
card_game-passes = refl

abbrev card_record : MachineRecord
card_record = record { version = 1; machine_def = game; bindings = table }

card_game-recorded : machine_record card_game ≡ some card_record
unfolding machine_record
card_game-recorded = refl

machine_record-Bound_example : Bound card_game (members_of table "players")
machine_record-Bound_example =
    machine_record-Bound card_game card_record "players" players card_game-passes refl
      card_game-recorded refl

abbrev same_texts : Patterns
same_texts = record {
  contains_text = λ s t. s == t;
  search = λ s t. s == t;
  fnmatch = λ s t. s == t;
  seconds = λ s. 60;
}

abbrev ruled : Snapshot
ruled = record {
  elapsed_s = 30;
  messages = [];
  files = [];
  file_contents = [];
  spend = [];
  verdict = some "ann wins";
  idle_s = 2;
  manual_stop = false;
  participants = 3;
  participants_alive = 3;
  machine_state = none;
  machine_terminal_reached = false;
}

effective_termination_ends_example :
    is_some (evaluate_termination same_texts (effective_termination card_game) ruled) ≡ true
effective_termination_ends_example = effective_termination_ends same_texts ruled refl card_game refl
