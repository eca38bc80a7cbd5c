-- ===== src/Runtime/Producers/Examples.antt =====
-- The producers of completion evidence at concrete inputs.
use lbe_ci_validation.Memory.{canonical_root}
use lbe_ci_validation.Memory.Store.{find_session, load_session_state}
use lbe_ci_validation.Memory.Sessions.{
  SessionState, check_session, clean_session, make_session_state, optional_text,
}
use lbe_ci_validation.Memory.Completion.{StoredContract, StoredRequirement, find_contract}
use lbe_ci_validation.Runtime.Completion.{pass}
use lbe_ci_validation.Runtime.Producers.Commands.{default_commands}
use lbe_ci_validation.Runtime.Producers.Snapshots.{LiveState}
use lbe_ci_validation.Runtime.Producers.Classify.{
  CommandRun, Evidence, ProducerDetails, exited, source_details, status_details, test_details,
}
use lbe_ci_validation.Runtime.Producers.Produce.{
  Environment, produce_focused_test, produce_git_status,
}
use lbe_ci_validation.Runtime.Producers.Passing.{Matches, World, produce_git_status-pass}
use lbe_ci_validation.Runtime.Producers.Tested.{IsTested, produce_focused_test-pass}
use lbe_ci_validation.Session.{Bridge}
use lbe_ci_validation.Session.Completion.{persist_contract}
use lbe_ci_validation.Session.Kept.{persist_contract-keeps}
use lbe_ci_validation.Base.{
  List, Result, String, [], contains, if◌then◌else◌, none, ok, refl, some, sorted, strip, ℕ, ◌+◌,
  ◌∷◌, ◌≡◌,
}

-- What git prints: the workspace is the number of commands that were run.
abbrev git : List String → ℕ → Result String
git command w =
    if contains "branch" command
    then ok "main\n"
    else if contains "rev-parse" command
    then ok "abc\n"
    else ok " M a.py\n"

abbrev env : Environment ℕ
env = record {
  git = git;
  run_command = λ command timeout w. (CommandRun.completed (exited 0) "ok" "", w + 1);
  sha256 = λ text. "0123";
  details_json = λ details. "{}";
  payload_json = λ payload. "{}";
  resolve = λ path. path;
  now = "2";
}

abbrev bridge : Bridge
bridge = record { session_id = "s"; project_workspace_id = "p"; workspace_root = "/w" }

abbrev session : SessionState
session = record {
  session_id = "s";
  project_workspace_id = "p";
  canonical_workspace_root = "/w";
  mode = "coding";
  permission = none;
  runtime_policy = none;
  provider_id = none;
  provider_model = none;
  active_profile_id = none;
  permission_policy_id = none;
  evidence_policy_id = none;
  checkpoint_id = none;
  created_at = "1";
  updated_at = "1";
}

abbrev required_evidence : String → StoredRequirement
required_evidence kind = record { requirement_id = kind; evidence_kind = kind; description = "" }

abbrev contract : StoredContract
contract = record {
  session_id = "s";
  task_id = "t";
  project_workspace_id = "p";
  canonical_workspace_root = "/w";
  requirements = required_evidence "git_status" ∷ required_evidence "focused_test" ∷ [];
  created_at = "1";
}

abbrev state : LiveState
state = record { branch = "main"; head = "abc"; status_entries = "M a.py" ∷ [] }

abbrev clean : LiveState
clean = record { branch = "main"; head = "abc"; status_entries = [] }

abbrev evidence : String → String → String → ProducerDetails → String → Evidence
evidence id kind producer details time = record {
  session_id = "s";
  task_id = "t";
  project_workspace_id = "p";
  canonical_workspace_root = "/w";
  evidence_id = id;
  kind = kind;
  status = pass;
  source = "lbe.live_repository";
  producer_id = producer;
  operation_id = "reasoning.inspect";
  details = details;
  created_at = time;
}

abbrev change : Evidence
change =
    evidence "e1" "source_change" "lbe.completion.source_change.v1"
      (source_details state clean ("M a.py" ∷ []) "changed") "1"

abbrev world : World (Unit {0}) ℕ
world = (
  record {
    store = record { memories = []; checkpoints = []; sessions = session ∷ []; tasks = [] };
    contracts = contract ∷ [];
    evidence = change ∷ [];
  },
  0,
)

abbrev git_evidence : Evidence
git_evidence =
    evidence "evidence-git_status-0123" "git_status" "lbe.completion.git_status.v1"
      (status_details state (some "e1") ("M a.py" ∷ []) []
        "Current live Git state matches the task-bound source snapshot.")
      "2"

abbrev test_evidence : Evidence
test_evidence =
    evidence "evidence-focused_test-0123" "focused_test" "lbe.completion.focused_test.v1"
      (test_details
        (record {
          policy_id = "repository.ci.pytest.v1";
          operation_id = "reasoning.inspect";
          applicable_mode = "coding";
          evidence_kind = "focused_test";
          command = "python" ∷ "-m" ∷ "pytest" ∷ "-q" ∷ [];
          timeout = 300000;
        })
        state state (some (exited 0)) "0123" "0123"
        "The registered focused validation command completed successfully.")
      "2"

produce_git_status-pass_example : Matches env bridge "t" "reasoning.inspect" world
unfolding produce_git_status strip canonical_root sorted load_session_state find_session
    make_session_state check_session clean_session optional_text
produce_git_status-pass_example =
    produce_git_status-pass env bridge "t" "reasoning.inspect" world git_evidence refl refl

produce_focused_test-pass_example :
    IsTested env bridge "coding" default_commands "reasoning.inspect" world
      (produce_focused_test env bridge "coding" default_commands "t" "reasoning.inspect" world).1
unfolding produce_focused_test strip canonical_root load_session_state find_session
    make_session_state check_session clean_session optional_text sorted
produce_focused_test-pass_example =
    produce_focused_test-pass env bridge "coding" default_commands "t" "reasoning.inspect" world
      test_evidence refl refl

persist_contract-keeps_example :
    find_contract "s" "t"
      (persist_contract
        (λ path. path)
        bridge
        "3"
        "t"
        (record {
          requirements =
              record { requirement_id = "r"; evidence_kind = "review"; description = "" } ∷ [];
        })
        world.0).1.contracts
    ≡ some contract
unfolding find_contract
persist_contract-keeps_example =
    persist_contract-keeps (λ path. path) bridge "3" "t"
      (record {
        requirements =
            record { requirement_id = "r"; evidence_kind = "review"; description = "" } ∷ [];
      })
      "s" "t" contract world.0 refl
