-- ===== src/Session/Examples.antt =====
-- The theorems of the task states at concrete inputs: an empty memory store.
use lbe_ci_validation.Base.{String, [], false, refl, some, strip, true, ◌∷◌, ◌≡◌}
use lbe_ci_validation.Memory.{TaskStatus, canonical_root}
use lbe_ci_validation.Memory.Sessions.{TaskState, clean_task, make_task_state, optional_text}
use lbe_ci_validation.Runtime.Completion.{
  CompletionDecision, CompletionEvidence, TaskCompletionContract, pass,
}
use lbe_ci_validation.Runtime.Completion.Gate.{evaluate_completion}
use lbe_ci_validation.Session.{Bridge, finalize, next_state, record_task_status, status_of}
use lbe_ci_validation.Session.Reasoning.{
  ControllerOutcome, Response, after_reasoning, answered, or_missing, outcome_status,
  run_coding_reasoning, run_reasoning,
}
use lbe_ci_validation.Session.Finalize.{finalize_completed, is_completed}
use lbe_ci_validation.Memory.Store.{Tables, find_task, put_task}
use lbe_ci_validation.Session.Stored.{IsClean, run_coding_reasoning-stored, stored_tasks}

abbrev Stored : Type 0
Stored = Tables (Unit {0})

abbrev nothing_stored : Stored
nothing_stored = record { memories = []; checkpoints = []; sessions = []; tasks = [] }

abbrev resolved : String → String
resolved path = path

abbrev bridge : Bridge
bridge = record { session_id = "s-1"; project_workspace_id = "w"; workspace_root = "/workspace" }

abbrev answer : String → Response (Unit {0})
answer outcome = record { task_id = "t-1"; outcome = outcome; body = tt }

abbrev claims_completion : String → String → Stored → ControllerOutcome (Unit {0}) × Stored
claims_completion problem task w = (answered (answer "COMPLETED"), w)

abbrev task_in : TaskStatus → String → TaskState
task_in status outcome = record {
  session_id = "s-1";
  task_id = "t-1";
  project_workspace_id = "w";
  canonical_workspace_root = "/workspace";
  status = status;
  created_at = "now";
  updated_at = "now";
  last_outcome = some outcome;
}

abbrev awaiting : TaskState
awaiting = task_in TaskStatus.running "AWAITING_VALIDATION"

bridge-IsClean : IsClean resolved bridge
unfolding strip canonical_root
bridge-IsClean = record { session = refl; project = refl; root = refl }

run_coding_reasoning-stored_example : is_completed awaiting.status ≡ false
unfolding run_coding_reasoning run_reasoning after_reasoning outcome_status record_task_status
    next_state make_task_state clean_task strip canonical_root or_missing optional_text stored_tasks
    find_task put_task
run_coding_reasoning-stored_example =
    run_coding_reasoning-stored resolved bridge "now" claims_completion "why" " t-1" nothing_stored
      (answer "COMPLETED") awaiting bridge-IsClean refl

abbrev contract : TaskCompletionContract
contract = record {
  requirements =
      record { requirement_id = "tests"; evidence_kind = "focused_test"; description = "" } ∷ [];
}

abbrev passing_test : CompletionEvidence
passing_test = record {
  evidence_id = "e1";
  kind = "focused_test";
  status = pass;
  source = "tests";
  details = [];
}

abbrev satisfied : CompletionDecision
satisfied = evaluate_completion contract (passing_test ∷ []) true

finalize_completed_example :
    is_completed (task_in TaskStatus.completed "VALIDATED_COMPLETION").status ≡ true
unfolding finalize record_task_status next_state status_of make_task_state clean_task strip
    canonical_root evaluate_completion optional_text stored_tasks find_task
finalize_completed_example =
    finalize_completed resolved (stored_tasks (Unit {0}) resolved bridge) bridge "now" "t-1"
      contract (passing_test ∷ []) true nothing_stored satisfied
      (task_in TaskStatus.completed "VALIDATED_COMPLETION") refl
