-- ===== src/Session.antt =====
-- Task states of a session: session_memory_runtime.py and runtime/completion_runtime.py. The memory
-- store that keeps them is the interface `TaskStore`.
pub mod Finalize
pub mod Reasoning
pub mod Provisional
pub mod Stored
pub mod Contract
pub mod Kept
pub mod Completion
mod Examples
use lbe_ci_validation.Base.Exec.{Exec, lift, pure, ◌>>=◌, ◌>>◌}
use lbe_ci_validation.Memory.{TaskStatus, decision}
use lbe_ci_validation.Memory.Sessions.{TaskState, clean_task, make_task_state}
use lbe_ci_validation.Runtime.Completion.{
  CompletionDecision, CompletionEvidence, CompletionVerdict, TaskCompletionContract, ready,
}
use lbe_ci_validation.Runtime.Completion.Gate.{evaluate_completion}
use lbe_ci_validation.Base.{
  Bool, List, Option, Result, String, none, raise_if, some, strip, value_error, ◌==◌,
}

-- `load_task_status` and `store.save_session_task`, of one session.
pub record TaskStore (W : Type 0) : Type 0 where
  pub load : String → W → Result (Option TaskState)
  pub save : TaskState → W → Result (Unit {0}) × W

-- What `SessionMemoryRuntimeBridge` keeps of its session.
pub record Bridge : Type 0 where
  pub session_id : String
  pub project_workspace_id : String
  pub workspace_root : String

abbrev pub created_before : String → Option TaskState → String
created_before now none = now
created_before now (some t) = t.created_at

-- The status and the outcome of a verdict.
unfoldable pub status_of : CompletionVerdict → TaskStatus × String
status_of ready = (TaskStatus.completed, "VALIDATED_COMPLETION")
status_of CompletionVerdict.failed = (TaskStatus.failed, "VALIDATION_FAILED")
status_of CompletionVerdict.blocked = (TaskStatus.blocked, "VALIDATION_INCOMPLETE")

module _ {W : Type 0} (resolve : String → String) (store : TaskStore W) (bridge : Bridge)
    (now : String) where
  -- The state that is saved.
  unfoldable pub next_state :
      String → TaskStatus → Option String → Option TaskState → Result TaskState
  next_state task_id status last_outcome existing = make_task_state resolve (record {
    session_id = bridge.session_id;
    task_id = task_id;
    project_workspace_id = bridge.project_workspace_id;
    canonical_workspace_root = bridge.workspace_root;
    status = status;
    created_at = created_before now existing;
    updated_at = now;
    last_outcome = last_outcome;
  })

  -- `SessionMemoryRuntimeBridge.record_task_status`
  unfoldable pub record_task_status : String → TaskStatus → Option String → Exec W TaskState
  unfolding next_state
  record_task_status task_id status last_outcome = do
    let clean_task = strip task_id
    lift (raise_if (clean_task == "") (value_error "task_id must not be empty"))
    existing ← λ w. (store.load clean_task w, w)
    state ← lift (next_state clean_task status last_outcome existing)
    store.save state
    pure state

  -- `CodingCompletionRuntime.finalize`
  unfoldable pub finalize :
      String
      → TaskCompletionContract
      → List CompletionEvidence
      → Bool
      → Exec W (CompletionDecision × TaskState)
  unfolding record_task_status status_of
  finalize task_id contract evidence claimed_complete = do
    let decision = evaluate_completion contract evidence claimed_complete
    let (status, outcome) = status_of decision.verdict
    state ← record_task_status task_id status (some outcome)
    pure (decision, state)
