-- ===== src/Session/Reasoning.antt =====
-- The reasoning of a session: `run_reasoning` of session_memory_runtime.py, and the coding runtime's
-- of runtime/completion_runtime.py. The controller acts on the world and may raise.
use lbe_ci_validation.Base.Exec.{Exec, lift, pure, raise, ◌>>=◌, ◌>>◌}
use lbe_ci_validation.Memory.{TaskStatus}
use lbe_ci_validation.Memory.Sessions.{TaskState}
use lbe_ci_validation.Session.{Bridge, TaskStore, record_task_status}
use lbe_ci_validation.Base.{
  Dict, Option, Raised, Result, String, [], concat, err, exception, if◌then◌else◌, interrupt,
  is_blank, lookup, none, not, ok, raise_if, some, strip, type_error, value_error, ◌==◌, ◌∷◌,
}

-- `LBEResponse`: the fields that the runtime reads, and the rest.
pub record Response (A : Type 0) : Type 0 where
  pub task_id : String
  pub outcome : String
  pub body : A

pub data ControllerOutcome (A : Type 0) : Type 0 where
  answered : Response A → ControllerOutcome A
  answered_other : ControllerOutcome A
  raised : Raised → ControllerOutcome A

abbrev pub outcome_status_table : Dict TaskStatus
outcome_status_table =
    ("COMPLETED", TaskStatus.completed)
    ∷ ("ORCHESTRATION_ERROR", TaskStatus.failed)
    ∷ ("INSUFFICIENT_EVIDENCE", TaskStatus.blocked)
    ∷ []

-- `task_status_for_outcome`
unfoldable pub outcome_status : String → Result TaskStatus
unfolding lookup
outcome_status outcome = elim (lookup outcome outcome_status_table) [
  | none ↦ err (value_error (concat "Unknown reasoning outcome for task status: " outcome))
  | some status ↦ ok status
]

module _ {W A : Type 0} (resolve : String → String) (store : TaskStore W) (bridge : Bridge)
    (now : String) (controller : String → String → W → ControllerOutcome A × W) where
  abbrev record_as : String → TaskStatus → String → Exec W TaskState
  record_as task status outcome =
      record_task_status resolve store bridge now task status (some outcome)

  -- The `try` around the controller, and what follows. A `BaseException` other than
  -- `KeyboardInterrupt` passes through, and nothing is recorded.
  unfoldable pub after_reasoning : String → ControllerOutcome A → Exec W (Response A)
  after_reasoning task (raised (interrupt name)) =
      if not (name == "KeyboardInterrupt")
      then raise (interrupt name)
      else do record_as task TaskStatus.blocked "INTERRUPTED"; raise (interrupt name)
  after_reasoning task (raised (exception name message)) = do
    record_as task TaskStatus.failed "RUNTIME_REASONING_ERROR"
    raise (exception name message)
  after_reasoning task answered_other = do
    record_as task TaskStatus.failed "INVALID_REASONING_RESPONSE"
    raise (type_error "reasoning controller must return LBEResponse")
  after_reasoning task (answered r) =
      if not (r.task_id == task)
      then (record_as task TaskStatus.failed "TASK_ID_MISMATCH"
          >> raise (value_error "reasoning response task_id does not match runtime task_id"))
      else do status ← lift (outcome_status r.outcome); record_as task status r.outcome; pure r

  -- `SessionMemoryRuntimeBridge.run_reasoning`
  unfoldable pub run_reasoning : String → String → Exec W (Response A)
  run_reasoning problem task_id = do
    let task = strip task_id
    lift (raise_if (is_blank problem) (value_error "problem must not be empty"))
    lift (raise_if (task == "") (value_error "task_id must not be empty"))
    record_task_status resolve store bridge now task TaskStatus.running none
    out ← λ w. (let (answer, w') = controller (strip problem) task w in (ok answer, w'))
    after_reasoning task out

  unfoldable pub or_missing : Option TaskState → Result TaskState
  or_missing none = err (exception "RuntimeError" "reasoning outcome did not persist task state")
  or_missing (some t) = ok t

  -- `CodingCompletionRuntime.run_reasoning`
  unfoldable pub run_coding_reasoning : String → String → Exec W (Response A × TaskState)
  unfolding or_missing
  run_coding_reasoning problem task_id = do
    r ← run_reasoning problem task_id
    if r.outcome == "COMPLETED"
        then (do
          state ← record_as task_id TaskStatus.running "AWAITING_VALIDATION"
          pure (r, state))
        else do
          existing ← λ w. (store.load (strip task_id) w, w)
          state ← lift (or_missing existing)
          pure (r, state)
