-- ===== src/Recovery.antt =====
-- recovery.py: retries of an operation under a policy, with a recovery state that is persisted. What
-- persists it is the interface `Ledger`, which State.antt builds from the memory store. The delay before a retry, computed in
-- floating point, is the parameter `pause`, and the two range checks of its parameters are left out.
pub mod Loop
pub mod State
pub mod Stored
pub mod Attempts
pub mod Once
pub mod Duplicates
pub mod Untrimmed
pub mod Forbidden
mod Examples
use lbe_ci_validation.Base.{
  Bool, List, Option, Raised, Result, String, Value, [], any, is_blank, ltb, not, ok, raise_if,
  value_error, ℕ, ◌&&◌, ◌==◌, ◌>>◌, ◌∷◌,
}

pub data FailureClass : Type 0 where
  provider_failure timed_out temporary_tool_failure validation_failure : FailureClass
  permission_denial stale_workspace scope_conflict missing_dependency : FailureClass
  cancellation unknown : FailureClass

abbrev pub class_name : FailureClass → String
class_name provider_failure = "provider_failure"
class_name timed_out = "timeout"
class_name temporary_tool_failure = "temporary_tool_failure"
class_name validation_failure = "validation_failure"
class_name permission_denial = "permission_denial"
class_name stale_workspace = "stale_workspace"
class_name scope_conflict = "scope_conflict"
class_name missing_dependency = "missing_dependency"
class_name cancellation = "cancellation"
class_name unknown = "unknown"

pub record RetryPolicy : Type 0 where
  pub max_attempts : ℕ
  pub retryable : List FailureClass
  pub require_idempotent : Bool
  pub require_evidence : Bool

abbrev pub has_class : FailureClass → List FailureClass → Bool
has_class c cs = any (λ d. class_name c == class_name d) cs

-- `forbidden` of `RetryPolicy.__post_init__`.
abbrev pub never_retryable : List FailureClass
never_retryable = permission_denial ∷ scope_conflict ∷ validation_failure ∷ cancellation ∷ []

-- `RetryPolicy.__post_init__`. The text of the last error goes on with the classes.
unfoldable pub check_policy : RetryPolicy → Result RetryPolicy
check_policy p = do
  raise_if (ltb p.max_attempts 1) (value_error "max_attempts must be at least 1")
  raise_if (any (λ c. has_class c never_retryable) p.retryable)
      (value_error "deterministic or terminal failure classes cannot be retryable: ")
  ok p

-- `str | None` is not checked: what is read back may hold any value as the text of its last error.
pub record RecoveryState : Type 0 where
  pub operation_id : String
  pub attempt_count : ℕ
  pub last_failure_class : Option FailureClass
  pub terminal : Bool
  pub succeeded : Bool
  pub last_error : Value

-- How a state is loaded and persisted, for a task of one workspace.
pub record Ledger (W : Type 0) : Type 0 where
  pub load : String → String → W → Result (Option RecoveryState)
  pub save : String → RecoveryState → W → Result (Unit {0}) × W

-- The arguments of `run_with_recovery`.
pub record Recovery (W A : Type 0) : Type 0 where
  pub operation : W → Result A × W
  pub policy : RetryPolicy
  pub task_id : String
  pub operation_id : String
  pub idempotent : Bool
  pub is_cancelled : Option (W → Result Bool × W)
  pub has_evidence : Option (ℕ → FailureClass → Raised → W → Result Bool × W)
  pub classify : Raised → FailureClass
  pub pause : ℕ → W → Result (Unit {0}) × W

-- The checks of the arguments of `run_with_recovery`.
unfoldable pub check_arguments : {W A : Type 0} → Recovery W A → Result (Unit {0})
check_arguments r = do
  raise_if (is_blank r.task_id) (value_error "task_id must not be empty")
  raise_if (is_blank r.operation_id) (value_error "operation_id must not be empty")
  raise_if (ltb 1 r.policy.max_attempts && r.policy.require_idempotent && not r.idempotent)
      (value_error "retryable operations must declare idempotency")
