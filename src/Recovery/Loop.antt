-- ===== src/Recovery/Loop.antt =====
-- `run_with_recovery` of recovery.py.
use lbe_ci_validation.Recovery.{
  FailureClass, Ledger, Recovery, RecoveryState, cancellation, check_arguments, has_class,
}
use lbe_ci_validation.Base.Exec.{Exec, lift, pure, raise, ◌>>=◌, ◌>>◌}
use lbe_ci_validation.Base.{
  Bool, Option, Raised, Result, String, Value, err, exception, false, if◌then◌else◌, interrupt, leb,
  none, not, null, ok, some, str, strip, suc, true, zero, ℕ, ◌+◌, ◌-◌, ◌==◌, ◌||◌,
}

abbrev pub stopped_error : String → Raised
stopped_error = exception "RecoveryStoppedError"

-- `str(error) or type(error).__name__`
abbrev pub error_text : Raised → String
error_text (interrupt name) = name
error_text (exception name message) = if message == "" then name else message

-- `try` with `except BaseException`: the outcome as a value.
abbrev pub attempt : {W A : Type 0} → Exec W A → Exec W (Result A)
attempt m w = let (out, w') = m w in (ok out, w')

-- `callback is not None and callback(…)`
abbrev pub ask : {W : Type 0} → Option (Exec W Bool) → Exec W Bool
ask none = pure false
ask (some m) = m

unfoldable pub text_value : Option String → Value
text_value none = null
text_value (some s) = str s

module _ {W A : Type 0} (ledger : Ledger W) (r : Recovery W A) where
  -- `state = RecoveryState(…)` and the call that persists it.
  unfoldable pub persist : ℕ → Option FailureClass → Bool → Bool → Option String → Exec W (Unit {0})
  persist attempts failure terminal succeeded last_error = ledger.save (strip r.task_id) (record {
    operation_id = strip r.operation_id;
    attempt_count = attempts;
    last_failure_class = failure;
    terminal = terminal;
    succeeded = succeeded;
    last_error = text_value last_error;
  })

  -- `if policy.require_evidence_between_attempts: …`
  unfoldable pub demand_evidence : ℕ → FailureClass → Raised → Exec W (Unit {0})
  unfolding persist
  demand_evidence attempts failure e = if not r.policy.require_evidence then pure tt else do
    supplied ← ask (elim r.has_evidence [ none ↦ none | some f ↦ some (f attempts failure e) ])
    if supplied then pure tt else do
      persist attempts (some failure) true false
          (some "required recovery evidence was not supplied")
      raise (stopped_error "recovery evidence required before another attempt")

  -- The body of the loop after the call, `rest` being the rounds that follow.
  unfoldable pub conclude : ℕ → Exec W A → Result A → Exec W A
  unfolding persist demand_evidence
  conclude attempts rest (ok a) = do persist attempts none true true none; pure a
  conclude attempts rest (err e) = do
    let failure = r.classify e
    let terminal = not (has_class failure r.policy.retryable) || leb r.policy.max_attempts attempts
    persist attempts (some failure) terminal false (some (error_text e))
    if terminal then raise e else do demand_evidence attempts failure e; r.pause attempts; rest

  unfoldable pub stop_cancelled : ℕ → Exec W A
  unfolding persist
  stop_cancelled attempts = do
    persist attempts (some cancellation) true false (some "cancelled before attempt")
    raise (stopped_error "recovery cancelled")

  -- The loop, on the number of attempts that are left.
  unfoldable pub rounds : ℕ → ℕ → Exec W A
  unfolding conclude stop_cancelled
  rounds zero attempts = raise (stopped_error "maximum recovery attempts exhausted")
  rounds (suc left) attempts = do
    let rest = rounds left (attempts + 1)
    cancelled ← ask r.is_cancelled
    if cancelled
        then stop_cancelled attempts
        else do out ← attempt r.operation; conclude (attempts + 1) rest out

  -- The loop after what was persisted before.
  unfoldable pub resume : Option RecoveryState → Exec W A
  unfolding rounds
  resume none = rounds r.policy.max_attempts 0
  resume (some s) =
      if s.terminal
      then raise (
          stopped_error (
            if s.succeeded
            then "operation already completed; duplicate execution is blocked"
            else "recovery policy already reached a terminal stop"))
      else rounds (r.policy.max_attempts - s.attempt_count) s.attempt_count

  unfoldable pub run_with_recovery : Exec W A
  unfolding check_arguments resume
  run_with_recovery = do
    lift (check_arguments r)
    previous ← λ w. (ledger.load (strip r.task_id) (strip r.operation_id) w, w)
    resume previous
