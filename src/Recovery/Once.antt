-- ===== src/Recovery/Once.antt =====
-- Completed operations and forbidden failures stop `run_with_recovery` of recovery.py.
use lbe_ci_validation.Recovery.{Ledger, Recovery, RecoveryState, check_arguments, has_class}
use lbe_ci_validation.Recovery.Loop.{
  ask, attempt, conclude, demand_evidence, persist, resume, rounds, run_with_recovery,
  stop_cancelled, stopped_error, text_value,
}
use lbe_ci_validation.Base.Exec.{Exec, continue, lift, pure, raise, ◌>>=◌, ◌>>◌}
use lbe_ci_validation.Base.{
  Bool, Option, Raised, Result, String, err, false, if◌then◌else◌, leb, none, not, null, ok, refl,
  some, strip, strip_idem, suc, true, zero, ℕ, ◌+◌, ◌-◌, ◌||◌, ◌≡◌,
}

-- If the action returns, `P` holds of what it leaves.
pub record Completes {W A : Type 0} (P : W → Type 0) (m : Exec W A) : Type 0 where
  pub returned : (w : W) (a : A) → (m w).0 ≡ ok a → P (m w).1

module _ {W A : Type 0} {P : W → Type 0} where
  Completes-raise : (e : Raised) → Completes P (raise {A = A} e)
  Completes-raise e = record { returned = λ w a h. absurd (cc h) }

  Completes-if :
      (b : Bool) {m n : Exec W A} → Completes P m → Completes P n → Completes P (if b then m else n)
  Completes-if true p q = p
  Completes-if false p q = q

module _ {W A B : Type 0} {P : W → Type 0} where
  Completes-continue :
      (out : Result A) {f : A → Exec W B}
      → ((a : A) → Completes P (f a))
      → Completes P (continue f out)
  Completes-continue (ok a) p = p a
  Completes-continue (err e) p = Completes-raise e

  Completes-bind :
      (m : Exec W A) {f : A → Exec W B} → ((a : A) → Completes P (f a)) → Completes P (m >>= f)
  Completes-bind m p = record {
    returned = λ w b h. (Completes-continue (m w).0 p).returned (m w).1 b h;
  }

-- A last step that returns.
Completes-then :
    {W A : Type 0} {P : W → Type 0} {m : Exec W (Unit {0})}
    → Completes P m
    → (a : A) → Completes P (m >> pure a)
Completes-then {W} {A} {P} {m} p a = record {
  returned = λ w b h. go (m w).0 (m w).1 (p.returned w) b h;
}
  where
    go :
        (out : Result (Unit {0})) (w' : W)
        → ((u : Unit {0}) → out ≡ ok u → P w')
        → (b : A) → (continue (λ _. pure a) out w').0 ≡ ok b
        → P (continue (λ _. pure a) out w').1
    go (ok u) w' q b h = q u refl
    go (err e) w' q b h = absurd (cc h)

-- What was saved for an operation is what is loaded for it, where the world can be read then.
pub record IsStored {W : Type 0} (ledger : Ledger W) (Readable : String → String → W → Type 0)
    : Type 0 where
  pub loads :
      (task : String) (s : RecoveryState) (w : W)
      → strip s.operation_id ≡ s.operation_id
      → (ledger.save task s w).0 ≡ ok tt
      → Readable task s.operation_id (ledger.save task s w).1
      → ledger.load task s.operation_id (ledger.save task s w).1 ≡ ok (some s)

abbrev pub completed_state : String → ℕ → RecoveryState
completed_state operation_id attempts = record {
  operation_id = operation_id;
  attempt_count = attempts;
  last_failure_class = none;
  terminal = true;
  succeeded = true;
  last_error = null;
}

module _ {W A : Type 0} (ledger : Ledger W) {Readable : String → String → W → Type 0}
    (stored : IsStored ledger Readable) (r : Recovery W A) where
  abbrev IsDone : W → Type 0
  IsDone w =
      Readable (strip r.task_id) (strip r.operation_id) w
      → (n : ℕ) × (ledger.load (strip r.task_id) (strip r.operation_id) w
          ≡ ok (some (completed_state (strip r.operation_id) n)))

  saved-Completes : (n : ℕ) → Completes IsDone (persist ledger r n none true true none)
  unfolding persist text_value
  saved-Completes n = record {
    returned = λ w u h readable. (
      n,
      stored.loads (strip r.task_id) (completed_state (strip r.operation_id) n) w
          (strip_idem r.operation_id) h readable,
    );
  }

  conclude-Completes :
      (n : ℕ) (rest : Exec W A) (out : Result A)
      → Completes IsDone rest
      → Completes IsDone (conclude ledger r n rest out)
  unfolding conclude
  conclude-Completes n rest (ok a) p = Completes-then (saved-Completes n) a
  conclude-Completes n rest (err e) p = Completes-bind (persist ledger r n _ _ _ _) λ _.
      Completes-if
        (not (has_class (r.classify e) r.policy.retryable) || leb r.policy.max_attempts n)
        (Completes-raise e)
        (Completes-bind (demand_evidence ledger r n (r.classify e) e)
          λ _. Completes-bind (r.pause n) λ _. p)

  rounds-Completes : (left n : ℕ) → Completes IsDone (rounds ledger r left n)
  unfolding rounds stop_cancelled
  rounds-Completes zero n = Completes-raise _
  rounds-Completes (suc left) n = Completes-bind (ask r.is_cancelled) λ cancelled.
      Completes-if cancelled (Completes-bind (persist ledger r n _ _ _ _) λ _. Completes-raise _) (
        Completes-bind (attempt r.operation)
          λ out. conclude-Completes (n + 1) _ out (rounds-Completes left (n + 1)))

  resume-Completes : (previous : Option RecoveryState) → Completes IsDone (resume ledger r previous)
  unfolding resume
  resume-Completes none = rounds-Completes r.policy.max_attempts 0
  resume-Completes (some s) =
      Completes-if s.terminal (Completes-raise _)
        (rounds-Completes (r.policy.max_attempts - s.attempt_count) s.attempt_count)

  run-Completes : Completes IsDone (run_with_recovery ledger r)
  unfolding run_with_recovery
  run-Completes = Completes-bind (lift (check_arguments r)) λ _.
      Completes-bind (λ w. (ledger.load (strip r.task_id) (strip r.operation_id) w, w))
        λ previous. resume-Completes previous

  blocked :
      {B : Type 0} (again : Recovery W B) (w' : W)
      → strip again.task_id ≡ strip r.task_id
      → strip again.operation_id ≡ strip r.operation_id
      → check_arguments again ≡ ok tt
      → IsDone w'
      → Readable (strip r.task_id) (strip r.operation_id) w'
      → run_with_recovery ledger again w'
        ≡ (err (stopped_error "operation already completed; duplicate execution is blocked"), w')
  unfolding run_with_recovery resume
  blocked again w' t o c done readable = let (n, d) = done readable in rw (c, t, o, d) refl

  -- After a run that returned, a run for the same task and operation is refused.
  pub blocked_after :
      {B : Type 0} (again : Recovery W B) (w : W) (a : A)
      → (run_with_recovery ledger r w).0 ≡ ok a
      → strip again.task_id ≡ strip r.task_id
      → strip again.operation_id ≡ strip r.operation_id
      → check_arguments again ≡ ok tt
      → Readable (strip r.task_id) (strip r.operation_id) (run_with_recovery ledger r w).1
      → let w' = (run_with_recovery ledger r w).1 in
        run_with_recovery ledger again w'
        ≡ (err (stopped_error "operation already completed; duplicate execution is blocked"), w')
  blocked_after again w a h t o c readable =
      blocked again (run_with_recovery ledger r w).1 t o c (run-Completes.returned w a h) readable
