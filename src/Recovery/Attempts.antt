-- ===== src/Recovery/Attempts.antt =====
-- How often `run_with_recovery` of recovery.py calls the operation.
use lbe_ci_validation.Recovery.{
  FailureClass, Ledger, Recovery, RecoveryState, RetryPolicy, check_arguments,
}
use lbe_ci_validation.Recovery.Loop.{
  ask, attempt, conclude, demand_evidence, persist, resume, rounds, run_with_recovery,
  stop_cancelled,
}
use lbe_ci_validation.Base.Exec.{Exec, continue, pure, raise, ◌>>=◌}
use lbe_ci_validation.Base.{
  Bool, Option, Raised, Result, String, arith, err, false, if◌then◌else◌, inl, inr, none, not, ok,
  refl, some, strip, suc, true, zero, ℕ, ◌+◌, ◌-◌, ◌≡◌, ◌≤◌, ◌⊎◌,
}

-- An action raises the count by at most `k`, whether it returns or raises.
pub record Adds {W A : Type 0} (count : W → ℕ) (k : ℕ) (m : Exec W A) : Type 0 where
  pub bound : (w : W) → count (m w).1 ≤ count w + k

module _ {W A : Type 0} {count : W → ℕ} where
  Adds-pure : (k : ℕ) (a : A) → Adds count k (pure a)
  Adds-pure k a = record { bound = λ w. omega arith }

  Adds-raise : (k : ℕ) (e : Raised) → Adds count k (raise {A = A} e)
  Adds-raise k e = record { bound = λ w. omega arith }

  Adds-more : {j k : ℕ} {m : Exec W A} → j ≤ k → Adds count j m → Adds count k m
  Adds-more le a = record { bound = λ w. omega (arith, le, a.bound w) }

  Adds-if :
      (b : Bool) {k : ℕ} {m n : Exec W A}
      → Adds count k m
      → Adds count k n
      → Adds count k (if b then m else n)
  Adds-if true p q = p
  Adds-if false p q = q

module _ {W A B : Type 0} {count : W → ℕ} where
  Adds-continue :
      (out : Result A) {k : ℕ} {f : A → Exec W B}
      → ((a : A) → Adds count k (f a))
      → Adds count k (continue f out)
  Adds-continue (ok a) p = p a
  Adds-continue (err e) p = Adds-raise _ e

  Adds-bind :
      {j k : ℕ} {m : Exec W A} {f : A → Exec W B}
      → Adds count j m
      → ((a : A) → Adds count k (f a))
      → Adds count (j + k) (m >>= f)
  Adds-bind {m} {f} p q = record {
    bound = λ w. omega (arith, p.bound w, (Adds-continue (m w).0 q).bound (m w).1);
  }

  -- After an action that adds nothing.
  Adds-after :
      {k : ℕ} {m : Exec W A} {f : A → Exec W B}
      → Adds count 0 m
      → ((a : A) → Adds count k (f a))
      → Adds count k (m >>= f)
  Adds-after p q = Adds-more (omega arith) (Adds-bind p q)

-- The operation is counted at most once for each call; nothing else that the loop calls is counted.
pub record IsCounted {W A : Type 0} (count : W → ℕ) (ledger : Ledger W) (r : Recovery W A)
    : Type 0 where
  pub saves : (task : String) (s : RecoveryState) → Adds count 0 (ledger.save task s)
  pub calls : Adds count 1 r.operation
  pub cancels : (m : W → Result Bool × W) → r.is_cancelled ≡ some m → Adds count 0 m
  pub supplies :
      (f : ℕ → FailureClass → Raised → W → Result Bool × W)
      → r.has_evidence ≡ some f
      → (n : ℕ) (c : FailureClass) (e : Raised) → Adds count 0 (f n c e)
  pub pauses : (n : ℕ) → Adds count 0 (r.pause n)

-- The attempts that the policy leaves after what was persisted before.
abbrev pub attempts_left : RetryPolicy → Option RecoveryState → ℕ
attempts_left policy none = policy.max_attempts
attempts_left policy (some s) = policy.max_attempts - s.attempt_count

checked : (out : Result (Unit {0})) → (out ≡ ok tt) ⊎ ((e : Raised) × (out ≡ err e))
checked (ok x) = inl refl
checked (err e) = inr (e, refl)

module _ {W A : Type 0} {count : W → ℕ} (ledger : Ledger W) (r : Recovery W A)
    (counted : IsCounted count ledger r) where
  persist-Adds :
      (n : ℕ) (c : Option FailureClass) (t s : Bool) (m : Option String)
      → Adds count 0 (persist ledger r n c t s m)
  unfolding persist
  persist-Adds n c t s m = counted.saves _ _

  ask-Adds :
      (m : Option (Exec W Bool))
      → ((f : Exec W Bool) → m ≡ some f → Adds count 0 f)
      → Adds count 0 (ask m)
  ask-Adds none h = Adds-pure 0 false
  ask-Adds (some m) h = h m refl

  attempt-Adds : Adds count 1 (attempt r.operation)
  attempt-Adds = record { bound = counted.calls.bound }

  evidence-Adds :
      (o : Option (ℕ → FailureClass → Raised → W → Result Bool × W))
      → r.has_evidence ≡ o
      → (n : ℕ) (c : FailureClass) (e : Raised)
      → Adds count 0 (ask (elim o [ none ↦ none | some f ↦ some (f n c e) ]))
  evidence-Adds none h n c e = Adds-pure 0 false
  evidence-Adds (some f) h n c e = counted.supplies f h n c e

  demand_evidence-Adds :
      (n : ℕ) (c : FailureClass) (e : Raised) → Adds count 0 (demand_evidence ledger r n c e)
  unfolding demand_evidence
  demand_evidence-Adds n c e = Adds-if (not r.policy.require_evidence) (Adds-pure 0 tt) (
      Adds-after (evidence-Adds r.has_evidence refl n c e) λ supplied.
        Adds-if supplied (Adds-pure 0 tt) (Adds-after (persist-Adds _ _ _ _ _) λ _. Adds-raise 0 _))

  conclude-Adds :
      (n k : ℕ) (rest : Exec W A) (out : Result A)
      → Adds count k rest
      → Adds count k (conclude ledger r n rest out)
  unfolding conclude
  conclude-Adds n k rest (ok a) p = Adds-after (persist-Adds _ _ _ _ _) λ _. Adds-pure k a
  conclude-Adds n k rest (err e) p = Adds-after (persist-Adds _ _ _ _ _) λ _.
      Adds-if _ (Adds-raise k e)
        (Adds-after (demand_evidence-Adds n _ e) λ _. Adds-after (counted.pauses n) λ _. p)

  rounds-Adds : (left n : ℕ) → Adds count left (rounds ledger r left n)
  unfolding rounds stop_cancelled
  rounds-Adds zero n = Adds-raise 0 _
  rounds-Adds (suc left) n = Adds-after (ask-Adds r.is_cancelled counted.cancels) λ cancelled.
      Adds-if cancelled (Adds-after (persist-Adds _ _ _ _ _) λ _. Adds-raise _ _) (
        Adds-more (omega arith) (
          Adds-bind attempt-Adds
            λ out. conclude-Adds (n + 1) left _ out (rounds-Adds left (n + 1))))

  resume-Adds :
      (previous : Option RecoveryState)
      → Adds count (attempts_left r.policy previous) (resume ledger r previous)
  unfolding resume
  resume-Adds none = rounds-Adds r.policy.max_attempts 0
  resume-Adds (some s) =
      Adds-if s.terminal (Adds-raise _ _)
        (rounds-Adds (r.policy.max_attempts - s.attempt_count) s.attempt_count)

  -- However it ends, a run calls the operation at most as often as the policy leaves attempts after
  -- those that were persisted before.
  pub run_with_recovery-Adds :
      (previous : Option RecoveryState) (w : W)
      → ledger.load (strip r.task_id) (strip r.operation_id) w ≡ ok previous
      → count (run_with_recovery ledger r w).1 ≤ count w + attempts_left r.policy previous
  unfolding run_with_recovery
  run_with_recovery-Adds previous w loaded = elim (checked (check_arguments r)) [
    | inl ok_args ↦ rw (ok_args, loaded) ((resume-Adds previous).bound w)
    | inr (e, bad) ↦ rw bad (omega arith)
  ]
