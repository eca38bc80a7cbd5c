-- ===== src/Session/Finalize.antt =====
-- When `CodingCompletionRuntime.finalize` (runtime/completion_runtime.py) completes a task.
use lbe_ci_validation.Base.Exec.{Exec, continue, lift, pure, ◌>>=◌}
use lbe_ci_validation.Memory.{TaskStatus}
use lbe_ci_validation.Memory.Sessions.{TaskState, clean_task, make_task_state}
use lbe_ci_validation.Runtime.Completion.{
  CompletionDecision, CompletionEvidence, CompletionVerdict, TaskCompletionContract, ready,
}
use lbe_ci_validation.Runtime.Completion.Buckets.{is_satisfied}
use lbe_ci_validation.Session.{
  Bridge, TaskStore, finalize, next_state, record_task_status, status_of,
}
use lbe_ci_validation.Base.{
  Bool, List, Option, Result, String, all, ap, arith, err, false, ok, ok-inj, raise_if, refl, some,
  strip, subst, true, value_error, ◌&&◌, ◌==◌, ◌∙◌, ◌≡◌,
}
use lbe_ci_validation.Runtime.Completion.Gate.{evaluate_completion}
use lbe_ci_validation.Runtime.Completion.Verdict.{is_ready, ready_exact}

abbrev pub is_completed : TaskStatus → Bool
is_completed TaskStatus.completed = true
is_completed _ = false

-- The result of an action, where it returns, has a property.
record Results {W A : Type 0} (P : A → Type 0) (m : Exec W A) : Type 0 where
  has : (w : W) (a : A) → (m w).0 ≡ ok a → P a

module _ {W A B : Type 0} {P : B → Type 0} where
  Results-continue :
      (out : Result A) {f : A → Exec W B}
      → ((a : A) → out ≡ ok a → Results P (f a))
      → Results P (continue f out)
  Results-continue (ok a) p = p a refl
  Results-continue (err e) p = record { has = λ w b h. absurd (cc h) }

  Results-bind :
      (m : Exec W A) {f : A → Exec W B}
      → ((w : W) (a : A) → (m w).0 ≡ ok a → Results P (f a))
      → Results P (m >>= f)
  Results-bind m p = record { has = λ w b h. (Results-continue (m w).0 (p w)).has (m w).1 b h }

Results-pure : {W A : Type 0} {P : A → Type 0} (a : A) → P a → Results {W = W} P (pure a)
Results-pure {P} a p = record { has = λ w b h. subst P (ok-inj h) p }

make_task_state-status :
    (resolve : String → String) (t built : TaskState)
    → make_task_state resolve t ≡ ok built
    → built.status ≡ t.status
unfolding make_task_state clean_task
make_task_state-status resolve t built h = ground (arith, h)

completed_verdict : (v : CompletionVerdict) → is_completed (status_of v).0 ≡ is_ready v
unfolding status_of
completed_verdict ready = refl
completed_verdict CompletionVerdict.failed = refl
completed_verdict CompletionVerdict.blocked = refl

module _ {W : Type 0} (resolve : String → String) (store : TaskStore W) (bridge : Bridge)
    (now : String) where
  record_task_status-Results :
      (task_id : String) (status : TaskStatus) (outcome : Option String)
      → Results
          (λ t. t.status ≡ status)
          (record_task_status resolve store bridge now task_id status outcome)
  unfolding record_task_status next_state
  record_task_status-Results task_id status outcome =
      Results-bind (lift (raise_if (strip task_id == "") (value_error "task_id must not be empty")))
        λ w done h.
          Results-bind (λ w. (store.load (strip task_id) w, w))
            λ w existing h.
              Results-bind
                (lift (next_state resolve store bridge now (strip task_id) status outcome existing))
                λ w t made.
                  Results-bind (store.save t)
                    λ w done h. Results-pure t (make_task_state-status resolve _ t made)

  finalize-Results :
      (task_id : String) (contract : TaskCompletionContract) (evidence : List CompletionEvidence)
      (claimed : Bool)
      → Results
          (λ p.
            is_completed p.1.status
            ≡ (claimed && all (is_satisfied evidence) contract.requirements))
          (finalize resolve store bridge now task_id contract evidence claimed)
  unfolding finalize
  finalize-Results task_id contract evidence claimed =
      let d = evaluate_completion contract evidence claimed in
      let (status, outcome) = status_of d.verdict in
      Results-bind (record_task_status resolve store bridge now task_id status (some outcome))
        λ w t made.
          Results-pure (d, t)
            (ap is_completed
                ((record_task_status-Results task_id status (some outcome)).has w t made)
              ∙ completed_verdict d.verdict
              ∙ ready_exact contract evidence claimed)

  -- A task that `finalize` returns is completed exactly if completion is claimed and every requirement
  -- of the contract has passing evidence.
  pub finalize_completed :
      (task_id : String) (contract : TaskCompletionContract) (evidence : List CompletionEvidence)
      (claimed : Bool) (w : W) (d : CompletionDecision) (state : TaskState)
      → (finalize resolve store bridge now task_id contract evidence claimed w).0 ≡ ok (d, state)
      → is_completed state.status ≡ (claimed && all (is_satisfied evidence) contract.requirements)
  finalize_completed task_id contract evidence claimed w d state h =
      (finalize-Results task_id contract evidence claimed).has w (d, state) h
