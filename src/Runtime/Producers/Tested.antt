-- ===== src/Runtime/Producers/Tested.antt =====
-- What passing test evidence shows of the command that was run
-- (runtime/completion_evidence_producers.py).
use lbe_ci_validation.Base.Exec.Triples.{Triple, Triple-bind, Triple-given, Triple-lift}
use lbe_ci_validation.Base.Exec.Reads.{Triple-read}
use lbe_ci_validation.Runtime.Completion.{pass}
use lbe_ci_validation.Runtime.Producers.Commands.{ValidationCommandPolicy, find_command}
use lbe_ci_validation.Runtime.Producers.Classify.{
  CommandRun, Evidence, ExitCode, TestOutcome, classify_run, completed, exited, is_zero, killed,
  not_run, timed_out,
}
use lbe_ci_validation.Runtime.Producers.Produce.{
  Environment, live, no_policy, produce_focused_test, run_validation_command, settle_test,
}
use lbe_ci_validation.Runtime.Producers.Sound.{
  Reads-live, Reads-require_declared, persist_evidence-status,
}
use lbe_ci_validation.Runtime.Producers.Passing.{World}
use lbe_ci_validation.Session.{Bridge}
use lbe_ci_validation.Base.{
  Bool-cases, List, Option, String, ap, arith, inl, inr, none, ok, ok-inj, refl, some, subst, sym,
  true, ◌∙◌, ◌≡◌,
}
-- The run of a command that ended with the status 0.
use lbe_ci_validation.Runtime.Producers.Snapshots.{LiveState}

abbrev pub Succeeded : CommandRun → Type 0
Succeeded run = (stdout : String) × (stderr : String) × (run ≡ completed (exited 0) stdout stderr)

Succeeded-completed :
    (code : ExitCode) (stdout stderr : String)
    → is_zero code ≡ true
    → Succeeded (completed code stdout stderr)
Succeeded-completed (exited n) stdout stderr h =
    (stdout, stderr, ap (λ k. completed (exited k) stdout stderr) (ground (arith, h)))
Succeeded-completed (killed n) stdout stderr h = absurd (cc h)

classify_run-pass :
    (run : CommandRun) (o : TestOutcome) → classify_run run ≡ ok o → o.status ≡ pass → Succeeded run
unfolding classify_run
classify_run-pass (not_run e) o h passed = absurd (cc h)
classify_run-pass (timed_out stdout stderr) o h passed =
    absurd (cc (ap (λ x. x.status) (ok-inj h), passed))
classify_run-pass (completed code stdout stderr) o h passed = elim (Bool-cases (is_zero code)) [
  | inl e ↦ Succeeded-completed code stdout stderr e
  | inr e ↦ absurd (cc (rw e at (ap (λ x. x.status) (ok-inj h)), passed))
]

no_policy-ok :
    (o : Option ValidationCommandPolicy) (policy : ValidationCommandPolicy)
    → no_policy o ≡ ok policy
    → o ≡ some policy
no_policy-ok none policy h = absurd (cc h)
no_policy-ok (some p) policy h = ap some (ok-inj h)

module _ {V W : Type 0} (env : Environment W) (bridge : Bridge) where
  run_validation_command-Triple :
      (policy : ValidationCommandPolicy) (s : World V W)
      → Triple
          (λ t. t ≡ s)
          (run_validation_command env bridge policy)
          (λ run t.
            (run ≡ (env.run_command policy.command policy.timeout s.1).0)
            × (t.1 ≡ (env.run_command policy.command policy.timeout s.1).1))
  unfolding run_validation_command
  run_validation_command-Triple policy s = record {
    has = λ t q run h. (
      sym (ok-inj h) ∙ ap (λ x. (env.run_command policy.command policy.timeout x.1).0) q,
      ap (λ x. (env.run_command policy.command policy.timeout x.1).1) q,
    );
  }

  live-Triple : (w : W) → Triple (λ t. t.1 ≡ w) (live {V = V} env bridge) (λ state t. t.1 ≡ w)
  unfolding live
  live-Triple w = record { has = λ t q state h. q }

  settle_test-Triple :
      (task_id operation_id : String) (policy : ValidationCommandPolicy) (before : LiveState)
      (run : CommandRun) (w : W)
      → Triple
          (λ t. t.1 ≡ w)
          (settle_test {V = V} env bridge task_id operation_id policy before run)
          (λ e t. (e.status ≡ pass → Succeeded run) × (t.1 ≡ w))
  unfolding settle_test
  settle_test-Triple task_id operation_id policy before run w =
      Triple-bind (Triple-lift (classify_run run)) (λ outcome. Triple-given (λ is_outcome.
        Triple-bind (live-Triple w) (λ after. record {
          has = λ t q e h.
              let kept = (persist_evidence-status env bridge _ w).has t q e h in
              (λ passed. classify_run-pass run outcome is_outcome (sym kept.0 ∙ passed), kept.1);
        })))

module _ {V W : Type 0} (env : Environment W) (bridge : Bridge) (mode : String)
    (catalog : List ValidationCommandPolicy) where
  -- The catalog has a command for the operation, it was run once and ended with the status 0, and
  -- nothing else was done to the workspace.
  abbrev pub IsTested : String → World V W → World V W → Type 0
  IsTested operation_id s t =
      (policy : ValidationCommandPolicy) × (find_command operation_id mode "focused_test" catalog
        ≡ some policy)
      × Succeeded (env.run_command policy.command policy.timeout s.1).0
      × (t.1 ≡ (env.run_command policy.command policy.timeout s.1).1)

  produce_focused_test-Triple :
      (task_id operation_id : String) (s : World V W)
      → Triple
          (λ t. t ≡ s)
          (produce_focused_test env bridge mode catalog task_id operation_id)
          (λ e t. e.status ≡ pass → IsTested operation_id s t)
  unfolding produce_focused_test
  produce_focused_test-Triple task_id operation_id s =
      Triple-bind
        (Triple-read s (Reads-require_declared env bridge task_id operation_id "focused_test"))
        (λ done. Triple-given (λ declared.
          Triple-bind
            (Triple-lift (no_policy (find_command operation_id mode "focused_test" catalog)))
            (λ policy. Triple-given (λ is_policy.
              Triple-bind (Triple-read s (Reads-live env bridge)) (λ before.
                Triple-given (λ is_before.
                  Triple-bind {f = settle_test env bridge task_id operation_id policy before}
                    (run_validation_command-Triple env bridge policy s)
                    (λ run. Triple-given (λ is_run. record {
                      has = λ t q e h passed.
                          let settled =
                            (settle_test-Triple env bridge task_id operation_id policy before run
                                _).has
                              t q e h in
                          (
                            policy,
                            no_policy-ok _ policy is_policy,
                            subst Succeeded is_run (settled.0 passed),
                            settled.1,
                          );
                    }))))))))

  -- Test evidence of the status PASS is returned only where the catalog has a command for the operation
  -- and the mode, this command was run and ended with the status 0, and the workspace is as this one
  -- command left it.
  pub produce_focused_test-pass :
      (task_id operation_id : String) (s : World V W) (e : Evidence)
      → (produce_focused_test env bridge mode catalog task_id operation_id s).0 ≡ ok e
      → e.status ≡ pass
      → IsTested operation_id s
          (produce_focused_test env bridge mode catalog task_id operation_id s).1
  produce_focused_test-pass task_id operation_id s e h passed =
      (produce_focused_test-Triple task_id operation_id s).has s refl e h passed
