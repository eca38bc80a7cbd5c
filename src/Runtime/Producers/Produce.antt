-- ===== src/Runtime/Producers/Produce.antt =====
-- The three producers of completion evidence (runtime/completion_evidence_producers.py).
use lbe_ci_validation.Base.Exec.{Exec, lift, ◌>>=◌, ◌>>◌}
use lbe_ci_validation.Memory.Completion.{CompletionTables}
use lbe_ci_validation.Memory.Completion.Evidence.{load_evidence, save_evidence}
use lbe_ci_validation.Memory.Completion.Candidate.{make_candidate, status_text}
use lbe_ci_validation.Runtime.Completion.{EvidenceStatus, TaskCompletionContract}
use lbe_ci_validation.Runtime.Producers.Commands.{ValidationCommandPolicy, find_command}
use lbe_ci_validation.Runtime.Producers.Snapshots.{LiveState, live_git_state}
use lbe_ci_validation.Runtime.Producers.Classify.{
  CommandRun, Evidence, ProducerDetails, classify_run, latest_pass, source_evidence,
  status_evidence, test_details,
}
use lbe_ci_validation.Session.{Bridge}
use lbe_ci_validation.Session.Completion.{load_task_contract}
use lbe_ci_validation.Base.{
  Bool, List, Option, Result, String, any, concat, err, false, none, not, ok, raise_if, some, suc,
  value_error, zero, ℕ, ◌==◌,
}

-- What the identifier of a piece of evidence is computed from.
pub record Payload : Type 0 where
  pub task_id : String
  pub operation_id : String
  pub kind : String
  pub status : EvidenceStatus
  pub producer_id : String
  pub details : ProducerDetails

-- What a producer reaches: git, the commands it may run, Python's hashes and JSON, and the time.
pub record Environment (W : Type 0) : Type 0 where
  pub git : List String → W → Result String
  pub run_command : List String → ℕ → W → CommandRun × W
  pub sha256 : String → String
  pub details_json : ProducerDetails → String
  pub payload_json : Payload → String
  pub resolve : String → String
  pub now : String

-- `text[:n]`
first_chars : ℕ → String → String
first_chars zero s = String.[]
first_chars (suc n) String.[] = String.[]
first_chars (suc n) (String.◌∷◌ c s) = String.◌∷◌ c (first_chars n s)

-- An action on the tables, beside the workspace.
abbrev pub on_tables :
    {V W A : Type 0}
    → Exec (CompletionTables V ProducerDetails) A
    → Exec (CompletionTables V ProducerDetails × W) A
on_tables m (t, w) = let (out, t') = m t in (out, (t', w))

abbrev pub declares : String → Option TaskCompletionContract → Bool
declares kind none = false
declares kind (some c) = any (λ r. r.evidence_kind == kind) c.requirements

-- `_evidence_id`
unfoldable pub evidence_id : {W : Type 0} → Environment W → Payload → String
unfolding first_chars
evidence_id env p =
    concat "evidence-"
      (concat p.kind (concat "-" (first_chars 24 (env.sha256 (env.payload_json p)))))

abbrev pub no_policy : Option ValidationCommandPolicy → Result ValidationCommandPolicy
no_policy none = err (value_error "no LBE validation command policy applies to focused_test")
no_policy (some policy) = ok policy

module _ {V W : Type 0} (env : Environment W) (bridge : Bridge) where
  unfoldable pub live : Exec (CompletionTables V ProducerDetails × W) LiveState
  unfolding live_git_state
  live s = (live_git_state env.git s.1, s)

  -- `_require_declared_requirement`
  unfoldable pub require_declared :
      String → String → String → Exec (CompletionTables V ProducerDetails × W) (Unit {0})
  unfolding load_task_contract
  require_declared task_id operation_id kind = do
    lift (
        raise_if (not (operation_id == "reasoning.inspect"))
          (value_error "completion evidence producer operation is not supported"))
    contract ← on_tables (load_task_contract env.resolve bridge task_id)
    lift (
        raise_if (not (declares kind contract))
          (value_error "completion evidence kind is not declared by the persisted task contract"))

  unfoldable pub latest_source_change :
      String → String → Exec (CompletionTables V ProducerDetails × W) (Option Evidence)
  unfolding load_evidence latest_pass
  latest_source_change task_id operation_id = do
    records ←
        on_tables (load_evidence env.resolve bridge.session_id task_id bridge.project_workspace_id)
    lift (ok (latest_pass operation_id records))

  -- `_persist`
  unfoldable pub persist_evidence : Payload → Exec (CompletionTables V ProducerDetails × W) Evidence
  unfolding save_evidence evidence_id make_candidate
  persist_evidence p = on_tables (
      save_evidence env.resolve env.details_json (
        make_candidate env.resolve env.now (record {
          session_id = bridge.session_id;
          task_id = p.task_id;
          project_workspace_id = bridge.project_workspace_id;
          canonical_workspace_root = bridge.workspace_root;
          evidence_id = evidence_id env p;
          kind = p.kind;
          status = status_text p.status;
          source = "lbe.live_repository";
          producer_id = p.producer_id;
          operation_id = p.operation_id;
          details = p.details;
        })))

  unfoldable pub produce_source_change :
      String → String → LiveState → Exec (CompletionTables V ProducerDetails × W) Evidence
  unfolding require_declared live latest_source_change source_evidence persist_evidence
  produce_source_change task_id operation_id baseline = do
    require_declared task_id operation_id "source_change"
    state ← live
    prior ← latest_source_change task_id operation_id
    let (status, details) = source_evidence state baseline prior
    persist_evidence (record {
      task_id = task_id;
      operation_id = operation_id;
      kind = "source_change";
      status = status;
      producer_id = "lbe.completion.source_change.v1";
      details = details;
    })

  unfoldable pub produce_git_status :
      String → String → Exec (CompletionTables V ProducerDetails × W) Evidence
  unfolding require_declared live latest_source_change status_evidence persist_evidence
  produce_git_status task_id operation_id = do
    require_declared task_id operation_id "git_status"
    state ← live
    change ← latest_source_change task_id operation_id
    let (status, details) = status_evidence state change
    persist_evidence (record {
      task_id = task_id;
      operation_id = operation_id;
      kind = "git_status";
      status = status;
      producer_id = "lbe.completion.git_status.v1";
      details = details;
    })

  -- `_run_validation_command`
  unfoldable pub run_validation_command :
      ValidationCommandPolicy → Exec (CompletionTables V ProducerDetails × W) CommandRun
  run_validation_command policy (t, w) =
      let (run, w') = env.run_command policy.command policy.timeout w in (ok run, (t, w'))

  -- The rest of `produce_focused_test` once the command was run.
  unfoldable pub settle_test :
      String
      → String
      → ValidationCommandPolicy
      → LiveState
      → CommandRun
      → Exec (CompletionTables V ProducerDetails × W) Evidence
  unfolding live classify_run persist_evidence
  settle_test task_id operation_id policy before run = do
    outcome ← lift (classify_run run)
    after ← live
    persist_evidence (record {
      task_id = task_id;
      operation_id = operation_id;
      kind = "focused_test";
      status = outcome.status;
      producer_id = "lbe.completion.focused_test.v1";
      details =
          test_details policy before after outcome.exit_code (env.sha256 outcome.stdout)
            (env.sha256 outcome.stderr) outcome.reason;
    })

module _ {V W : Type 0} (env : Environment W) (bridge : Bridge) (mode : String)
    (catalog : List ValidationCommandPolicy) where
  unfoldable pub produce_focused_test :
      String → String → Exec (CompletionTables V ProducerDetails × W) Evidence
  unfolding require_declared find_command live run_validation_command settle_test
  produce_focused_test task_id operation_id = do
    require_declared env bridge task_id operation_id "focused_test"
    policy ← lift (no_policy (find_command operation_id mode "focused_test" catalog))
    before ← live env bridge
    run ← run_validation_command env bridge policy
    settle_test env bridge task_id operation_id policy before run
