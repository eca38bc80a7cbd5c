-- ===== src/Runtime/Producers/Classify.antt =====
-- How an observation of the workspace is classified (runtime/completion_evidence_producers.py).
use lbe_ci_validation.Runtime.Producers.Commands.{ValidationCommandPolicy}
use lbe_ci_validation.Runtime.Producers.Snapshots.{LiveState}
use lbe_ci_validation.Memory.Completion.{StoredEvidence}
use lbe_ci_validation.Runtime.Completion.{EvidenceStatus, fail, pass}
use lbe_ci_validation.Base.{
  Bool, List, Option, Raised, Result, String, [], contains, err, false, filter, if◌then◌else◌,
  is_empty, nat_eq, none, not, ok, some, sorted, true, ℕ, ◌&&◌, ◌==◌, ◌||◌, ◌∷◌,
}

-- `Popen.returncode`: a status, or the signal that ended the process.
pub data ExitCode : Type 0 where
  exited killed : ℕ → ExitCode

-- The `details` of the three producers; `changed_paths` of a state is computed from its entries, as
-- `task_changed_paths` is, and `observed_status_entries` are those of the state.
pub data ProducerDetails : Type 0 where
  source_details :
      (state baseline : LiveState) (task_status_entries : List String) (reason : String)
      → ProducerDetails
  status_details :
      (state : LiveState) (expected_evidence_id : Option String)
      (expected_entries unexpected_entries : List String) (reason : String)
      → ProducerDetails
  test_details :
      (policy : ValidationCommandPolicy) (before after : LiveState) (exit_code : Option ExitCode)
      (stdout_sha256 stderr_sha256 reason : String)
      → ProducerDetails

-- `details.get("task_status_entries", ())`
abbrev pub task_entries : ProducerDetails → List String
task_entries (source_details state baseline entries reason) = entries
task_entries _ = []

-- `details.get("head") == head`
abbrev pub has_head : String → ProducerDetails → Bool
has_head head (source_details state baseline entries reason) = state.head == head
has_head head (status_details state id expected unexpected reason) = state.head == head
has_head head (test_details policy before after code out error reason) = false

-- `set(…)` of a list, in the order of the last places.
unfoldable pub unique : List String → List String
unique [] = []
unique (s ∷ ss) = let rest = unique ss in if contains s ss then rest else s ∷ rest

-- `sorted(set(entries) - set(others))`
unfoldable pub difference : List String → List String → List String
unfolding unique
difference entries others = sorted (unique (filter (λ s. not (contains s others)) entries))

abbrev pub Evidence : Type 0
Evidence = StoredEvidence ProducerDetails

-- The status and the reason of `produce_source_change`.
unfoldable pub classify_source : List String → Option Evidence → EvidenceStatus × String
classify_source (s ∷ ss) prior =
    (pass, "Current live repository state contains task-bound changed paths.")
classify_source [] (some e) = (
  EvidenceStatus.stale,
  "Previously observed task change is no longer present in live repository state.",
)
classify_source [] none =
    (fail, "No current repository or source change exists for the governed task.")

-- The status and the reason of `produce_git_status` where there is a source change.
unfoldable pub classify_git : LiveState → Evidence → EvidenceStatus × String
unfolding difference
classify_git state change =
    let expected = task_entries change.details in
    if not (is_empty (difference state.status_entries expected))
    then (fail, "Current live repository state contains unaccounted-for changes.")
    else if not (is_empty (difference expected state.status_entries))
        || not (has_head state.head change.details)
    then (
      EvidenceStatus.stale,
      "Current live repository state no longer matches the task-bound source snapshot.",
    )
    else (pass, "Current live Git state matches the task-bound source snapshot.")

-- The status and the details of `produce_git_status`.
unfoldable pub status_evidence : LiveState → Option Evidence → EvidenceStatus × ProducerDetails
unfolding classify_git difference
status_evidence state none = (
  fail,
  status_details state none [] state.status_entries
      "No passing task-bound source_change evidence exists to reconcile.",
)
status_evidence state (some change) =
    let expected = task_entries change.details in
    let (status, reason) = classify_git state change in
    (
      status,
      status_details state (some change.evidence_id) expected
          (difference state.status_entries expected) reason,
    )

unfoldable pub source_evidence :
    LiveState → LiveState → Option Evidence → EvidenceStatus × ProducerDetails
unfolding classify_source difference
source_evidence state baseline prior =
    let entries = difference state.status_entries baseline.status_entries in
    let (status, reason) = classify_source entries prior in
    (status, source_details state baseline entries reason)

-- What `subprocess.run` does with a command: it ends, is stopped after the timeout, or cannot run.
pub data CommandRun : Type 0 where
  completed : ExitCode → (stdout stderr : String) → CommandRun
  timed_out : (stdout stderr : String) → CommandRun
  not_run : Raised → CommandRun

abbrev pub is_zero : ExitCode → Bool
is_zero (exited n) = nat_eq n 0
is_zero (killed n) = false

-- What the run of a command shows: the status, the exit code, the outputs and the reason.
pub record TestOutcome : Type 0 where
  pub status : EvidenceStatus
  pub exit_code : Option ExitCode
  pub stdout : String
  pub stderr : String
  pub reason : String

unfoldable pub classify_run : CommandRun → Result TestOutcome
classify_run (not_run e) = err e
classify_run (timed_out stdout stderr) = ok (record {
  status = fail;
  exit_code = none;
  stdout = stdout;
  stderr = stderr;
  reason = "The registered focused validation command exceeded its policy timeout.";
})
classify_run (completed code stdout stderr) = ok (record {
  status = if is_zero code then pass else fail;
  exit_code = some code;
  stdout = stdout;
  stderr = stderr;
  reason =
      if is_zero code
      then "The registered focused validation command completed successfully."
      else "The registered focused validation command failed.";
})

abbrev pub is_pass : EvidenceStatus → Bool
is_pass pass = true
is_pass _ = false

-- `_latest_source_change_pass`, of the records from the last one on.
unfoldable pub latest_pass : String → List Evidence → Option Evidence
latest_pass operation_id [] = none
latest_pass operation_id (e ∷ es) = elim (latest_pass operation_id es) [
  | some later ↦ some later
  | none ↦
      if e.kind == "source_change"
        && is_pass e.status
        && e.producer_id == "lbe.completion.source_change.v1"
        && e.operation_id == operation_id
      then some e
      else none
]
