-- ===== src/Memory/Completion.antt =====
-- memory/completion_contracts.py and memory/completion_evidence.py: the completion contract of a task
-- and the evidence for it, in two tables beside those of the memory store. `D` is what JSON gives back
-- of the details of a piece of evidence, `details_json` the text that JSON prints for it.
pub mod Contracts
pub mod Candidate
pub mod Evidence
pub mod Kept
pub mod Stable
use lbe_ci_validation.Memory.{canonical_root}
use lbe_ci_validation.Memory.Sessions.{SessionState}
use lbe_ci_validation.Memory.Store.{Tables, some_result}
use lbe_ci_validation.Runtime.Completion.{EvidenceStatus}
use lbe_ci_validation.Base.{
  Bool, List, Option, Result, String, [], concat, err, exception, false, if◌then◌else◌, is_blank,
  is_empty, none, not, ok, raise_if, some, strip, traverse, true, value_error, ◌&&◌, ◌==◌, ◌>>=◌,
  ◌>>◌, ◌||◌, ◌∷◌,
}

pub record StoredRequirement : Type 0 where
  pub requirement_id : String
  pub evidence_kind : String
  pub description : String

pub record StoredContract : Type 0 where
  pub session_id : String
  pub task_id : String
  pub project_workspace_id : String
  pub canonical_workspace_root : String
  pub requirements : List StoredRequirement
  pub created_at : String

pub record StoredEvidence (D : Type 0) : Type 0 where
  pub session_id : String
  pub task_id : String
  pub project_workspace_id : String
  pub canonical_workspace_root : String
  pub evidence_id : String
  pub kind : String
  pub status : EvidenceStatus
  pub source : String
  pub producer_id : String
  pub operation_id : String
  pub details : D
  pub created_at : String

pub record CompletionTables (V D : Type 0) : Type 0 where
  pub store : Tables V
  pub contracts : List StoredContract
  pub evidence : List (StoredEvidence D)

-- `StoredCompletionRequirement.__post_init__`
unfoldable pub make_requirement : StoredRequirement → Result StoredRequirement
make_requirement r = do
  raise_if (is_blank r.requirement_id) (value_error "requirement_id must be a non-empty string")
  raise_if (is_blank r.evidence_kind) (value_error "evidence_kind must be a non-empty string")
  ok (record {
    requirement_id = strip r.requirement_id;
    evidence_kind = strip r.evidence_kind;
    description = strip r.description;
  })

-- Two lists of requirements have the same JSON text.
unfoldable pub same_requirements : List StoredRequirement → List StoredRequirement → Bool
same_requirements [] [] = true
same_requirements (r ∷ rs) (q ∷ qs) =
    (r.requirement_id == q.requirement_id
      && r.evidence_kind == q.evidence_kind
      && r.description == q.description)
    && same_requirements rs qs
same_requirements _ _ = false

unfoldable pub find_contract : String → String → List StoredContract → Option StoredContract
find_contract session_id task_id [] = none
find_contract session_id task_id (c ∷ cs) =
    if c.session_id == session_id && c.task_id == task_id
    then some c
    else find_contract session_id task_id cs

abbrev pub of_project : String → Option StoredContract → Option StoredContract
of_project project none = none
of_project project (some c) = if c.project_workspace_id == project then some c else none

-- The session that a contract or evidence belongs to.
unfoldable pub check_owner :
    String → String → String → String → Option SessionState → Result (Unit {0})
check_owner what session_id project root none =
    err (exception "FileNotFoundError" (concat "persistent session not found: " session_id))
check_owner what session_id project root (some s) = do
  raise_if (not (s.project_workspace_id == project))
      (value_error (concat what " workspace identity does not match session"))
  raise_if (not (s.canonical_workspace_root == root))
      (value_error (concat what " workspace root does not match session"))

module _ (resolve : String → String) where
  unfoldable pub contract_of_row : StoredContract → Result StoredContract
  unfolding make_requirement
  contract_of_row c = do
    requirements ← traverse make_requirement c.requirements
    raise_if (is_empty requirements)
        (value_error "corrupted completion contract has no requirements")
    ok (record c {
      requirements = requirements;
      canonical_workspace_root = canonical_root resolve c.canonical_workspace_root;
    })

  -- `TaskCompletionContractPersistence.load`
  unfoldable pub load_contract :
      {V D : Type 0}
      → String
      → String
      → String
      → CompletionTables V D
      → Result (Option StoredContract)
  unfolding contract_of_row find_contract
  load_contract session_id task_id project w = do
    raise_if (is_blank session_id || is_blank task_id || is_blank project)
        (value_error "session_id, task_id, and project_workspace_id must not be empty")
    elim (of_project (strip project)
        (find_contract (strip session_id) (strip task_id) w.contracts)) [
          | none ↦ ok none
          | some c ↦ some_result (contract_of_row c)
        ]
