-- ===== src/Runtime/Completion.antt =====
-- runtime/completion_gate.py: completion requirements against structured evidence.
pub mod Gate
pub mod Verdict
pub mod Buckets
pub mod Policy
pub mod PolicyLaws
use lbe_ci_validation.Base.{
  Bool, Dict, List, Result, String, Value, [], contains, false, is_blank, is_empty, map, ok,
  raise_if, value_error, ◌>>◌, ◌||◌, ◌∷◌,
}

pub data EvidenceStatus : Type 0 where
  pass fail stale : EvidenceStatus

pub data CompletionVerdict : Type 0 where
  ready blocked failed : CompletionVerdict

pub record CompletionRequirement : Type 0 where
  pub requirement_id : String
  pub evidence_kind : String
  pub description : String

pub record CompletionEvidence : Type 0 where
  pub evidence_id : String
  pub kind : String
  pub status : EvidenceStatus
  pub source : String
  pub details : Dict Value

pub record TaskCompletionContract : Type 0 where
  pub requirements : List CompletionRequirement

pub record CompletionDecision : Type 0 where
  pub verdict : CompletionVerdict
  pub claimed_complete : Bool
  pub satisfied_requirement_ids : List String
  pub missing_requirement_ids : List String
  pub failed_requirement_ids : List String
  pub evidence_ids : List String
  pub rationale : String

-- `CompletionRequirement.__post_init__`
unfoldable pub check_requirement : CompletionRequirement → Result CompletionRequirement
check_requirement r = do
  raise_if (is_blank r.requirement_id) (value_error "requirement_id must be a non-empty string")
  raise_if (is_blank r.evidence_kind) (value_error "evidence_kind must be a non-empty string")
  ok r

-- `len(ids) != len(set(ids))`
unfoldable pub has_duplicate : List String → Bool
has_duplicate [] = false
has_duplicate (id ∷ ids) = contains id ids || has_duplicate ids

abbrev pub requirement_ids : List CompletionRequirement → List String
requirement_ids = map (λ r. r.requirement_id)

-- `TaskCompletionContract.__post_init__`
unfoldable pub make_contract : List CompletionRequirement → Result TaskCompletionContract
unfolding has_duplicate
make_contract requirements = do
  raise_if (is_empty requirements)
      (value_error "completion contract requires at least one requirement")
  raise_if (has_duplicate (requirement_ids requirements))
      (value_error "completion requirement IDs must be unique")
  ok (record { requirements = requirements })
