-- ===== src/Session/Contract.antt =====
-- The records of a stored contract and of stored evidence, as the completion gate takes them
-- (runtime/completion_runtime.py).
use lbe_ci_validation.Memory.Completion.{StoredContract, StoredEvidence, StoredRequirement}
use lbe_ci_validation.Memory.Store.{some_result}
use lbe_ci_validation.Session.{Bridge}
use lbe_ci_validation.Runtime.Completion.{
  CompletionEvidence, CompletionRequirement, TaskCompletionContract, check_requirement,
  make_contract,
}
use lbe_ci_validation.Base.{
  Bool, Dict, Option, Result, String, Value, forward_slashes, insert, is_blank, none, not, ok,
  raise_if, some, str, traverse, value_error, ◌==◌, ◌>>=◌, ◌>>◌,
}

abbrev pub requirement_to_store : CompletionRequirement → StoredRequirement
requirement_to_store r = record {
  requirement_id = r.requirement_id;
  evidence_kind = r.evidence_kind;
  description = r.description;
}

abbrev pub requirement_of_store : StoredRequirement → CompletionRequirement
requirement_of_store r = record {
  requirement_id = r.requirement_id;
  evidence_kind = r.evidence_kind;
  description = r.description;
}

-- The contract of what is stored.
unfoldable pub contract_of : StoredContract → Result TaskCompletionContract
unfolding check_requirement make_contract
contract_of c = do
  requirements ← traverse (λ r. check_requirement (requirement_of_store r)) c.requirements
  make_contract requirements

-- `str(runtime.workspace_root).replace("\\", "/")`
abbrev pub is_own_root : Bridge → String → Bool
is_own_root bridge root = root == forward_slashes bridge.workspace_root

unfoldable pub own_contract :
    Bridge → Option StoredContract → Result (Option TaskCompletionContract)
unfolding contract_of
own_contract bridge none = ok none
own_contract bridge (some c) = do
  raise_if (not (is_own_root bridge c.canonical_workspace_root))
      (value_error "persisted completion contract workspace root does not match runtime")
  some_result (contract_of c)

-- `CompletionEvidence.__post_init__`
unfoldable pub check_evidence : CompletionEvidence → Result CompletionEvidence
check_evidence e = do
  raise_if (is_blank e.evidence_id) (value_error "evidence_id must be a non-empty string")
  raise_if (is_blank e.kind) (value_error "kind must be a non-empty string")
  raise_if (is_blank e.source) (value_error "source must be a non-empty string")
  ok e

unfoldable pub own_evidence :
    {D : Type 0} → Bridge → (D → Dict Value) → StoredEvidence D → Result CompletionEvidence
unfolding check_evidence
own_evidence bridge as_dict e = do
  raise_if (not (is_own_root bridge e.canonical_workspace_root))
      (value_error "persisted completion evidence workspace root does not match runtime")
  check_evidence (record {
    evidence_id = e.evidence_id;
    kind = e.kind;
    status = e.status;
    source = e.source;
    details =
        insert "operation_id" (str e.operation_id)
          (insert "producer_id" (str e.producer_id) (as_dict e.details));
  })
