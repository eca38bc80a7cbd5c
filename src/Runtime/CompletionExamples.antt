-- ===== src/Runtime/CompletionExamples.antt =====
-- The theorems of the completion gate and its policies at concrete inputs.
use lbe_ci_validation.Runtime.Mode.{coding}
use lbe_ci_validation.Runtime.Completion.{
  CompletionEvidence, EvidenceStatus, TaskCompletionContract, blocked, fail, pass, stale,
}
use lbe_ci_validation.Runtime.Completion.Gate.{evaluate_completion}
use lbe_ci_validation.Runtime.Completion.Buckets.{evaluate_completion-lists}
use lbe_ci_validation.Runtime.Completion.Verdict.{
  completion_verdict_exact, is_ready, ready_monotone,
}
use lbe_ci_validation.Runtime.Completion.Policy.{TaskCompletionPolicy, find_policy, make_catalog}
use lbe_ci_validation.Runtime.Completion.PolicyLaws.{find-make_catalog}
use lbe_ci_validation.Base.{List, String, [], refl, some, strip, true, ◌++◌, ◌∷◌, ◌≡◌}

abbrev item_of : String → String → EvidenceStatus → CompletionEvidence
item_of id kind status = record {
  evidence_id = id;
  kind = kind;
  status = status;
  source = "tests";
  details = [];
}

abbrev two_kinds : TaskCompletionContract
two_kinds = record {
  requirements =
      record { requirement_id = "tests"; evidence_kind = "focused_test"; description = "" }
      ∷ record { requirement_id = "git"; evidence_kind = "git_status"; description = "" }
      ∷ [];
}

-- A failing and a passing test, and a stale git state.
abbrev mixed : List CompletionEvidence
mixed =
    item_of "e1" "focused_test" fail
    ∷ item_of "e2" "focused_test" pass
    ∷ item_of "e3" "git_status" stale
    ∷ []

abbrev passing_git : List CompletionEvidence
passing_git = item_of "e4" "git_status" pass ∷ mixed

evaluate_completion-lists_example :
    let d = evaluate_completion two_kinds mixed true in
    (d.satisfied_requirement_ids ≡ "tests" ∷ [])
    × (d.failed_requirement_ids ≡ [])
    × (d.missing_requirement_ids ≡ "git" ∷ [])
evaluate_completion-lists_example = evaluate_completion-lists two_kinds mixed true

completion_verdict_exact_example : (evaluate_completion two_kinds mixed true).verdict ≡ blocked
completion_verdict_exact_example = completion_verdict_exact two_kinds mixed true

-- A later failing item beside the passing one.
ready_monotone_example :
    is_ready
      (evaluate_completion two_kinds
        (passing_git ++ item_of "e5" "git_status" fail ∷ item_of "e6" "focused_test" fail ∷ [])
        true).verdict
    ≡ true
unfolding evaluate_completion
ready_monotone_example =
    ready_monotone two_kinds passing_git
      (item_of "e5" "git_status" fail ∷ item_of "e6" "focused_test" fail ∷ []) [] true refl

abbrev policy_of : String → String → TaskCompletionPolicy
policy_of id task_class = record {
  policy_id = id;
  operation_id = "reasoning.inspect";
  task_class = task_class;
  applicable_mode = coding;
  requirements = two_kinds.requirements;
}

find-make_catalog_example :
    find_policy " reasoning.inspect" "refactor " coding
      (policy_of "p1" "coding_fix" ∷ policy_of "p2" "refactor" ∷ [])
    ≡ some (policy_of "p2" "refactor")
unfolding make_catalog strip
find-make_catalog_example =
    find-make_catalog (policy_of "p1" "coding_fix" ∷ []) (policy_of "p2" "refactor") []
      (policy_of "p1" "coding_fix" ∷ policy_of "p2" "refactor" ∷ []) " reasoning.inspect"
      "refactor " refl refl refl
