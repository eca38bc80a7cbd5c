-- ===== src/Runtime/Completion/Policy.antt =====
-- runtime/task_completion_policy.py: the completion policies of a mode, and their catalog.
use lbe_ci_validation.Base.{
  Bool, List, Option, Result, String, [], any, concat, false, if◌then◌else◌, is_blank, is_empty,
  none, ok, raise_if, some, strip, true, value_error, ◌&&◌, ◌++◌, ◌==◌, ◌>>=◌, ◌>>◌, ◌∷◌,
}
use lbe_ci_validation.Runtime.Mode.{RuntimeMode, audit, coding, investigation}
use lbe_ci_validation.Runtime.Completion.{CompletionRequirement, make_contract}

pub record TaskCompletionPolicy : Type 0 where
  pub policy_id : String
  pub operation_id : String
  pub task_class : String
  pub applicable_mode : RuntimeMode
  pub requirements : List CompletionRequirement

-- `TaskCompletionPolicy.__post_init__`
unfoldable pub make_policy : TaskCompletionPolicy → Result TaskCompletionPolicy
unfolding make_contract
make_policy p = do
  raise_if (is_blank p.policy_id) (value_error "policy_id must be a non-empty string")
  raise_if (is_blank p.operation_id) (value_error "operation_id must be a non-empty string")
  raise_if (is_blank p.task_class) (value_error "task_class must be a non-empty string")
  raise_if (is_empty p.requirements)
      (value_error "task completion policy requires at least one requirement")
  contract ← make_contract p.requirements
  ok (record p {
    policy_id = strip p.policy_id;
    operation_id = strip p.operation_id;
    task_class = strip p.task_class;
  })

pub same_runtime_mode : RuntimeMode → RuntimeMode → Bool
same_runtime_mode coding coding = true
same_runtime_mode audit audit = true
same_runtime_mode investigation investigation = true
same_runtime_mode _ _ = false

-- Whether a policy stands under the mapping key `(operation_id, task_class, mode)`.
unfoldable pub maps : String → String → RuntimeMode → TaskCompletionPolicy → Bool
unfolding same_runtime_mode
maps operation_id task_class mode p =
    p.operation_id == operation_id
    && p.task_class == task_class
    && same_runtime_mode p.applicable_mode mode

-- The catalog's `by_mapping`, and `by_id` while it is built, as the list of the policies so far.
unfoldable pub build :
    List TaskCompletionPolicy → List TaskCompletionPolicy → Result (List TaskCompletionPolicy)
build catalog [] = ok catalog
build catalog (p ∷ ps) = do
  raise_if (any (λ q. q.policy_id == p.policy_id) catalog)
      (value_error (concat "duplicate task completion policy ID: " p.policy_id))
  raise_if (any (maps p.operation_id p.task_class p.applicable_mode) catalog)
      (value_error "ambiguous task completion policy mapping: ")
  build (catalog ++ p ∷ []) ps

-- `TaskCompletionPolicyCatalog(policies)`
unfoldable pub make_catalog : List TaskCompletionPolicy → Result (List TaskCompletionPolicy)
unfolding build maps
make_catalog policies = build [] policies

unfoldable pub first :
    (TaskCompletionPolicy → Bool) → List TaskCompletionPolicy → Option TaskCompletionPolicy
first test [] = none
first test (p ∷ ps) = if test p then some p else first test ps

unfoldable pub find_policy :
    String → String → RuntimeMode → List TaskCompletionPolicy → Option TaskCompletionPolicy
unfolding first maps
find_policy operation_id task_class mode catalog =
    first (maps (strip operation_id) (strip task_class) mode) catalog

abbrev requirement : String → String → CompletionRequirement
requirement id kind = record { requirement_id = id; evidence_kind = kind; description = "" }

-- `DEFAULT_TASK_COMPLETION_POLICY_CATALOG`, before the checks.
abbrev pub default_policies : List TaskCompletionPolicy
default_policies =
    record {
      policy_id = "coding.reasoning.inspect.fix_issue.v1";
      operation_id = "reasoning.inspect";
      task_class = "coding_fix";
      applicable_mode = coding;
      requirements =
          requirement "source-change" "source_change"
          ∷ requirement "focused-tests" "focused_test"
          ∷ requirement "git-state" "git_status"
          ∷ [];
    }
    ∷ []
