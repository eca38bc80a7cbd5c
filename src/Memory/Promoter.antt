-- ===== src/Memory/Promoter.antt =====
-- memory/promoter.py: which claims become verified memory. `upsert` is the memory store's.
use lbe_ci_validation.Memory.{
  MemoryRecord, MemoryType, SourceType, ValidationStatus, command_result, git, is_interpretive,
  is_missing, live_workspace, make_record, source_name, test_run, unverified, user_instruction,
  verified,
}
use lbe_ci_validation.Base.{
  Bool, List, Option, Result, String, [], concat, contains, err, false, if◌then◌else◌, none, ok,
  some, true, value_error, ℕ, ◌&&◌, ◌==◌, ◌>>=◌, ◌∷◌,
}

pub record CandidateClaim (V : Type 0) : Type 0 where
  pub subject : String
  pub predicate : String
  pub value : V
  pub memory_type : MemoryType
  pub source_type : SourceType
  pub project_workspace_id : String
  pub canonical_workspace_root : String
  pub task_id : Option String
  pub rule_id : Option String
  pub source_path : Option String
  pub source_hash : Option String
  pub source_commit : Option String
  pub source_message_id : Option String
  pub authority : ℕ
  pub validation_method : Option String
  pub validated : Bool

abbrev pub deterministic_predicates : List String
deterministic_predicates =
    "canonical_workspace_root" ∷ "git_branch" ∷ "git_head" ∷ "file_sha256" ∷ "test_exit_code"
    ∷ "command_exit_code" ∷ "changed_files" ∷ "validated_configuration_value" ∷ []

abbrev pub interpretive_predicates : List String
interpretive_predicates =
    "is_broken" ∷ "feature_implemented" ∷ "task_complete" ∷ "requirement_proven"
    ∷ "repository_clean" ∷ "rule_passes" ∷ "defect_fixed" ∷ []

-- `{LIVE_WORKSPACE, GIT, TEST_RUN, COMMAND_RESULT}`
abbrev pub is_trusted : SourceType → Bool
is_trusted live_workspace = true
is_trusted git = true
is_trusted test_run = true
is_trusted command_result = true
is_trusted _ = false

abbrev pub is_user : SourceType → Bool
is_user user_instruction = true
is_user _ = false

-- `a or b` for `str | None`.
abbrev pub or_text : Option String → String → String
or_text none b = b
or_text (some a) b = if a == "" then b else a

module _ {V : Type 0} where
  -- `_classify`, given its two tests of the predicate.
  unfoldable pub classify_by :
      Bool → Bool → CandidateClaim V → Result (ValidationStatus × ℕ × Option String)
  classify_by deterministic interpretive claim =
      if is_interpretive claim.source_type
      then ok (unverified, 20, none)
      else if claim.validated
      then (if is_missing claim.validation_method
          then err (value_error "validated claim requires validation_method")
          else ok (verified, 100, claim.validation_method))
      else if deterministic
      then ok (
        verified,
        100,
        some (or_text claim.validation_method (concat "trusted:" (source_name claim.source_type))),
      )
      else if interpretive
      then ok (unverified, 20, none)
      else if is_user claim.source_type
      then ok (unverified, 80, none)
      else ok (unverified, 50, none)

  unfoldable pub classify : CandidateClaim V → Result (ValidationStatus × ℕ × Option String)
  classify claim =
      classify_by
        (contains claim.predicate deterministic_predicates && is_trusted claim.source_type)
        (contains claim.predicate interpretive_predicates) claim

  -- The record that `promote` builds, before its checks.
  unfoldable pub claimed_record :
      String → String → CandidateClaim V → ValidationStatus × ℕ × Option String → MemoryRecord V
  claimed_record memory_id now claim (status, confidence, method) = record {
    project_workspace_id = claim.project_workspace_id;
    canonical_workspace_root = claim.canonical_workspace_root;
    memory_type = claim.memory_type;
    subject = claim.subject;
    predicate = claim.predicate;
    value = claim.value;
    source_type = claim.source_type;
    validation_status = status;
    confidence = confidence;
    memory_id = memory_id;
    task_id = claim.task_id;
    rule_id = claim.rule_id;
    source_path = claim.source_path;
    source_hash = claim.source_hash;
    source_commit = claim.source_commit;
    source_message_id = claim.source_message_id;
    authority = claim.authority;
    validation_method = method;
    validated_at = none;
    created_at = now;
    updated_at = now;
    superseded_by = none;
  }

  -- `promote` up to the store.
  unfoldable pub promoted :
      (String → String) → String → String → CandidateClaim V → Result (MemoryRecord V)
  promoted resolve memory_id now claim = do
    classified ← classify claim
    make_record resolve now (claimed_record memory_id now claim classified)

  module _ {W : Type 0} (upsert : MemoryRecord V → W → Result (MemoryRecord V) × W) where
    unfoldable pub promote :
        (String → String) → String → String → CandidateClaim V → W → Result (MemoryRecord V) × W
    unfolding promoted
    promote resolve memory_id now claim w = elim (promoted resolve memory_id now claim) [
      | err e ↦ (err e, w)
      | ok r ↦ upsert r w
    ]
