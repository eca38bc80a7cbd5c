-- ===== src/Memory/Examples.antt =====
-- The theorems of memory at concrete inputs.
use lbe_ci_validation.Memory.{
  MemoryRecord, canonical_root, git, is_missing, is_verified, make_record, verified, workspace_fact,
}
use lbe_ci_validation.Memory.Promoter.{
  CandidateClaim, claimed_record, classify, classify_by, promoted,
}
use lbe_ci_validation.Memory.Verified.{is_proven, promoted_accepts, promoted_verified}
use lbe_ci_validation.Memory.Sessions.{
  SessionState, check_session, clean_session, make_session_state, make_session_state_idem,
  optional_text,
}
use lbe_ci_validation.Base.{Option, String, false, is_ok, none, ok, refl, some, strip, true, ℕ, ◌≡◌}

-- Paths that are resolved already.
abbrev resolved : String → String
resolved path = path

abbrev head_claim : CandidateClaim ℕ
head_claim = record {
  subject = " repository ";
  predicate = "git_head";
  value = 7;
  memory_type = workspace_fact;
  source_type = git;
  project_workspace_id = "w";
  canonical_workspace_root = "/workspace/";
  task_id = none;
  rule_id = none;
  source_path = none;
  source_hash = none;
  source_commit = none;
  source_message_id = none;
  authority = 5;
  validation_method = none;
  validated = false;
}

abbrev head_record : MemoryRecord ℕ
head_record = record {
  project_workspace_id = "w";
  canonical_workspace_root = "/workspace";
  memory_type = workspace_fact;
  subject = "repository";
  predicate = "git_head";
  value = 7;
  source_type = git;
  validation_status = verified;
  confidence = 100;
  memory_id = "mem-1";
  task_id = none;
  rule_id = none;
  source_path = none;
  source_hash = none;
  source_commit = none;
  source_message_id = none;
  authority = 5;
  validation_method = some "trusted:git";
  validated_at = some "now";
  created_at = "now";
  updated_at = "now";
  superseded_by = none;
}

promoted_verified_example :
    (is_verified head_record.validation_status ≡ is_proven head_claim)
    × (is_verified head_record.validation_status ≡ true
        → is_missing head_record.validation_method ≡ false)
    × (is_verified head_record.validation_status ≡ true → head_record.validated_at ≡ some "now")
unfolding promoted classify classify_by make_record strip claimed_record canonical_root
promoted_verified_example = promoted_verified resolved "mem-1" "now" head_claim head_record refl

promoted_accepts_example : is_ok (promoted resolved "mem-1" "now" head_claim) ≡ true
unfolding strip
promoted_accepts_example = promoted_accepts resolved "mem-1" "now" head_claim

abbrev session_of : String → Option String → SessionState
session_of id permission = record {
  session_id = id;
  project_workspace_id = "w";
  canonical_workspace_root = "/workspace";
  mode = "coding";
  permission = permission;
  runtime_policy = none;
  provider_id = none;
  provider_model = none;
  active_profile_id = none;
  permission_policy_id = none;
  evidence_policy_id = none;
  checkpoint_id = none;
  created_at = "now";
  updated_at = "now";
}

make_session_state_idem_example :
    make_session_state resolved (session_of "s-1" (some "read_only"))
    ≡ ok (session_of "s-1" (some "read_only"))
unfolding make_session_state check_session clean_session strip optional_text canonical_root
make_session_state_idem_example =
    make_session_state_idem resolved (session_of " s-1 " (some "read_only "))
      (session_of "s-1" (some "read_only")) refl refl
