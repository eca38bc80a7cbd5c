-- ===== src/Memory.antt =====
-- memory/models.py: records of the workspace memory, sessions and tasks. Confidences are hundredths;
-- `resolve` stands for `Path(…).expanduser().resolve()`, and a time or identifier that a default
-- factory draws is an argument.
pub mod Promoter
pub mod Verified
pub mod Sessions
pub mod Store
pub mod Completion
mod Examples
use Prim.Native.Char.{Char, code}
use lbe_ci_validation.Base.{
  Bool, Option, Result, String, concat, false, forward_slashes, if◌then◌else◌, is_blank, ltb,
  nat_eq, none, ok, raise_if, some, strip, true, value_error, ℕ, ◌&&◌, ◌==◌, ◌>>◌, ◌||◌,
}

pub data MemoryType : Type 0 where
  workspace_fact task_constraint decision failure_pattern : MemoryType
  validation_result checkpoint user_preference historical_observation : MemoryType

pub data ValidationStatus : Type 0 where
  verified unverified stale contradicted superseded : ValidationStatus

pub data SourceType : Type 0 where
  live_workspace git test_run command_result : SourceType
  session_message compaction assistant_reasoning user_instruction : SourceType

pub data TaskStatus : Type 0 where
  created running completed failed blocked : TaskStatus

abbrev pub source_name : SourceType → String
source_name live_workspace = "live_workspace"
source_name git = "git"
source_name test_run = "test_run"
source_name command_result = "command_result"
source_name session_message = "session_message"
source_name compaction = "compaction"
source_name assistant_reasoning = "assistant_reasoning"
source_name user_instruction = "user_instruction"

abbrev pub is_verified : ValidationStatus → Bool
is_verified verified = true
is_verified _ = false

-- The sources that cannot verify: `{ASSISTANT_REASONING, COMPACTION}`.
abbrev pub is_interpretive : SourceType → Bool
is_interpretive assistant_reasoning = true
is_interpretive compaction = true
is_interpretive _ = false

-- `not value` for `str | None`.
abbrev pub is_missing : Option String → Bool
is_missing none = true
is_missing (some s) = s == ""

-- A confidence is in hundredths.
pub record MemoryRecord (V : Type 0) : Type 0 where
  pub project_workspace_id : String
  pub canonical_workspace_root : String
  pub memory_type : MemoryType
  pub subject : String
  pub predicate : String
  pub value : V
  pub source_type : SourceType
  pub validation_status : ValidationStatus
  pub confidence : ℕ
  pub memory_id : String
  pub task_id : Option String
  pub rule_id : Option String
  pub source_path : Option String
  pub source_hash : Option String
  pub source_commit : Option String
  pub source_message_id : Option String
  pub authority : ℕ
  pub validation_method : Option String
  pub validated_at : Option String
  pub created_at : String
  pub updated_at : String
  pub superseded_by : Option String

-- `rstrip("/")`
keep_slash : Char → String → String
keep_slash c String.[] = if nat_eq (code c) 47 then String.[] else String.◌∷◌ c String.[]
keep_slash c (String.◌∷◌ d s) = String.◌∷◌ c (String.◌∷◌ d s)

unfoldable pub rstrip_slashes : String → String
unfolding keep_slash
rstrip_slashes String.[] = String.[]
rstrip_slashes (String.◌∷◌ c s) = keep_slash c (rstrip_slashes s)

module _ (resolve : String → String) where
  unfoldable pub canonical_root : String → String
  unfolding rstrip_slashes forward_slashes
  canonical_root value = rstrip_slashes (forward_slashes (resolve value))

  -- `MemoryRecord.__post_init__`, at the time `now`.
  unfoldable pub make_record : {V : Type 0} → String → MemoryRecord V → Result (MemoryRecord V)
  make_record now r = do
    raise_if (is_blank r.project_workspace_id)
        (value_error "project_workspace_id must not be empty")
    raise_if (is_blank r.subject || is_blank r.predicate)
        (value_error "subject and predicate must not be empty")
    raise_if (ltb 100 r.confidence) (value_error "confidence must be between 0.0 and 1.0")
    raise_if (is_verified r.validation_status && is_missing r.validation_method)
        (value_error "verified memory requires validation_method")
    raise_if (is_interpretive r.source_type && is_verified r.validation_status) (
        value_error
          (concat (source_name r.source_type) " cannot be promoted directly as verified memory"))
    ok (record r {
      project_workspace_id = strip r.project_workspace_id;
      canonical_workspace_root = canonical_root r.canonical_workspace_root;
      subject = strip r.subject;
      predicate = strip r.predicate;
      validated_at =
          if is_verified r.validation_status && is_missing r.validated_at
          then some now
          else r.validated_at;
    })
