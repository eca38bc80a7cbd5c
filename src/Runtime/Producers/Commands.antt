-- ===== src/Runtime/Producers/Commands.antt =====
-- runtime/validation_command_policy.py: the commands that may be run to validate a task. A timeout is
-- in milliseconds. The message of an ambiguous mapping ends with the mapping, which is left out.
use lbe_ci_validation.Base.{
  Bool, List, Option, Result, String, [], any, contains, if◌then◌else◌, is_blank, is_empty, nat_eq,
  none, not, ok, raise_if, some, strip, value_error, ℕ, ◌&&◌, ◌++◌, ◌==◌, ◌>>◌, ◌||◌, ◌∷◌,
}

pub record ValidationCommandPolicy : Type 0 where
  pub policy_id : String
  pub operation_id : String
  pub applicable_mode : String
  pub evidence_kind : String
  pub command : List String
  pub timeout : ℕ

-- `ValidationCommandPolicy.__post_init__`
unfoldable pub make_command_policy : ValidationCommandPolicy → Result ValidationCommandPolicy
make_command_policy p = do
  raise_if (is_blank p.policy_id) (value_error "policy_id must be a non-empty string")
  raise_if (is_blank p.operation_id) (value_error "operation_id must be a non-empty string")
  raise_if (is_blank p.evidence_kind) (value_error "evidence_kind must be a non-empty string")
  raise_if (not (contains p.applicable_mode ("coding" ∷ "audit" ∷ "investigation" ∷ [])))
      (value_error "applicable_mode must be a supported runtime mode")
  raise_if (is_empty p.command || any is_blank p.command)
      (value_error "validation command must contain non-empty arguments")
  raise_if (nat_eq p.timeout 0) (value_error "validation command timeout_seconds must be positive")
  ok (record p {
    policy_id = strip p.policy_id;
    operation_id = strip p.operation_id;
    evidence_kind = strip p.evidence_kind;
  })

-- Whether a policy stands under the key `(operation_id, mode, evidence_kind)`.
unfoldable pub maps_command : String → String → String → ValidationCommandPolicy → Bool
maps_command operation_id mode evidence_kind p =
    p.operation_id == operation_id && p.applicable_mode == mode && p.evidence_kind == evidence_kind

-- The catalog's `by_mapping`, while it is built, as the list of the policies so far.
unfoldable pub add_commands :
    List ValidationCommandPolicy
    → List ValidationCommandPolicy
    → Result (List ValidationCommandPolicy)
unfolding maps_command
add_commands catalog [] = ok catalog
add_commands catalog (p ∷ ps) = do
  raise_if (any (maps_command p.operation_id p.applicable_mode p.evidence_kind) catalog)
      (value_error "ambiguous validation command policy mapping: ")
  add_commands (catalog ++ p ∷ []) ps

unfoldable pub first_command :
    (ValidationCommandPolicy → Bool) → List ValidationCommandPolicy → Option ValidationCommandPolicy
first_command test [] = none
first_command test (p ∷ ps) = if test p then some p else first_command test ps

-- `ValidationCommandPolicyCatalog.find`
unfoldable pub find_command :
    String → String → String → List ValidationCommandPolicy → Option ValidationCommandPolicy
unfolding first_command maps_command
find_command operation_id mode evidence_kind catalog =
    first_command (maps_command (strip operation_id) mode (strip evidence_kind)) catalog

-- `DEFAULT_VALIDATION_COMMAND_POLICY_CATALOG`
abbrev pub default_commands : List ValidationCommandPolicy
default_commands =
    record {
      policy_id = "repository.ci.pytest.v1";
      operation_id = "reasoning.inspect";
      applicable_mode = "coding";
      evidence_kind = "focused_test";
      command = "python" ∷ "-m" ∷ "pytest" ∷ "-q" ∷ [];
      timeout = 300000;
    }
    ∷ []
