-- ===== src/Runtime/Tools.antt =====
-- runtime/tool_orchestration.py: the data of governed tools and their registry. A handler, code that
-- the registry is given, acts on a world `W`: the files and services it reaches.
pub mod Orchestrator
pub mod Safety
pub mod Receipts
pub mod Idempotence
pub mod Lookup
pub mod ReadOnly
pub mod Tracking
use lbe_ci_validation.Base.{
  Bool, Dict, List, Option, Raised, Result, String, Value, [], any, concat, contains, filter,
  flat_map, if◌then◌else◌, insert, is_blank, is_empty, is_some, keys, lookup, nat_eq, none, not, ok,
  raise_if, some, sorted, strip, value_error, ℕ, ◌++◌, ◌>>◌, ◌∷◌,
}
use lbe_ci_validation.Runtime.Mode.{ModeDecision}
use lbe_ci_validation.Runtime.Authorization.{AuthorizationDecision}

pub data ToolAccessClass : Type 0 where
  read write : ToolAccessClass

pub data ToolNetworkBehavior : Type 0 where
  no_network optional required : ToolNetworkBehavior

pub data ToolRiskClass : Type 0 where
  low medium high : ToolRiskClass

pub data ToolReceiptStatus : Type 0 where
  executed denied escalated failed : ToolReceiptStatus

-- `timeout_ms` is `timeout_seconds` in thousandths; the source refuses one that is not positive.
pub record ToolSpec : Type 0 where
  pub tool_id : String
  pub capability : String
  pub required_arguments : List String
  pub optional_arguments : List String
  pub access_class : ToolAccessClass
  pub network_behavior : ToolNetworkBehavior
  pub risk_class : ToolRiskClass
  pub timeout_ms : ℕ
  pub retry_policy : String
  pub preconditions : List String
  pub expected_evidence : List String
  pub failure_modes : List String

-- `__post_init__`: a spec is built as it is, or refused. The text of the last error goes on with the
-- arguments that overlap.
unfoldable pub check_spec : ToolSpec → Result ToolSpec
check_spec spec = do
  raise_if (is_blank spec.tool_id) (value_error "tool_id must be a non-empty string")
  raise_if (is_blank spec.capability) (value_error "capability must be a non-empty string")
  raise_if (nat_eq spec.timeout_ms 0) (value_error "timeout_seconds must be positive")
  raise_if (any (λ name. contains name spec.optional_arguments) spec.required_arguments)
      (value_error "tool arguments cannot be both required and optional: ")
  ok spec

-- `workspace_root` is the resolved root.
pub record ToolExecutionContext : Type 0 where
  pub mode_decision : ModeDecision
  pub workspace_id : String
  pub workspace_root : String
  pub configured_root_id : String
  pub within_workspace_scope : Bool
  pub explicitly_forbidden : Bool
  pub destructive : Bool
  pub destructive_authorized : Bool
  pub persistent_policy_change : Bool
  pub persistent_policy_authorized : Bool
  pub intent_scope_conflict : Bool

pub record ToolRequest : Type 0 where
  pub operation_id : String
  pub tool_id : String
  pub arguments : Dict Value
  pub context : ToolExecutionContext

pub record ToolExecutionResult : Type 0 where
  pub output : Dict Value
  pub evidence : List (Dict Value)

-- `receipt_id` is a random identifier in the source; here the number of receipts made before.
pub record ToolReceipt : Type 0 where
  pub operation_id : String
  pub tool_id : String
  pub status : ToolReceiptStatus
  pub authorization : Option AuthorizationDecision
  pub output : Option (Dict Value)
  pub evidence : List (Dict Value)
  pub error_code : Option String
  pub error_message : Option String
  pub receipt_id : ℕ

-- What calling a handler does: it returns a `ToolExecutionResult`, something else, or raises.
pub data HandlerOutcome : Type 0 where
  returned : ToolExecutionResult → HandlerOutcome
  returned_other : HandlerOutcome
  raised : Raised → HandlerOutcome

module _ (W : Type 0) where
  abbrev pub ToolHandler : Type 0
  ToolHandler = ToolRequest → W → HandlerOutcome × W

  pub record RegisteredTool : Type 0 where
    pub spec : ToolSpec
    pub handler : ToolRequest → W → HandlerOutcome × W

  abbrev pub ToolRegistry : Type 0
  ToolRegistry = Dict RegisteredTool

module _ {W : Type 0} where
  unfoldable pub register : ToolSpec → ToolHandler W → ToolRegistry W → Result (ToolRegistry W)
  register spec handler tools = do
    raise_if (is_some (lookup spec.tool_id tools))
        (value_error (concat "tool already registered: " spec.tool_id))
    ok (insert spec.tool_id (record { spec = spec; handler = handler }) tools)

  unfoldable pub get_tool : String → ToolRegistry W → Option (RegisteredTool W)
  get_tool tool_id tools = lookup (strip tool_id) tools

  -- `tuple(self._tools[key].spec for key in sorted(self._tools))`
  spec_at : ToolRegistry W → String → List ToolSpec
  spec_at tools key = elim (lookup key tools) [ none ↦ [] | some tool ↦ tool.spec ∷ [] ]

  unfoldable pub specs : ToolRegistry W → List ToolSpec
  unfolding spec_at
  specs tools = flat_map (spec_at tools) (sorted (keys tools))

-- `_validate_arguments`. Its texts go on with the offending names, which `show` writes.
unfoldable pub validate_arguments : (List String → String) → ToolSpec → Dict Value → Option String
validate_arguments show spec arguments =
    let allowed = spec.required_arguments ++ spec.optional_arguments in
    let unknown = sorted (filter (λ name. not (contains name allowed)) (keys arguments)) in
    let missing =
      sorted (filter (λ name. not (contains name (keys arguments))) spec.required_arguments) in
    if not (is_empty unknown)
    then some
        (concat "unsupported arguments for " (concat spec.tool_id (concat ": " (show unknown))))
    else if not (is_empty missing)
    then some (
        concat "missing required arguments for " (concat spec.tool_id (concat ": " (show missing))))
    else none
