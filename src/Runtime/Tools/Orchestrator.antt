-- ===== src/Runtime/Tools/Orchestrator.antt =====
-- `GovernedToolOrchestrator` of runtime/tool_orchestration.py.
use lbe_ci_validation.Base.{
  Dict, List, Option, Result, String, [], concat, err, exception, insert, interrupt, is_blank,
  lookup, none, ok, raise_if, some, value_error, ℕ, ◌+◌, ◌>>◌,
}
use lbe_ci_validation.Runtime.Authorization.{
  AuthorizationDecision, AuthorizationRequest, AuthorizationVerdict, allow, deny, escalate,
}
use lbe_ci_validation.Runtime.Tools.{
  HandlerOutcome, RegisteredTool, ToolExecutionContext, ToolReceipt, ToolReceiptStatus,
  ToolRegistry, ToolRequest, ToolSpec, denied, escalated, executed, failed, get_tool, raised,
  returned, returned_other, validate_arguments,
}

-- `issued` is the supply of receipt identifiers.
pub record Orchestrator (W : Type 0) : Type 0 where
  pub registry : ToolRegistry W
  pub receipts : Dict ToolReceipt
  pub issued : ℕ

-- The call of `AuthorizationRequest`, whose `__post_init__` refuses a blank capability.
unfoldable pub authorization_request : ToolExecutionContext → ToolSpec → Result AuthorizationRequest
authorization_request context spec = do
  raise_if (is_blank spec.capability) (value_error "capability must be a non-empty string")
  ok (record {
    mode_decision = context.mode_decision;
    capability = spec.capability;
    within_workspace_scope = context.within_workspace_scope;
    explicitly_forbidden = context.explicitly_forbidden;
    destructive = context.destructive;
    destructive_authorized = context.destructive_authorized;
    persistent_policy_change = context.persistent_policy_change;
    persistent_policy_authorized = context.persistent_policy_authorized;
    intent_scope_conflict = context.intent_scope_conflict;
  })

-- A receipt of an operation that did not run to its end.
unfoldable pub refusal :
    ToolRequest
    → ToolReceiptStatus
    → Option AuthorizationDecision
    → String
    → String
    → ℕ
    → ToolReceipt
refusal request status authorization error_code error_message receipt_id = record {
  operation_id = request.operation_id;
  tool_id = request.tool_id;
  status = status;
  authorization = authorization;
  output = none;
  evidence = [];
  error_code = some error_code;
  error_message = some error_message;
  receipt_id = receipt_id;
}

module _ {W : Type 0} where
  -- `self._remember(receipt)`. The receipt has drawn its identifier, `o.issued`.
  unfoldable pub remember : ToolReceipt → Orchestrator W → ToolReceipt × Orchestrator W
  remember receipt o = (
    receipt,
    record o { receipts = insert receipt.operation_id receipt o.receipts; issued = o.issued + 1 },
  )

  -- `self._remember(...)` as the last step of `invoke`.
  unfoldable pub finish : ToolReceipt → Orchestrator W → W → Result ToolReceipt × Orchestrator W × W
  unfolding remember
  finish receipt o w = let (stamped, o') = remember receipt o in (ok stamped, o', w)

  -- The `try` around the handler. What is no `Exception` passes through, and nothing is remembered.
  unfoldable pub settle :
      ToolRequest
      → AuthorizationDecision
      → Orchestrator W
      → HandlerOutcome
      → W
      → Result ToolReceipt × Orchestrator W × W
  unfolding finish refusal
  settle request authorization o (returned result) w =
      finish
        (record {
          operation_id = request.operation_id;
          tool_id = request.tool_id;
          status = executed;
          authorization = some authorization;
          output = some result.output;
          evidence = result.evidence;
          error_code = none;
          error_message = none;
          receipt_id = o.issued;
        })
        o w
  settle request authorization o returned_other w =
      finish
        (refusal request failed (some authorization) "TOOL_EXECUTION_FAILED"
          "TypeError: tool handler must return ToolExecutionResult" o.issued)
        o w
  settle request authorization o (raised (exception name message)) w =
      finish
        (refusal request failed (some authorization) "TOOL_EXECUTION_FAILED"
          (concat name (concat ": " message)) o.issued)
        o w
  settle request authorization o (raised (interrupt name)) w = (err (interrupt name), o, w)

  unfoldable pub execute :
      ToolRequest
      → AuthorizationDecision
      → RegisteredTool W
      → Orchestrator W
      → W
      → Result ToolReceipt × Orchestrator W × W
  unfolding settle
  execute request authorization tool o w =
      let (outcome, w') = tool.handler request w in settle request authorization o outcome w'

  unfoldable pub dispatch :
      AuthorizationVerdict
      → ToolRequest
      → AuthorizationDecision
      → RegisteredTool W
      → Orchestrator W
      → W
      → Result ToolReceipt × Orchestrator W × W
  unfolding execute finish refusal
  dispatch deny request authorization tool o w =
      finish
        (refusal request denied (some authorization) "AUTHORIZATION_DENIED" authorization.rationale
          o.issued)
        o w
  dispatch escalate request authorization tool o w =
      finish
        (refusal request escalated (some authorization) "AUTHORIZATION_REQUIRED"
          authorization.rationale o.issued)
        o w
  dispatch allow request authorization tool o w = execute request authorization tool o w

module _ {W : Type 0} (show : List String → String)
    (resolver : AuthorizationRequest → AuthorizationDecision) where
  unfoldable pub authorize :
      ToolRequest → RegisteredTool W → Orchestrator W → W → Result ToolReceipt × Orchestrator W × W
  unfolding dispatch authorization_request
  authorize request tool o w = elim (authorization_request request.context tool.spec) [
    | err e ↦ (err e, o, w)
    | ok asked ↦
        let authorization = resolver asked in
        dispatch authorization.verdict request authorization tool o w
  ]

  unfoldable pub check_arguments :
      ToolRequest → RegisteredTool W → Orchestrator W → W → Result ToolReceipt × Orchestrator W × W
  unfolding authorize finish refusal
  check_arguments request tool o w = elim (validate_arguments show tool.spec request.arguments) [
    | some message ↦
        finish (refusal request failed none "INVALID_TOOL_ARGUMENTS" message o.issued) o w
    | none ↦ authorize request tool o w
  ]

  unfoldable pub find_tool :
      ToolRequest → Orchestrator W → W → Result ToolReceipt × Orchestrator W × W
  unfolding check_arguments get_tool finish refusal
  find_tool request o w = elim (get_tool request.tool_id o.registry) [
    | none ↦
        finish
          (refusal request failed none "UNREGISTERED_TOOL"
            (concat "tool is not registered: " request.tool_id) o.issued)
          o w
    | some tool ↦ check_arguments request tool o w
  ]

  unfoldable pub invoke : ToolRequest → Orchestrator W → W → Result ToolReceipt × Orchestrator W × W
  unfolding find_tool
  invoke request o w = elim (lookup request.operation_id o.receipts) [
    | some prior ↦ (ok prior, o, w)
    | none ↦ find_tool request o w
  ]
