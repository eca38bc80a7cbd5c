-- ===== src/Providers/Continuation.antt =====
-- provider_continuation.py: what of a tool's receipt goes back to a provider.
use lbe_ci_validation.Runtime.Tools.{ToolReceipt, ToolReceiptStatus, denied, escalated, executed}
use lbe_ci_validation.Base.{
  Bool, Dict, Option, Result, String, Value, [], err, false, if◌then◌else◌, is_blank, none, not,
  null, ok, some, str, strip, true, value_error, ℕ, ◌∷◌,
}

pub record ProviderToolContinuation : Type 0 where
  pub provider_tool_call_id : String
  pub lbe_call_id : String
  pub runtime_operation_id : String
  pub tool_receipt_id : ℕ
  pub tool_name : String
  pub output : Dict Value
  pub is_error : Bool

-- `receipt.status.value`
abbrev pub receipt_status_name : ToolReceiptStatus → String
receipt_status_name executed = "EXECUTED"
receipt_status_name denied = "DENIED"
receipt_status_name escalated = "ESCALATED"
receipt_status_name ToolReceiptStatus.failed = "FAILED"

abbrev pub is_executed : ToolReceiptStatus → Bool
is_executed executed = true
is_executed _ = false

abbrev pub is_escalated : ToolReceiptStatus → Bool
is_escalated escalated = true
is_escalated _ = false

abbrev pub text_or_null : Option String → Value
text_or_null none = null
text_or_null (some s) = str s

abbrev pub output_of : ToolReceipt → Dict Value
output_of receipt = elim receipt.output [ none ↦ [] | some output ↦ output ]

-- `continuation_from_receipt`
unfoldable pub continuation_from_receipt :
    String → String → ToolReceipt → Result ProviderToolContinuation
continuation_from_receipt provider_tool_call_id lbe_call_id receipt =
    if is_blank provider_tool_call_id
    then err (value_error "provider_tool_call_id must be non-empty")
    else if is_blank lbe_call_id
    then err (value_error "lbe_call_id must be non-empty")
    else if is_escalated receipt.status
    then err (value_error "escalated receipt must stop for approval, not continue provider")
    else ok (record {
      provider_tool_call_id = strip provider_tool_call_id;
      lbe_call_id = strip lbe_call_id;
      runtime_operation_id = receipt.operation_id;
      tool_receipt_id = receipt.receipt_id;
      tool_name = receipt.tool_id;
      output =
          if is_executed receipt.status
          then output_of receipt
          else ("status", str (receipt_status_name receipt.status))
            ∷ ("error_code", text_or_null receipt.error_code)
            ∷ ("error_message", text_or_null receipt.error_message)
            ∷ [];
      is_error = not (is_executed receipt.status);
    })
