-- ===== src/Providers/Continued.antt =====
-- What goes back to a provider as the output of a tool (provider_continuation.py,
-- runtime/tool_orchestration.py).
use lbe_ci_validation.Providers.Continuation.{
  ProviderToolContinuation, continuation_from_receipt, is_escalated, is_executed,
}
use lbe_ci_validation.Runtime.Authorization.{AuthorizationDecision, AuthorizationRequest}
use lbe_ci_validation.Runtime.Tools.{
  ToolReceipt, ToolReceiptStatus, ToolRequest, denied, escalated, executed,
}
use lbe_ci_validation.Runtime.Tools.Orchestrator.{Orchestrator, invoke}
use lbe_ci_validation.Runtime.Tools.Safety.{MayRun, invoke-IsQuiet_or_authorized}
use lbe_ci_validation.Base.{
  Bool-cases, List, String, ap, false, inl, inr, is_blank, lookup, not, ok, ok-inj, refl, some, ◌∙◌,
  ◌≡◌, ◌⊎◌,
}

executed_of : (s : ToolReceiptStatus) → not (is_executed s) ≡ false → s ≡ executed
executed_of executed h = refl
executed_of denied h = absurd (cc h)
executed_of escalated h = absurd (cc h)
executed_of ToolReceiptStatus.failed h = absurd (cc h)

-- A continuation without an error is of a receipt that says `executed`.
continuation-executed :
    (call id : String) (r : ToolReceipt) (c : ProviderToolContinuation)
    → continuation_from_receipt call id r ≡ ok c
    → c.is_error ≡ false
    → r.status ≡ executed
unfolding continuation_from_receipt
continuation-executed call id r c h clean = elim (Bool-cases (is_blank call)) [
  | inl e ↦ absurd (cc (rw e at h))
  | inr e ↦ elim (Bool-cases (is_blank id)) [
    | inl f ↦ absurd (cc (rw (e, f) at h))
    | inr f ↦ elim (Bool-cases (is_escalated r.status)) [
      | inl g ↦ absurd (cc (rw (e, f, g) at h))
      | inr g ↦ executed_of r.status (ap (λ x. x.is_error) (ok-inj (rw (e, f, g) at h)) ∙ clean)
    ]
  ]
]

-- If the receipt that `invoke` returns goes back to a provider as an output without an error, then it
-- is the receipt of an earlier run of the operation, or the operation is new, its tool is registered,
-- its arguments are valid and the resolver allows what the tool asks.
pub continuation-authorized :
    {W : Type 0} (show : List String → String)
    (resolver : AuthorizationRequest → AuthorizationDecision) (request : ToolRequest)
    (o : Orchestrator W) (w : W) (call id : String) (r : ToolReceipt) (c : ProviderToolContinuation)
    → (invoke show resolver request o w).0 ≡ ok r
    → continuation_from_receipt call id r ≡ ok c
    → c.is_error ≡ false
    → (lookup request.operation_id o.receipts ≡ some r) ⊎ MayRun show resolver request o
continuation-authorized show resolver request o w call id r c ran continued clean =
    elim (invoke-IsQuiet_or_authorized show resolver request o w) [
      | inl quiet ↦ inl (quiet.1 r ran (continuation-executed call id r c continued clean))
      | inr may ↦ inr may
    ]
