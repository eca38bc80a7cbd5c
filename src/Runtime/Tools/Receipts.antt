-- ===== src/Runtime/Tools/Receipts.antt =====
-- The receipts of an orchestrator: one for each operation, made once.
use lbe_ci_validation.Base.{
  List, Option-cases, Raised, Result, String, err, exception, inl, inr, insert, interrupt, lookup,
  none, ok, refl, some, ◌+◌, ◌<◌, ◌≡◌, ◌⊎◌,
}
use lbe_ci_validation.Runtime.Authorization.{
  AuthorizationDecision, AuthorizationRequest, AuthorizationVerdict, allow, deny, escalate,
}
use lbe_ci_validation.Runtime.Tools.{
  HandlerOutcome, RegisteredTool, ToolReceipt, ToolRequest, get_tool, raised, returned,
  returned_other, validate_arguments,
}
use lbe_ci_validation.Runtime.Tools.Orchestrator.{
  Orchestrator, authorization_request, authorize, check_arguments, dispatch, find_tool, invoke,
  settle,
}

-- Each receipt stands under its operation, and its identifier was issued.
pub record IsConsistent {W : Type 0} (o : Orchestrator W) : Type 0 where
  pub keyed : (k : String) (r : ToolReceipt) → lookup k o.receipts ≡ some r → r.operation_id ≡ k
  pub issued_before :
      (k : String) (r : ToolReceipt) → lookup k o.receipts ≡ some r → r.receipt_id < o.issued
  pub distinct :
      (j k : String) (q r : ToolReceipt)
      → lookup j o.receipts ≡ some q
      → lookup k o.receipts ≡ some r
      → q.receipt_id ≡ r.receipt_id
      → j ≡ k

-- What a step may do to an orchestrator: keep it, or remember one receipt for the operation.
pub data Step {W : Type 0} (id : String) (o : Orchestrator W)
    : Result ToolReceipt → Orchestrator W → Type 0 where
  kept : (e : Raised) → Step id o (err e) o
  made :
      (receipt : ToolReceipt)
      → receipt.operation_id ≡ id
      → receipt.receipt_id ≡ o.issued
      → Step id o (ok receipt) (record o {
        receipts = insert receipt.operation_id receipt o.receipts;
        issued = o.issued + 1;
      })

module _ {W : Type 0} where
  settle-Step :
      (request : ToolRequest) (a : AuthorizationDecision) (o : Orchestrator W) (h : HandlerOutcome)
      (w : W)
      → let out = settle request a o h w in Step request.operation_id o out.0 out.1
  unfolding settle
  settle-Step request a o (returned result) w = made _ refl refl
  settle-Step request a o returned_other w = made _ refl refl
  settle-Step request a o (raised (exception name message)) w = made _ refl refl
  settle-Step request a o (raised (interrupt name)) w = kept (interrupt name)

  dispatch-Step :
      (v : AuthorizationVerdict) (request : ToolRequest) (a : AuthorizationDecision)
      (tool : RegisteredTool W) (o : Orchestrator W) (w : W)
      → let out = dispatch v request a tool o w in Step request.operation_id o out.0 out.1
  unfolding dispatch
  dispatch-Step deny request a tool o w = made _ refl refl
  dispatch-Step escalate request a tool o w = made _ refl refl
  dispatch-Step allow request a tool o w = settle-Step request a o _ _

module _ {W : Type 0} (show : List String → String)
    (resolver : AuthorizationRequest → AuthorizationDecision) (request : ToolRequest)
    (o : Orchestrator W) (w : W) where
  authorize-Step :
      (tool : RegisteredTool W)
      → let out = authorize show resolver request tool o w in
        Step request.operation_id o out.0 out.1
  unfolding authorize
  authorize-Step tool = go (authorization_request request.context tool.spec)
    where
      go :
          (r : Result AuthorizationRequest)
          → let out : Result ToolReceipt × Orchestrator W × W = elim r [
            | err e ↦ (err e, o, w)
            | ok asked ↦ dispatch (resolver asked).verdict request (resolver asked) tool o w
          ] in
            Step request.operation_id o out.0 out.1
      go (err e) = kept e
      go (ok asked) = dispatch-Step (resolver asked).verdict request (resolver asked) tool o w

  check_arguments-Step :
      (tool : RegisteredTool W)
      → let out = check_arguments show resolver request tool o w in
        Step request.operation_id o out.0 out.1
  unfolding check_arguments
  check_arguments-Step tool =
      elim (Option-cases (validate_arguments show tool.spec request.arguments)) [
        | inl valid ↦ rw (valid, check_arguments) (authorize-Step tool)
        | inr (message, bad) ↦ rw (bad, check_arguments) (made _ refl refl)
      ]

  find_tool-Step :
      let out = find_tool show resolver request o w in Step request.operation_id o out.0 out.1
  unfolding find_tool
  find_tool-Step = elim (Option-cases (get_tool request.tool_id o.registry)) [
    | inl missing ↦ rw (missing, find_tool) (made _ refl refl)
    | inr (tool, found) ↦ rw (found, find_tool) (check_arguments-Step tool)
  ]

  -- A known operation is answered by its receipt, and any other makes one step.
  pub invoke-cases :
      ((r : ToolReceipt) × (lookup request.operation_id o.receipts ≡ some r)
        × (invoke show resolver request o w ≡ (ok r, o, w)))
      ⊎ ((lookup request.operation_id o.receipts ≡ none)
          × (let out = invoke show resolver request o w in Step request.operation_id o out.0 out.1))
  unfolding invoke
  invoke-cases = elim (Option-cases (lookup request.operation_id o.receipts)) [
    | inl new ↦ inr (new, rw (new, invoke) find_tool-Step)
    | inr (r, old) ↦ inl (r, old, rw (old, invoke))
  ]
