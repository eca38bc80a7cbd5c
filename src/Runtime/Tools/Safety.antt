-- ===== src/Runtime/Tools/Safety.antt =====
-- No handler runs, and so nothing in the world changes, without a registered tool, valid arguments
-- and an authorization.
use lbe_ci_validation.Base.{
  List, Option-cases, Result, String, arith, err, inl, inr, lookup, none, ok, refl, some, sym, ◌∙◌,
  ◌≡◌, ◌⊎◌,
}
use lbe_ci_validation.Runtime.Authorization.{
  AuthorizationDecision, AuthorizationRequest, AuthorizationVerdict, allow, deny, escalate,
}
use lbe_ci_validation.Runtime.Tools.{
  RegisteredTool, ToolReceipt, ToolRequest, executed, get_tool, validate_arguments,
}
use lbe_ci_validation.Runtime.Tools.Orchestrator.{
  Orchestrator, authorization_request, authorize, check_arguments, dispatch, find_tool, invoke,
}

module _ {W : Type 0} (show : List String → String)
    (resolver : AuthorizationRequest → AuthorizationDecision) where
  -- What must hold for the handler of a request to be called.
  pub record MayRun (request : ToolRequest) (o : Orchestrator W) : Type 0 where
    pub tool : RegisteredTool W
    pub asked : AuthorizationRequest
    pub is_new : lookup request.operation_id o.receipts ≡ none
    pub registered : get_tool request.tool_id o.registry ≡ some tool
    pub valid : validate_arguments show tool.spec request.arguments ≡ none
    pub asks : authorization_request request.context tool.spec ≡ ok asked
    pub allowed : (resolver asked).verdict ≡ allow

  -- Nothing happens to the world, and no receipt but an earlier one says `executed`.
  abbrev pub IsQuiet :
      ToolRequest → Orchestrator W → W → Result ToolReceipt × Orchestrator W × W → Type 0
  IsQuiet request o w (answer, o', w') =
      (w' ≡ w)
      × ((r : ToolReceipt)
          → answer ≡ ok r
          → r.status ≡ executed
          → lookup request.operation_id o.receipts ≡ some r)

  dispatch-IsQuiet :
      (v : AuthorizationVerdict) (request : ToolRequest) (a : AuthorizationDecision)
      (tool : RegisteredTool W) (o : Orchestrator W) (w : W)
      → IsQuiet request o w (dispatch v request a tool o w) ⊎ (v ≡ allow)
  unfolding dispatch
  dispatch-IsQuiet deny request a tool o w = inl (refl, λ r e h. ground arith)
  dispatch-IsQuiet escalate request a tool o w = inl (refl, λ r e h. ground arith)
  dispatch-IsQuiet allow request a tool o w = inr refl

  module _ (request : ToolRequest) (o : Orchestrator W) (w : W) where
    authorize-IsQuiet :
        (tool : RegisteredTool W)
        → IsQuiet request o w (authorize show resolver request tool o w)
          ⊎ ((asked : AuthorizationRequest) × (authorization_request request.context tool.spec
                ≡ ok asked)
              × ((resolver asked).verdict ≡ allow))
    unfolding authorize
    authorize-IsQuiet tool = go (authorization_request request.context tool.spec) refl
      where
        go :
            (r : Result AuthorizationRequest)
            → authorization_request request.context tool.spec ≡ r
            → IsQuiet request o w (authorize show resolver request tool o w)
              ⊎ ((asked : AuthorizationRequest) × (authorization_request request.context tool.spec
                    ≡ ok asked)
                  × ((resolver asked).verdict ≡ allow))
        go (err x) e = inl (rw (e, authorize) (refl, λ r a h. cc))
        go (ok asked) e =
            elim (dispatch-IsQuiet (resolver asked).verdict request (resolver asked) tool o w) [
              | inl q ↦ inl (rw (e, authorize) q)
              | inr h ↦ inr (asked, e, h)
            ]

    check_arguments-MayRun :
        (tool : RegisteredTool W)
        → lookup request.operation_id o.receipts ≡ none
        → get_tool request.tool_id o.registry ≡ some tool
        → IsQuiet request o w (check_arguments show resolver request tool o w) ⊎ MayRun request o
    unfolding check_arguments
    check_arguments-MayRun tool new found =
        elim (Option-cases (validate_arguments show tool.spec request.arguments)) [
          | inl valid ↦ elim (authorize-IsQuiet tool) [
            | inl q ↦ inl (rw (valid, check_arguments) q)
            | inr (asked, asks, allowed) ↦ inr (record {
              tool = tool;
              asked = asked;
              is_new = new;
              registered = found;
              valid = valid;
              asks = asks;
              allowed = allowed;
            })
          ]
          | inr (message, bad) ↦ inl (rw (bad, check_arguments) (refl, λ r e h. ground arith))
        ]

    find_tool-MayRun :
        lookup request.operation_id o.receipts ≡ none
        → IsQuiet request o w (find_tool show resolver request o w) ⊎ MayRun request o
    unfolding find_tool
    find_tool-MayRun new = elim (Option-cases (get_tool request.tool_id o.registry)) [
      | inl missing ↦ inl (rw (missing, find_tool) (refl, λ r e h. ground arith))
      | inr (tool, found) ↦ elim (check_arguments-MayRun tool new found) [
        | inl q ↦ inl (rw (found, find_tool) q)
        | inr m ↦ inr m
      ]
    ]

    -- Either the call leaves the world as it was and makes no `executed` receipt, or the operation is
    -- new, its tool is registered, its arguments are valid and the resolver allows what the tool asks.
    pub invoke-IsQuiet_or_authorized :
        IsQuiet request o w (invoke show resolver request o w) ⊎ MayRun request o
    unfolding invoke
    invoke-IsQuiet_or_authorized = elim (Option-cases (lookup request.operation_id o.receipts)) [
      | inl new ↦ elim (find_tool-MayRun new) [
        | inl q ↦ inl (rw (new, invoke) (q.0, λ r e h. sym new ∙ q.1 r e h))
        | inr m ↦ inr m
      ]
      | inr (prior, old) ↦ inl (rw (old, invoke) (refl, λ r e h. ground arith))
    ]
