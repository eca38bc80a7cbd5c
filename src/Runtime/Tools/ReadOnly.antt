-- ===== src/Runtime/Tools/ReadOnly.antt =====
-- Modes, authorization and tools together: outside coding mode no writing tool runs.
use lbe_ci_validation.Base.{
  Bool, List, String, ap, arith, contains, false, inl, inr, not, ok, some, strip, subst, true, ◌&&◌,
  ◌||◌, ◌∙◌, ◌≡◌,
}
use lbe_ci_validation.Runtime.Mode.{
  ModeDecision, ModeRequest, is_coding, resolve_mode, write_capabilities,
}
use lbe_ci_validation.Runtime.Mode.Decisions.{decision_bounds, may_code, resolve_mode_coding}
use lbe_ci_validation.Runtime.Authorization.{
  AuthorizationRequest, allow_needs, resolve_authorization,
}
use lbe_ci_validation.Runtime.Tools.{
  RegisteredTool, ToolExecutionContext, ToolRequest, ToolSpec, get_tool,
}
use lbe_ci_validation.Runtime.Tools.Orchestrator.{Orchestrator, authorization_request, invoke}
use lbe_ci_validation.Runtime.Tools.Safety.{IsQuiet, invoke-IsQuiet_or_authorized}

withheld : (x y q : Bool) → y ≡ false → q ≡ true → (x && (y || not q)) ≡ false
withheld x y q h k = ground arith

-- What an authorization request takes from the tool and the context.
asked_fields :
    (context : ToolExecutionContext) (spec : ToolSpec) (asked : AuthorizationRequest)
    → authorization_request context spec ≡ ok asked
    → (asked.capability ≡ spec.capability) × (asked.mode_decision ≡ context.mode_decision)
unfolding authorization_request
asked_fields context spec asked e = ground arith

no_write_capability :
    (asking : ModeRequest) (d : ModeDecision) (cap : String)
    → resolve_mode asking ≡ ok d
    → may_code asking.intent asking.permission asking.runtime_policy ≡ false
    → contains cap write_capabilities ≡ true
    → contains cap d.capabilities ≡ false
no_write_capability asking d cap e reading writes =
    let (d', e', codes) = resolve_mode_coding asking in
    let same : d' ≡ d = cc (e, e') in
    let coding_mode : is_coding d.mode ≡ false =
      subst (λ x. is_coding x.mode ≡ false) same (codes ∙ reading) in
    let bound = (decision_bounds asking d cap e).1 in bound ∙ withheld _ _ _ coding_mode writes

module _ {W : Type 0} (show : List String → String) (request : ToolRequest) (o : Orchestrator W)
    (w : W) where
  -- If the mode decision in force was resolved from a request whose policy, permission and intent do
  -- not admit coding, then a call of a tool that asks for a write capability leaves the world as it
  -- was and makes no `executed` receipt.
  pub no_write_outside_coding :
      (asking : ModeRequest) (tool : RegisteredTool W)
      → resolve_mode asking ≡ ok request.context.mode_decision
      → may_code asking.intent asking.permission asking.runtime_policy ≡ false
      → get_tool request.tool_id o.registry ≡ some tool
      → contains (strip tool.spec.capability) write_capabilities ≡ true
      → IsQuiet show resolve_authorization request o w
          (invoke show resolve_authorization request o w)
  no_write_outside_coding asking tool resolved reading found writes =
      elim (invoke-IsQuiet_or_authorized show resolve_authorization request o w) [
        | inl q ↦ q
        | inr m ↦
            let same : m.tool ≡ tool = cc (m.registered, found) in
            let held = allow_needs m.asked m.allowed in
            let (capability, decision) = asked_fields request.context m.tool.spec m.asked m.asks in
            let withheld =
              no_write_capability asking request.context.mode_decision (strip tool.spec.capability)
                resolved reading writes in
            let same_capability : strip m.asked.capability ≡ strip tool.spec.capability =
              ap strip capability ∙ ap (λ (t : RegisteredTool W). strip t.spec.capability) same in
            absurd (cc (held, withheld, same_capability, decision))
      ]
