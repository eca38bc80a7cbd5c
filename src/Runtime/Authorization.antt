-- ===== src/Runtime/Authorization.antt =====
-- runtime/authorization_resolver.py.
use lbe_ci_validation.Base.{
  Bool, String, arith, concat, contains, if◌then◌else◌, not, strip, true, ◌&&◌, ◌||◌, ◌≡◌,
}
use lbe_ci_validation.Runtime.Mode.{ModeDecision, mode_text}

pub data AuthorizationVerdict : Type 0 where
  allow deny escalate : AuthorizationVerdict

pub record AuthorizationRequest : Type 0 where
  pub mode_decision : ModeDecision
  pub capability : String
  pub within_workspace_scope : Bool
  pub explicitly_forbidden : Bool
  pub destructive : Bool
  pub destructive_authorized : Bool
  pub persistent_policy_change : Bool
  pub persistent_policy_authorized : Bool
  pub intent_scope_conflict : Bool

pub record AuthorizationDecision : Type 0 where
  pub verdict : AuthorizationVerdict
  pub capability : String
  pub rationale : String

decide_verdict : AuthorizationVerdict → String → String → AuthorizationDecision
decide_verdict verdict capability rationale = record {
  verdict = verdict;
  capability = capability;
  rationale = rationale;
}

unfoldable pub resolve_authorization : AuthorizationRequest → AuthorizationDecision
unfolding decide_verdict
resolve_authorization request =
    let capability = strip request.capability in
    if request.explicitly_forbidden
    then decide_verdict deny capability "Operation is explicitly forbidden by active policy."
    else if not (contains capability request.mode_decision.capabilities)
    then decide_verdict escalate capability (
        concat "Capability '" (
          concat capability (
            concat "' is not enabled by "
              (concat (mode_text request.mode_decision.mode) " mode policy."))))
    else if not request.within_workspace_scope
    then decide_verdict escalate capability "Operation expands beyond the active workspace scope."
    else if request.intent_scope_conflict
    then decide_verdict escalate capability "Operation has unresolved intent or scope conflict."
    else if request.destructive && not request.destructive_authorized
    then decide_verdict escalate capability "Destructive operation exceeds delegated authority."
    else if request.persistent_policy_change && not request.persistent_policy_authorized
    then decide_verdict escalate capability "Persistent policy change is not already delegated."
    else decide_verdict allow capability
        "Capability is already authorized by the active runtime policy."

-- The authority that the request already has.
abbrev pub is_delegated : AuthorizationRequest → Bool
is_delegated request =
    contains (strip request.capability) request.mode_decision.capabilities
    && request.within_workspace_scope
    && not request.intent_scope_conflict
    && (not request.destructive || request.destructive_authorized)
    && (not request.persistent_policy_change || request.persistent_policy_authorized)

-- The verdict, in one formula: a forbidden request is denied, whatever else holds; any other is
-- allowed exactly if all of it is delegated, and escalated otherwise.
pub verdict_exact :
    (request : AuthorizationRequest)
    → (resolve_authorization request).verdict ≡ (
        if request.explicitly_forbidden
        then deny
        else if is_delegated request
        then allow
        else escalate)
unfolding resolve_authorization
verdict_exact request = ground arith

-- An allowed capability is one of the decision's, and the request stays inside every limit.
pub allow_needs :
    (request : AuthorizationRequest)
    → (resolve_authorization request).verdict ≡ allow
    → contains (strip request.capability) request.mode_decision.capabilities ≡ true
unfolding resolve_authorization
allow_needs request h = ground arith
