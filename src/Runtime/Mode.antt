-- ===== src/Runtime/Mode.antt =====
-- runtime/mode_controller.py. Permissions and policies are the texts that reach the function, which
-- looks them up with a default.
pub mod Capabilities
pub mod Decisions
use lbe_ci_validation.Base.{
  Bool, Dict, List, Option, Result, String, [], concat, contains, false, filter, if◌then◌else◌,
  lookup, map, none, not, ok, some, true, ◌&&◌, ◌++◌, ◌>>=◌, ◌∷◌,
}
use lbe_ci_validation.Behavior.Contracts.{Mode}
use lbe_ci_validation.Behavior.{
  get_behaviors_for_intent, get_behaviors_for_mode, validate_mode_behavior,
}

pub data RuntimeMode : Type 0 where
  coding investigation : RuntimeMode
  audit : RuntimeMode

pub record ModeRequest : Type 0 where
  pub intent : String
  pub permission : String
  pub workspace_root : String
  pub runtime_policy : String

pub record ModeDecision : Type 0 where
  pub mode : RuntimeMode
  pub allowed_behaviors : List String
  pub capabilities : List String
  pub rationale : String

abbrev pub mode_text : RuntimeMode → String
mode_text coding = "coding"
mode_text audit = "audit"
mode_text investigation = "investigation"

abbrev pub permission_mode : Dict RuntimeMode
permission_mode =
    ("read_only", audit)
    ∷ ("audit_only", audit)
    ∷ ("write_allowed", coding)
    ∷ ("elevated", coding)
    ∷ []

abbrev pub policy_mode_override : Dict (Option RuntimeMode)
policy_mode_override =
    ("audit", some audit)
    ∷ ("development", some coding)
    ∷ ("strict", some audit)
    ∷ ("permissive", none)
    ∷ []

abbrev pub investigation_intents : List String
investigation_intents =
    "investigate_issue" ∷ "diagnose_failure" ∷ "trace_failure" ∷ "investigate_guard_failure" ∷ []

abbrev pub audit_intents : List String
audit_intents =
    "audit_workspace" ∷ "check_finding" ∷ "review_memory" ∷ "inspect_workspace"
    ∷ "verify_compliance" ∷ []

abbrev pub is_coding : RuntimeMode → Bool
is_coding coding = true
is_coding _ = false

unfoldable pub behavior_mode : RuntimeMode → Mode
behavior_mode coding = Mode.development
behavior_mode _ = Mode.audit

-- `_POLICY_MODE_OVERRIDE.get(runtime_policy)`: a policy that is not in the table gives `None` too.
override_of : Option (Option RuntimeMode) → Option RuntimeMode
override_of none = none
override_of (some forced) = forced

-- `_PERMISSION_MODE.get(permission, "audit")`
base_of : Option RuntimeMode → RuntimeMode
base_of none = audit
base_of (some mode) = mode

resolve_base : String → String → RuntimeMode → RuntimeMode × String
resolve_base intent permission base =
    if contains intent investigation_intents
    then (investigation, concat "Intent '" (concat intent "' requires investigation mode"))
    else if contains intent audit_intents && is_coding base
    then (
      audit,
      concat "Intent '" (
          concat intent
            (concat "' requires audit mode despite " (concat permission " permission"))),
    )
    else (
      base,
      concat "Permission '"
          (concat permission (concat "' maps to " (concat (mode_text base) " mode"))),
    )

resolve_mode_of : String → String → String → RuntimeMode × String
unfolding override_of base_of resolve_base lookup
resolve_mode_of intent permission runtime_policy =
    elim (override_of (lookup runtime_policy policy_mode_override)) [
      | some forced ↦ (
        forced,
        concat "Runtime policy '"
            (concat runtime_policy (concat "' forces " (concat (mode_text forced) " mode"))),
      )
      | none ↦ resolve_base intent permission (base_of (lookup permission permission_mode))
    ]

abbrev pub behavior_caps : Dict (List String)
behavior_caps =
    ("require_current_workspace_evidence", "inspect" ∷ "search" ∷ "compare" ∷ "verify" ∷ [])
    ∷ ("validation_before_acceptance", "validate" ∷ "verify" ∷ "corroborate" ∷ "cross_check" ∷ [])
    ∷ (
      "evidence_boundary_enforcement",
      "reference_inform" ∷ "workspace_prove" ∷ "guard_detect" ∷ "validation_confirm" ∷ [],
    )
    ∷ (
      "audit_mode_constraints",
      "inspect" ∷ "collect_evidence" ∷ "report_findings" ∷ "register_finding" ∷ [],
    )
    ∷ (
      "development_mode_capabilities",
      "discover" ∷ "propose" ∷ "test_candidate" ∷ "validate_proposal" ∷ "promote_after_validation"
          ∷ [],
    )
    ∷ (
      "finding_review_required",
      "record_finding" ∷ "request_review" ∷ "verify_against_current" ∷ "categorize_finding" ∷ [],
    )
    ∷ (
      "memory_is_historical_context",
      "read_memory" ∷ "use_as_context" ∷ "correlate_with_current" ∷ [],
    )
    ∷ (
      "use_only_approved_guards",
      "list_approved_guards" ∷ "execute_approved_guard" ∷ "request_guard_execution" ∷ [],
    )
    ∷ (
      "proposed_rules_require_validation",
      "propose_rule" ∷ "test_proposal" ∷ "validate_proposal" ∷ "submit_for_approval" ∷ [],
    )
    ∷ []

abbrev pub write_capabilities : List String
write_capabilities =
    "modify" ∷ "propose" ∷ "test_candidate" ∷ "promote_after_validation" ∷ "propose_rule"
    ∷ "test_proposal" ∷ "submit_for_approval" ∷ []

-- `behavior_caps.get(behavior, ())`
unfoldable pub caps_of : String → List String
unfolding lookup
caps_of behavior = elim (lookup behavior behavior_caps) [ none ↦ [] | some caps ↦ caps ]

-- The inner loop. The set `seen` and the list `capabilities` hold the same texts, so the list of the
-- capabilities so far stands for both.
unfoldable pub add_new : List String → List String → List String
add_new capabilities [] = capabilities
add_new capabilities (capability ∷ rest) =
    add_new
      (if contains capability capabilities then capabilities else capabilities ++ capability ∷ [])
      rest

unfoldable pub collect_capabilities : List String → List String → List String
unfolding add_new caps_of
collect_capabilities capabilities [] = capabilities
collect_capabilities capabilities (behavior ∷ rest) =
    collect_capabilities (add_new capabilities (caps_of behavior)) rest

unfoldable pub resolve_capabilities : RuntimeMode → List String → List String
unfolding collect_capabilities
resolve_capabilities coding allowed_behaviors = collect_capabilities [] allowed_behaviors
resolve_capabilities _ allowed_behaviors =
    filter (λ cap. not (contains cap write_capabilities))
      (collect_capabilities [] allowed_behaviors)

-- An intent that the table does not have gets the defaults of the mode.
resolve_behaviors : ModeRequest → RuntimeMode → String → List String → Result ModeDecision
resolve_behaviors request mode rationale [] = do
  mode_behaviors ← get_behaviors_for_mode (behavior_mode mode)
  let allowed_behaviors = map (λ behavior. behavior.name) mode_behaviors
  ok (record {
    mode = mode;
    allowed_behaviors = allowed_behaviors;
    capabilities = resolve_capabilities mode allowed_behaviors;
    rationale = concat "Unknown intent '" (
        concat request.intent (
          concat "': fell back to "
            (concat (mode_text mode) (concat " mode defaults. " rationale))));
  })
resolve_behaviors request mode rationale intent_behaviors =
    let allowed =
      filter (λ name. validate_mode_behavior (behavior_mode mode) name) intent_behaviors in
    ok (record {
      mode = mode;
      allowed_behaviors = allowed;
      capabilities = resolve_capabilities mode allowed;
      rationale = concat "Intent '" (
          concat request.intent
            (concat "' resolved in " (concat (mode_text mode) (concat " mode. " rationale))));
    })

unfoldable pub resolve_mode : ModeRequest → Result ModeDecision
unfolding resolve_behaviors resolve_mode_of
resolve_mode request =
    let resolved = resolve_mode_of request.intent request.permission request.runtime_policy in
    resolve_behaviors request resolved.0 resolved.1 (get_behaviors_for_intent request.intent)
