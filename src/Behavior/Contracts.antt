-- ===== src/Behavior/Contracts.antt =====
-- The tables of behavior/contracts.py: the contracts, and the behaviors of each mode and intent. The
-- prose field `description`, which no code reads, is left out.
use lbe_ci_validation.Base.{Dict, List, String, [], ◌∷◌}

pub data Mode : Type 0 where
  audit development : Mode

pub data EvidenceType : Type 0 where
  workspace validation reference : EvidenceType

pub record BehaviorContract : Type 0 where
  pub name : String
  pub modes : List Mode
  pub requires_evidence : List EvidenceType
  pub allowed_actions : List String
  pub forbidden_actions : List String
  pub authority : String

abbrev require_current_workspace_evidence : BehaviorContract
require_current_workspace_evidence = record {
  name = "require_current_workspace_evidence";
  modes = audit ∷ development ∷ [];
  requires_evidence = workspace ∷ validation ∷ [];
  allowed_actions = "inspect" ∷ "search" ∷ "compare" ∷ "verify" ∷ [];
  forbidden_actions =
      "assume_from_history" ∷ "assume_from_reference" ∷ "assume_from_index"
      ∷ "extrapolate_from_past" ∷ [];
  authority = "deterministic_guards";
}

abbrev validation_before_acceptance : BehaviorContract
validation_before_acceptance = record {
  name = "validation_before_acceptance";
  modes = audit ∷ development ∷ [];
  requires_evidence = validation ∷ [];
  allowed_actions = "validate" ∷ "verify" ∷ "corroborate" ∷ "cross_check" ∷ [];
  forbidden_actions =
      "accept_unvalidated" ∷ "skip_validation" ∷ "self_validate" ∷ "assume_correctness" ∷ [];
  authority = "independent_verification";
}

abbrev evidence_boundary_enforcement : BehaviorContract
evidence_boundary_enforcement = record {
  name = "evidence_boundary_enforcement";
  modes = audit ∷ development ∷ [];
  requires_evidence = reference ∷ workspace ∷ validation ∷ [];
  allowed_actions =
      "reference_inform" ∷ "workspace_prove" ∷ "guard_detect" ∷ "validation_confirm" ∷ [];
  forbidden_actions =
      "reference_prove" ∷ "assume_guard_result" ∷ "skip_validation" ∷ "collapse_layers" ∷ [];
  authority = "layered_evidence";
}

abbrev audit_mode_constraints : BehaviorContract
audit_mode_constraints = record {
  name = "audit_mode_constraints";
  modes = audit ∷ [];
  requires_evidence = workspace ∷ validation ∷ reference ∷ [];
  allowed_actions =
      "inspect" ∷ "collect_evidence" ∷ "run_existing_guards" ∷ "report_findings"
      ∷ "register_finding" ∷ [];
  forbidden_actions =
      "modify" ∷ "propose_rules" ∷ "promote_memory" ∷ "execute_changes" ∷ "create_guards"
      ∷ "bypass_guards" ∷ [];
  authority = "existing_guards_only";
}

abbrev development_mode_capabilities : BehaviorContract
development_mode_capabilities = record {
  name = "development_mode_capabilities";
  modes = development ∷ [];
  requires_evidence = workspace ∷ validation ∷ reference ∷ [];
  allowed_actions =
      "discover" ∷ "propose" ∷ "test_candidate" ∷ "validate_proposal" ∷ "promote_after_validation"
      ∷ [];
  forbidden_actions =
      "bypass_validation" ∷ "assume_correctness" ∷ "skip_evidence" ∷ "promote_without_proof" ∷ [];
  authority = "proposed_rules_require_validation";
}

abbrev finding_review_required : BehaviorContract
finding_review_required = record {
  name = "finding_review_required";
  modes = audit ∷ development ∷ [];
  requires_evidence = workspace ∷ validation ∷ [];
  allowed_actions =
      "record_finding" ∷ "request_review" ∷ "verify_against_current" ∷ "categorize_finding" ∷ [];
  forbidden_actions =
      "auto_promote_finding" ∷ "create_guard_from_finding" ∷ "assume_finding_is_truth"
      ∷ "skip_review" ∷ [];
  authority = "review_register";
}

abbrev memory_is_historical_context : BehaviorContract
memory_is_historical_context = record {
  name = "memory_is_historical_context";
  modes = audit ∷ development ∷ [];
  requires_evidence = workspace ∷ validation ∷ [];
  allowed_actions = "read_memory" ∷ "use_as_context" ∷ "correlate_with_current" ∷ [];
  forbidden_actions =
      "treat_memory_as_truth" ∷ "override_workspace_with_memory" ∷ "promote_without_validation"
      ∷ [];
  authority = "live_workspace_authoritative";
}

abbrev use_only_approved_guards : BehaviorContract
use_only_approved_guards = record {
  name = "use_only_approved_guards";
  modes = audit ∷ development ∷ [];
  requires_evidence = workspace ∷ validation ∷ [];
  allowed_actions =
      "list_approved_guards" ∷ "execute_approved_guard" ∷ "request_guard_execution" ∷ [];
  forbidden_actions =
      "invent_guard" ∷ "select_unapproved_guard" ∷ "bypass_catalog" ∷ "modify_guard_behavior" ∷ [];
  authority = "approved_catalog_only";
}

abbrev proposed_rules_require_validation : BehaviorContract
proposed_rules_require_validation = record {
  name = "proposed_rules_require_validation";
  modes = development ∷ [];
  requires_evidence = workspace ∷ validation ∷ [];
  allowed_actions =
      "propose_rule" ∷ "test_proposal" ∷ "validate_proposal" ∷ "submit_for_approval" ∷ [];
  forbidden_actions =
      "auto_approve_proposal" ∷ "skip_proposal_validation" ∷ "promote_unvalidated_rule" ∷ [];
  authority = "validation_gate";
}

unfoldable pub behavior_contracts : Dict BehaviorContract
behavior_contracts =
    ("require_current_workspace_evidence", require_current_workspace_evidence)
    ∷ ("validation_before_acceptance", validation_before_acceptance)
    ∷ ("evidence_boundary_enforcement", evidence_boundary_enforcement)
    ∷ ("audit_mode_constraints", audit_mode_constraints)
    ∷ ("development_mode_capabilities", development_mode_capabilities)
    ∷ ("finding_review_required", finding_review_required)
    ∷ ("memory_is_historical_context", memory_is_historical_context)
    ∷ ("use_only_approved_guards", use_only_approved_guards)
    ∷ ("proposed_rules_require_validation", proposed_rules_require_validation)
    ∷ []

unfoldable pub mode_behavior_map : Mode → List String
mode_behavior_map audit =
    "require_current_workspace_evidence" ∷ "validation_before_acceptance"
    ∷ "evidence_boundary_enforcement" ∷ "audit_mode_constraints" ∷ "finding_review_required"
    ∷ "memory_is_historical_context" ∷ "use_only_approved_guards" ∷ []
mode_behavior_map development =
    "require_current_workspace_evidence" ∷ "validation_before_acceptance"
    ∷ "evidence_boundary_enforcement" ∷ "development_mode_capabilities" ∷ "finding_review_required"
    ∷ "memory_is_historical_context" ∷ "use_only_approved_guards"
    ∷ "proposed_rules_require_validation" ∷ []

unfoldable pub intent_behavior_map : Dict (List String)
intent_behavior_map =
    (
      "inspect_workspace",
      "require_current_workspace_evidence" ∷ "evidence_boundary_enforcement"
          ∷ "use_only_approved_guards" ∷ [],
    )
    ∷ (
      "verify_compliance",
      "require_current_workspace_evidence" ∷ "validation_before_acceptance"
          ∷ "use_only_approved_guards" ∷ [],
    )
    ∷ (
      "audit_workspace",
      "require_current_workspace_evidence" ∷ "evidence_boundary_enforcement"
          ∷ "audit_mode_constraints" ∷ "finding_review_required" ∷ "use_only_approved_guards" ∷ [],
    )
    ∷ (
      "check_finding",
      "finding_review_required" ∷ "require_current_workspace_evidence"
          ∷ "validation_before_acceptance" ∷ [],
    )
    ∷ ("review_memory", "memory_is_historical_context" ∷ "require_current_workspace_evidence" ∷ [])
    ∷ (
      "fix_issue",
      "development_mode_capabilities" ∷ "require_current_workspace_evidence"
          ∷ "validation_before_acceptance" ∷ "proposed_rules_require_validation" ∷ [],
    )
    ∷ (
      "propose_rule",
      "proposed_rules_require_validation" ∷ "development_mode_capabilities"
          ∷ "validation_before_acceptance" ∷ [],
    )
    ∷ (
      "discover_patterns",
      "development_mode_capabilities" ∷ "require_current_workspace_evidence"
          ∷ "evidence_boundary_enforcement" ∷ [],
    )
    ∷ (
      "test_candidate",
      "development_mode_capabilities" ∷ "validation_before_acceptance"
          ∷ "require_current_workspace_evidence" ∷ [],
    )
    ∷ []
