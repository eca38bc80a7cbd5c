-- ===== src/Behavior/Examples.antt =====
-- The theorems of the behavior tables at concrete inputs.
use lbe_ci_validation.Base.{is_ok, true, ◌≡◌}
use lbe_ci_validation.Behavior.Contracts.{audit, development}
use lbe_ci_validation.Behavior.{get_behavior, get_behaviors_for_mode, validate_mode_behavior}
use lbe_ci_validation.Behavior.Consistency.{
  allowed_by_contract, get_behaviors_for_mode_total, validate-eq-contract,
}

validate-eq-contract_example :
    validate_mode_behavior development "audit_mode_constraints"
    ≡ allowed_by_contract development (get_behavior "audit_mode_constraints")
validate-eq-contract_example = validate-eq-contract development "audit_mode_constraints"

get_behaviors_for_mode_total_example : is_ok (get_behaviors_for_mode audit) ≡ true
get_behaviors_for_mode_total_example = get_behaviors_for_mode_total audit
