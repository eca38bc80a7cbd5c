-- ===== src/Behavior/Consistency.antt =====
-- The tables of behavior/contracts.py agree with one another.
use lbe_ci_validation.Base.{
  Bool, List, Result, String, [], arith, by_keys, err, false, is_ok, ok, refl, true, ◌||◌, ◌∷◌, ◌≡◌,
}
use lbe_ci_validation.Behavior.Contracts.{BehaviorContract, Mode, audit, development}
use lbe_ci_validation.Behavior.{get_behavior, get_behaviors_for_mode, validate_mode_behavior}

abbrev same_mode : Mode → Mode → Bool
same_mode audit audit = true
same_mode development development = true
same_mode _ _ = false

abbrev lists_mode : Mode → List Mode → Bool
lists_mode mode [] = false
lists_mode mode (m ∷ modes) = same_mode mode m || lists_mode mode modes

-- What a contract itself says of a mode.
abbrev pub allowed_by_contract : Mode → Result BehaviorContract → Bool
allowed_by_contract mode (ok contract) = lists_mode mode contract.modes
allowed_by_contract mode (err e) = false

-- The names of the table.
abbrev names : List String
names =
    "require_current_workspace_evidence" ∷ "validation_before_acceptance"
    ∷ "evidence_boundary_enforcement" ∷ "audit_mode_constraints" ∷ "development_mode_capabilities"
    ∷ "finding_review_required" ∷ "memory_is_historical_context" ∷ "use_only_approved_guards"
    ∷ "proposed_rules_require_validation" ∷ []

abbrev Agree : Mode → String → Type 0
Agree mode name = validate_mode_behavior mode name ≡ allowed_by_contract mode (get_behavior name)

-- For every name, known or not, the mode table admits a behavior in a mode exactly when the
-- contract of that name exists and lists the mode.
pub validate-eq-contract :
    (mode : Mode) (name : String)
    → validate_mode_behavior mode name ≡ allowed_by_contract mode (get_behavior name)
unfolding validate_mode_behavior get_behavior
validate-eq-contract audit =
    by_keys (Agree audit) names
      (refl, (refl, (refl, (refl, (refl, (refl, (refl, (refl, (refl, tt)))))))))
      (λ name h. ground arith)
validate-eq-contract development =
    by_keys (Agree development) names
      (refl, (refl, (refl, (refl, (refl, (refl, (refl, (refl, (refl, tt)))))))))
      (λ name h. ground arith)

-- No lookup of the mode table raises.
pub get_behaviors_for_mode_total : (mode : Mode) → is_ok (get_behaviors_for_mode mode) ≡ true
unfolding get_behaviors_for_mode
get_behaviors_for_mode_total audit = refl
get_behaviors_for_mode_total development = refl
