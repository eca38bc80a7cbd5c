-- ===== src/Behavior.antt =====
-- behavior/contracts.py: the public behavior vocabulary and its query functions.
pub mod Contracts
pub mod Consistency
mod Examples
use Contracts.{BehaviorContract, Mode, behavior_contracts, intent_behavior_map, mode_behavior_map}
use lbe_ci_validation.Base.{
  Bool, List, Option, Result, String, [], concat, contains, err, key_error, lookup, map, none, ok,
  some, traverse,
}

-- The text of the `KeyError` goes on with the names that are available.
unfoldable pub get_behavior : String → Result BehaviorContract
unfolding behavior_contracts lookup
get_behavior name = elim (lookup name behavior_contracts) [
  | none ↦ err (key_error (concat "Unknown behavior: " name))
  | some contract ↦ ok contract
]

-- `BEHAVIOR_CONTRACTS[name] for name in names`: a name that is missing raises.
unfoldable pub get_behaviors_for_mode : Mode → Result (List BehaviorContract)
unfolding get_behavior mode_behavior_map
get_behaviors_for_mode mode = traverse get_behavior (mode_behavior_map mode)

unfoldable pub get_all_behaviors : List BehaviorContract
unfolding behavior_contracts
get_all_behaviors = map (λ entry. entry.1) behavior_contracts

unfoldable pub validate_mode_behavior : Mode → String → Bool
unfolding mode_behavior_map
validate_mode_behavior mode behavior_name = contains behavior_name (mode_behavior_map mode)

-- `INTENT_BEHAVIOR_MAP.get(intent, ())`
or_empty : Option (List String) → List String
or_empty none = []
or_empty (some names) = names

unfoldable pub get_behaviors_for_intent : String → List String
unfolding or_empty intent_behavior_map lookup
get_behaviors_for_intent intent = or_empty (lookup intent intent_behavior_map)
