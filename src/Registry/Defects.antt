-- ===== src/Registry/Defects.antt =====
-- The queries of the registry (module_registry/store.py): `list` and `defects`.
use lbe_ci_validation.Registry.{
  LifecycleReceipt, LiveModuleRecord, ModuleState, ModuleType, ReceiptType, RegistryDefect,
  RegistryDefectCode, disabled_module_loaded, expected_module_not_loaded,
  invalid_loader_relationship, module_dependency_unregistered, module_instance_conflict,
  receipt_for_unknown_module, registered_not_loaded,
}
use lbe_ci_validation.Registry.Store.{ModuleRegistry}
use lbe_ci_validation.Base.{
  Bool, Dict, List, Option, String, [], contains, false, filter, if◌then◌else◌, is_some, keys,
  length, lookup, ltb, map, none, not, some, sorted, true, ◌&&◌, ◌++◌, ◌==◌, ◌∷◌,
}

-- The enums' values.
abbrev pub state_name : ModuleState → String
state_name ModuleState.registered = "REGISTERED"
state_name ModuleState.not_loaded = "NOT_LOADED"
state_name ModuleState.loaded = "LOADED"
state_name ModuleState.running = "RUNNING"
state_name ModuleState.idle = "IDLE"
state_name ModuleState.blocked = "BLOCKED"
state_name ModuleState.failed = "FAILED"
state_name ModuleState.stopped = "STOPPED"
state_name ModuleState.disabled = "DISABLED"

abbrev pub type_name : ModuleType → String
type_name ModuleType.service = "service"
type_name ModuleType.controller = "controller"
type_name ModuleType.provider = "provider"
type_name ModuleType.adapter = "adapter"
type_name ModuleType.ui = "ui"
type_name ModuleType.registry = "registry"
type_name ModuleType.tool = "tool"
type_name ModuleType.store = "store"

-- The filters of `list`, each of which may be left out.
pub record ListFilter : Type 0 where
  pub state : Option ModuleState
  pub module_type : Option ModuleType
  pub profile : Option String
  pub capability : Option String
  pub loader : Option String
  pub dependency : Option String

-- `x is None or test(x)`
abbrev pub unless_none : {A : Type 0} → Option A → (A → Bool) → Bool
unless_none none test = true
unless_none (some a) test = test a

-- None of the six `continue`s is taken.
abbrev pub passes_filter : ListFilter → LiveModuleRecord → Bool
passes_filter f r =
    unless_none f.state (λ x. state_name x == state_name r.state)
    && unless_none f.module_type (λ x. type_name x == type_name r.declaration.type)
    && unless_none f.profile (λ x. contains x r.declaration.expected_profiles)
    && unless_none f.capability (λ x. contains x r.declaration.provides)
    && unless_none f.loader (λ x. r.declaration.loaded_by == x)
    && unless_none f.dependency (λ x. contains x r.declaration.depends_on)

-- The records of a list of identifiers that are keys.
unfoldable pub records_at : Dict LiveModuleRecord → List String → List LiveModuleRecord
records_at records [] = []
records_at records (id ∷ ids) = elim (lookup id records) [
  | none ↦ records_at records ids
  | some r ↦ r ∷ records_at records ids
]

unfoldable pub list : {W : Type 0} → ListFilter → ModuleRegistry W → List LiveModuleRecord
unfolding records_at
list f g = filter (passes_filter f) (records_at g.records (sorted (keys g.records)))

abbrev pub allowed_external_loaders : List String
allowed_external_loaders = "process.entrypoint" ∷ "external.runtime" ∷ []

abbrev pub is_declared : {W : Type 0} → ModuleRegistry W → String → Bool
is_declared g id = is_some (lookup id g.declarations)

-- `if test: defects.append(RegistryDefect(code, module_id, blocking, evidence))`
unfoldable pub report :
    Bool → RegistryDefectCode → String → Bool → List String → List RegistryDefect
report test code module_id blocking evidence =
    if test
    then record { code = code; module_id = module_id; blocking = blocking; evidence = evidence }
      ∷ []
    else []

unfoldable pub dependency_defects :
    {W : Type 0} → ModuleRegistry W → String → List String → List RegistryDefect
dependency_defects g id [] = []
dependency_defects g id (d ∷ ds) =
    report (not (is_declared g d)) module_dependency_unregistered id true (d ∷ [])
    ++ dependency_defects g id ds

abbrev pub unknown_defect : LifecycleReceipt → List String → RegistryDefect
unknown_defect receipt evidence = record {
  code = receipt_for_unknown_module;
  module_id = receipt.module_id;
  blocking = true;
  evidence = evidence;
}

abbrev pub receipt_name : ReceiptType → String
receipt_name ReceiptType.registered = "registered"
receipt_name ReceiptType.loaded = "loaded"
receipt_name ReceiptType.started = "started"
receipt_name ReceiptType.activity = "activity"
receipt_name ReceiptType.stopped = "stopped"
receipt_name ReceiptType.failed = "failed"

-- The body of the loop of `defects` over the records.
unfoldable pub record_defects :
    {W : Type 0} → ModuleRegistry W → String → LiveModuleRecord → List RegistryDefect
unfolding dependency_defects
record_defects g id r =
    let d = r.declaration in
    let expected = contains g.active_profile d.expected_profiles in
    dependency_defects g id d.depends_on
    ++ report
        (not (contains d.loaded_by allowed_external_loaders) && not (is_declared g d.loaded_by))
        invalid_loader_relationship id true (d.loaded_by ∷ [])
    ++ report (d.disabled && r.loaded) disabled_module_loaded id true (sorted r.instances)
    ++ (if expected && not r.loaded && not d.disabled
        then report true expected_module_not_loaded id true (g.active_profile ∷ [])
        else report (not r.loaded && not d.disabled) registered_not_loaded id false [])
    ++ report (d.singleton && ltb 1 (length r.instances)) module_instance_conflict id true
        (sorted r.instances)

unfoldable pub module_defects : {W : Type 0} → ModuleRegistry W → List String → List RegistryDefect
unfolding record_defects
module_defects g [] = []
module_defects g (id ∷ ids) = elim (lookup id g.records) [
  | none ↦ module_defects g ids
  | some r ↦ record_defects g id r ++ module_defects g ids
]

unfoldable pub defects : {W : Type 0} → ModuleRegistry W → List RegistryDefect
unfolding module_defects
defects g =
    map (λ x. unknown_defect x (receipt_name x.type ∷ x.timestamp ∷ [])) g.unknown_receipts
    ++ module_defects g (sorted (keys g.records))
