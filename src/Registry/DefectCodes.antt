-- ===== src/Registry/DefectCodes.antt =====
-- The codes that `ModuleRegistry.defects` reports (module_registry/store.py).
use lbe_ci_validation.Registry.{
  LifecycleReceipt, LiveModuleRecord, RegistryDefect, RegistryDefectCode,
  contradictory_lifecycle_state, disabled_module_loaded, expected_module_not_loaded,
  invalid_loader_relationship, module_dependency_unregistered, module_instance_conflict,
  module_unregistered, receipt_for_unknown_module, registered_not_loaded,
}
use lbe_ci_validation.Registry.Store.{ModuleRegistry}
use lbe_ci_validation.Registry.Defects.{
  allowed_external_loaders, defects, dependency_defects, is_declared, module_defects, receipt_name,
  record_defects, report, unknown_defect,
}
use lbe_ci_validation.Base.{
  Bool, Dict, List, Option-cases, String, [], any, arith, contains, contains-sorted, eq_iff, false,
  if◌then◌else◌, inl, inr, is_some, keys, length, lookup, ltb, map, none, not, refl, some, true,
  ◌&&◌, ◌++◌, ◌==◌, ◌||◌, ◌∷◌, ◌≡◌,
}

abbrev pub code_name : RegistryDefectCode → String
code_name module_unregistered = "MODULE_UNREGISTERED"
code_name registered_not_loaded = "REGISTERED_NOT_LOADED"
code_name expected_module_not_loaded = "EXPECTED_MODULE_NOT_LOADED"
code_name module_dependency_unregistered = "MODULE_DEPENDENCY_UNREGISTERED"
code_name module_instance_conflict = "MODULE_INSTANCE_CONFLICT"
code_name disabled_module_loaded = "DISABLED_MODULE_LOADED"
code_name receipt_for_unknown_module = "RECEIPT_FOR_UNKNOWN_MODULE"
code_name invalid_loader_relationship = "INVALID_LOADER_RELATIONSHIP"
code_name contradictory_lifecycle_state = "CONTRADICTORY_LIFECYCLE_STATE"

-- Some defect has the code and the module.
unfoldable pub has_defect : RegistryDefectCode → String → List RegistryDefect → Bool
has_defect code id ds = any (λ d. code_name d.code == code_name code && d.module_id == id) ds

-- The condition of a code among those of a record; three codes are not reported for a record.
abbrev pick : RegistryDefectCode → (dep loader dis expected unloaded enabled many : Bool) → Bool
pick module_dependency_unregistered dep loader dis expected unloaded enabled many = dep
pick invalid_loader_relationship dep loader dis expected unloaded enabled many = loader
pick disabled_module_loaded dep loader dis expected unloaded enabled many = dis
pick expected_module_not_loaded dep loader dis expected unloaded enabled many =
    expected && unloaded && enabled
pick registered_not_loaded dep loader dis expected unloaded enabled many =
    not expected && unloaded && enabled
pick module_instance_conflict dep loader dis expected unloaded enabled many = many
pick _ dep loader dis expected unloaded enabled many = false

-- When a code is reported for a record.
abbrev pub is_faulty :
    {W : Type 0} → RegistryDefectCode → ModuleRegistry W → LiveModuleRecord → Bool
is_faulty code g r =
    let d = r.declaration in
    pick code (any (λ id. not (is_declared g id)) d.depends_on)
      (not (contains d.loaded_by allowed_external_loaders) && not (is_declared g d.loaded_by))
      (d.disabled && r.loaded) (contains g.active_profile d.expected_profiles) (not r.loaded)
      (not d.disabled) (d.singleton && ltb 1 (length r.instances))

-- When a code is reported for a module.
abbrev pub is_reported : {W : Type 0} → RegistryDefectCode → String → ModuleRegistry W → Bool
is_reported code id g =
    code_name receipt_for_unknown_module == code_name code
      && any (λ x. x.module_id == id) g.unknown_receipts
    || elim (lookup id g.records) [ none ↦ false | some r ↦ is_faulty code g r ]

has_defect-append :
    (code : RegistryDefectCode) (id : String) (xs ys : List RegistryDefect)
    → has_defect code id (xs ++ ys) ≡ (has_defect code id xs || has_defect code id ys)
unfolding has_defect
has_defect-append code id [] ys = refl
has_defect-append code id (x ∷ xs) ys = ground (arith, has_defect-append code id xs ys)

has_defect-report :
    (code c : RegistryDefectCode) (id k : String) (b blocking : Bool) (evidence : List String)
    → has_defect code id (report b c k blocking evidence)
      ≡ (b && code_name c == code_name code && k == id)
unfolding has_defect report
has_defect-report code c id k true blocking evidence = ground arith
has_defect-report code c id k false blocking evidence = refl

has_defect-dependency_defects :
    {W : Type 0} (g : ModuleRegistry W) (code : RegistryDefectCode) (id k : String)
    (ds : List String)
    → has_defect code id (dependency_defects g k ds) ≡ (
        any (λ d. not (is_declared g d)) ds
        && code_name module_dependency_unregistered == code_name code
        && k == id)
unfolding dependency_defects
has_defect-dependency_defects g code id k [] = unfold has_defect in refl
has_defect-dependency_defects g code id k (d ∷ ds) =
    simp (has_defect-append code id, has_defect-report code)
      (ground (arith, has_defect-dependency_defects g code id k ds))

has_defect-if :
    (code : RegistryDefectCode) (id : String) (b : Bool) (xs ys : List RegistryDefect)
    → has_defect code id (if b then xs else ys)
      ≡ (if b then has_defect code id xs else has_defect code id ys)
has_defect-if code id true xs ys = refl
has_defect-if code id false xs ys = refl

ruleset report_rules =
    (has_defect-append, has_defect-if, has_defect-report, has_defect-dependency_defects)

abbrev same_code : RegistryDefectCode → RegistryDefectCode → Bool
same_code c code = code_name c == code_name code

any_report :
    (code : RegistryDefectCode) (k dep loader dis expected unloaded enabled many : Bool)
    → (dep && same_code module_dependency_unregistered code && k
        || loader && same_code invalid_loader_relationship code && k
        || dis && same_code disabled_module_loaded code && k
        || (if expected && unloaded && enabled
            then true && same_code expected_module_not_loaded code && k
            else unloaded && enabled && same_code registered_not_loaded code && k)
        || many && same_code module_instance_conflict code && k)
      ≡ (k && pick code dep loader dis expected unloaded enabled many)
any_report module_unregistered k dep loader dis expected unloaded enabled many = ground arith
any_report registered_not_loaded k dep loader dis expected unloaded enabled many = ground arith
any_report expected_module_not_loaded k dep loader dis expected unloaded enabled many = ground arith
any_report module_dependency_unregistered k dep loader dis expected unloaded enabled many =
    ground arith
any_report module_instance_conflict k dep loader dis expected unloaded enabled many = ground arith
any_report disabled_module_loaded k dep loader dis expected unloaded enabled many = ground arith
any_report receipt_for_unknown_module k dep loader dis expected unloaded enabled many = ground arith
any_report invalid_loader_relationship k dep loader dis expected unloaded enabled many =
    ground arith
any_report contradictory_lifecycle_state k dep loader dis expected unloaded enabled many =
    ground arith

has_defect-record_defects :
    {W : Type 0} (g : ModuleRegistry W) (code : RegistryDefectCode) (id k : String)
    (r : LiveModuleRecord)
    → has_defect code id (record_defects g k r) ≡ (k == id && is_faulty code g r)
unfolding record_defects
has_defect-record_defects g code id k r = simp report_rules (
    any_report code (k == id) _ _ _ (contains g.active_profile r.declaration.expected_profiles)
      (not r.loaded) (not r.declaration.disabled) _)

has_defect-module_defects :
    {W : Type 0} (g : ModuleRegistry W) (code : RegistryDefectCode) (id : String)
    (ids : List String)
    → has_defect code id (module_defects g ids) ≡ (
        contains id ids
        && elim (lookup id g.records) [ none ↦ false | some r ↦ is_faulty code g r ])
unfolding module_defects
has_defect-module_defects g code id [] = unfold has_defect in refl
has_defect-module_defects g code id (k ∷ ks) = elim (Option-cases (lookup k g.records)) [
  | inl e ↦
      rw (e, module_defects) (ground (arith, eq_iff k id, has_defect-module_defects g code id ks))
  | inr (r, e) ↦
      rw (e, module_defects, has_defect-append code id, has_defect-record_defects g code id k r)
        (ground (arith, eq_iff k id, has_defect-module_defects g code id ks))
]

has_defect-unknown :
    (code : RegistryDefectCode) (id : String) (xs : List LifecycleReceipt)
    → has_defect code id (map (λ x. unknown_defect x (receipt_name x.type ∷ x.timestamp ∷ [])) xs)
      ≡ ("RECEIPT_FOR_UNKNOWN_MODULE" == code_name code && any (λ x. x.module_id == id) xs)
unfolding has_defect
has_defect-unknown code id [] = ground arith
has_defect-unknown code id (x ∷ xs) = ground (arith, has_defect-unknown code id xs)

pub contains-keys :
    {V : Type 0} (k : String) (d : Dict V) → contains k (keys d) ≡ is_some (lookup k d)
unfolding lookup
contains-keys k [] = refl
contains-keys k ((j, v) ∷ d) = ground (arith, contains-keys k d)

-- For every code and every text, `defects` has a defect with the code and with the text as its module
-- exactly in these cases. RECEIPT_FOR_UNKNOWN_MODULE: one of the receipts kept as unknown names the
-- module, be it registered or not. The others need a record of the module.
-- MODULE_DEPENDENCY_UNREGISTERED: one of its dependencies is not declared.
-- INVALID_LOADER_RELATIONSHIP: its loader is neither an external one that is allowed nor declared.
-- DISABLED_MODULE_LOADED: it is disabled and loaded. EXPECTED_MODULE_NOT_LOADED: it is neither disabled
-- nor loaded, and the active profile is among those that expect it. REGISTERED_NOT_LOADED: it is neither
-- disabled nor loaded, and the active profile is not among those. MODULE_INSTANCE_CONFLICT: it is a
-- singleton with more than one instance. MODULE_UNREGISTERED and CONTRADICTORY_LIFECYCLE_STATE: never.
pub defects_exact :
    {W : Type 0} (g : ModuleRegistry W) (code : RegistryDefectCode) (id : String)
    → has_defect code id (defects g) ≡ is_reported code id g
unfolding defects
defects_exact g code id =
    simp
      (
        has_defect-append code id,
        has_defect-unknown code id,
        has_defect-module_defects g code id,
        contains-sorted id,
        contains-keys id,
      )
      (elim (Option-cases (lookup id g.records)) [
        | inl e ↦ rw e (ground arith)
        | inr (r, e) ↦ rw e (ground arith)
      ])
