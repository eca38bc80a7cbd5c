-- ===== src/Registry/InspectionReason.antt =====
-- When `RegistryFirstInspector.inspect` (registry_inspection.py) asks for the source of a module.
use lbe_ci_validation.Registry.{
  LiveModuleRecord, RegistryDefect, RegistryDefectCode, clean, contradictory_lifecycle_state,
  receipt_for_unknown_module,
}
use lbe_ci_validation.Registry.Watcher.{ModuleWatcher}
use lbe_ci_validation.Registry.Store.{ModuleRegistry, State}
use lbe_ci_validation.Registry.Lifecycle.{IsWellFormed}
use lbe_ci_validation.Registry.Defects.{defects, list, passes_filter, records_at}
use lbe_ci_validation.Registry.DefectCodes.{
  code_name, contains-keys, defects_exact, has_defect, is_reported,
}
use lbe_ci_validation.Registry.Inspection.{
  ModuleInspection, SourceEvidence, SourceInspectionReason, defects_of,
  exact_implementation_required, index_records, inspect, lifecycle_of, missing_of, no_filter,
  ownership_sensitive, registry_contradictory, registry_incomplete, source_reason,
}
use lbe_ci_validation.Base.{
  Bool, Bool-cases, Dict, List, Option, Option-cases, Result, String, [], any, arith, contains,
  contains-sorted, eq_iff, filter, if◌then◌else◌, inl, inr, insert, is_empty, is_some, keys, lookup,
  lookup-insert, none, not, ok, refl, some, sorted, strip, true, ◌&&◌, ◌==◌, ◌||◌, ◌∙◌, ◌∷◌, ◌≡◌,
}

-- The reason, from the state of the registry and the watcher's history.
abbrev pub reason_for :
    {W : Type 0}
    → String
    → ModuleRegistry W
    → ModuleWatcher W
    → Bool
    → Bool
    → Option SourceInspectionReason
reason_for id g watcher sensitive exact =
    if not (is_some (lookup id g.records))
    then some SourceInspectionReason.module_unregistered
    else if any (λ x. x.module_id == id) g.unknown_receipts
    then some registry_contradictory
    else if is_empty (lifecycle_of id watcher)
    then some registry_incomplete
    else if sensitive
    then some ownership_sensitive
    else if exact
    then some exact_implementation_required
    else none

filter_all :
    (p : LiveModuleRecord → Bool) (rs : List LiveModuleRecord)
    → ((r : LiveModuleRecord) → p r ≡ true)
    → filter p rs ≡ rs
filter_all p [] h = refl
filter_all p (r ∷ rs) h = ground (arith, h r, filter_all p rs h)

lookup-index_records :
    {W : Type 0} (s : State W) (id : String) (ids : List String) (known : Dict LiveModuleRecord)
    → IsWellFormed s
    → lookup id (index_records known (records_at s.0.records ids)) ≡ (
        if contains id ids && is_some (lookup id s.0.records)
        then lookup id s.0.records
        else lookup id known)
unfolding records_at index_records
lookup-index_records s id [] known v = refl
lookup-index_records s id (k ∷ ks) known v = elim (Option-cases (lookup k s.0.records)) [
  | inl e ↦
      rw (e, records_at) (ground (arith, e, eq_iff k id, lookup-index_records s id ks known v))
  | inr (r, e) ↦
      rw (e, records_at)
        (ground (
          arith,
          e,
          eq_iff k id,
          (v.declared k r e).1,
          lookup-insert r.declaration.id id r known,
          lookup-index_records s id ks (insert r.declaration.id r known) v,
        ))
]

lookup-list :
    {W : Type 0} (s : State W) (id : String)
    → IsWellFormed s
    → lookup id (index_records [] (list no_filter s.0)) ≡ lookup id s.0.records
unfolding list
lookup-list s id v =
    rw
      (
        filter_all (passes_filter no_filter) (records_at s.0.records (sorted (keys s.0.records)))
            (λ r. refl),
        lookup-index_records s id (sorted (keys s.0.records)) [] v,
        contains-sorted id,
        contains-keys id,
      )
      (elim (Option-cases (lookup id s.0.records)) [
        | inl e ↦ rw e (unfold lookup in refl)
        | inr (r, e) ↦ rw e refl
      ])

-- The two codes that `_source_reason` tests for.
abbrev contradictory_codes : List String
contradictory_codes = "CONTRADICTORY_LIFECYCLE_STATE" ∷ "RECEIPT_FOR_UNKNOWN_MODULE" ∷ []

is_contradictory :
    (c : RegistryDefectCode)
    → contains (code_name c) contradictory_codes ≡ (
        code_name c == code_name contradictory_lifecycle_state
        || code_name c == code_name receipt_for_unknown_module)
is_contradictory RegistryDefectCode.module_unregistered = refl
is_contradictory RegistryDefectCode.registered_not_loaded = refl
is_contradictory RegistryDefectCode.expected_module_not_loaded = refl
is_contradictory RegistryDefectCode.module_dependency_unregistered = refl
is_contradictory RegistryDefectCode.module_instance_conflict = refl
is_contradictory RegistryDefectCode.disabled_module_loaded = refl
is_contradictory RegistryDefectCode.receipt_for_unknown_module = refl
is_contradictory RegistryDefectCode.invalid_loader_relationship = refl
is_contradictory RegistryDefectCode.contradictory_lifecycle_state = refl

any-defects_of :
    (id : String) (ds : List RegistryDefect)
    → any
        (λ d. contains d.code ("CONTRADICTORY_LIFECYCLE_STATE" ∷ "RECEIPT_FOR_UNKNOWN_MODULE" ∷ []))
        (defects_of id ds)
      ≡ (has_defect contradictory_lifecycle_state id ds
          || has_defect receipt_for_unknown_module id ds)
unfolding defects_of has_defect
any-defects_of id [] = refl
any-defects_of id (d ∷ ds) = elim (Bool-cases (d.module_id == id)) [
  | inl e ↦ rw e (ground (arith, e, is_contradictory d.code, any-defects_of id ds))
  | inr e ↦ rw e (ground (arith, e, any-defects_of id ds))
]

is_reported_contradictory :
    {W : Type 0} (g : ModuleRegistry W) (id : String)
    → (is_reported contradictory_lifecycle_state id g
        || is_reported receipt_for_unknown_module id g)
      ≡ any (λ x. x.module_id == id) g.unknown_receipts
is_reported_contradictory g id = elim (Option-cases (lookup id g.records)) [
  | inl e ↦ rw e (ground (arith, e))
  | inr (r, e) ↦ rw e (ground (arith, e))
]

-- What the code computes, without the rest of the report.
inspect-reason :
    {W : Type 0} (g : ModuleRegistry W) (watcher : ModuleWatcher W)
    (inspector : Option (Option String → String → Result SourceEvidence)) (module_id : String)
    (sensitive exact : Bool) (out : ModuleInspection)
    → inspect g watcher inspector module_id sensitive exact ≡ ok out
    → let id = strip module_id in
      let r = lookup id (index_records [] (list no_filter g)) in
      out.source_inspection_reason
      ≡ source_reason
          (is_some r)
          (defects_of id (defects g))
          (missing_of r (lifecycle_of id watcher))
          sensitive
          exact
unfolding inspect clean
inspect-reason g watcher inspector module_id sensitive exact out h = ground (arith, h)

computed_reason :
    {W : Type 0} (g : ModuleRegistry W) (watcher : ModuleWatcher W) (id : String)
    (sensitive exact : Bool)
    → source_reason
        (is_some (lookup id g.records))
        (defects_of id (defects g))
        (missing_of (lookup id g.records) (lifecycle_of id watcher))
        sensitive
        exact
      ≡ reason_for id g watcher sensitive exact
unfolding source_reason missing_of
computed_reason g watcher id sensitive exact =
    rw
      (
        any-defects_of id (defects g),
        defects_exact g contradictory_lifecycle_state id,
        defects_exact g receipt_for_unknown_module id,
        is_reported_contradictory g id,
      )
      (elim (Option-cases (lookup id g.records)) [
        | inl e ↦ rw e refl
        | inr (r, e) ↦ rw e (ground arith)
      ])

-- In a well-formed registry, an inspection that returns gives as its reason to read the source, in
-- this order: the module has no record; a receipt of its identifier was kept as unknown; the watcher
-- remembers no lifecycle event of it; the caller asks for it; and none otherwise.
pub inspect_reason :
    {W : Type 0} (s : State W) (watcher : ModuleWatcher W)
    (inspector : Option (Option String → String → Result SourceEvidence)) (module_id : String)
    (sensitive exact : Bool) (out : ModuleInspection)
    → IsWellFormed s
    → inspect s.0 watcher inspector module_id sensitive exact ≡ ok out
    → out.source_inspection_reason ≡ reason_for (strip module_id) s.0 watcher sensitive exact
inspect_reason s watcher inspector module_id sensitive exact out v h =
    inspect-reason s.0 watcher inspector module_id sensitive exact out h
    ∙ rw (lookup-list s (strip module_id) v)
        (computed_reason s.0 watcher (strip module_id) sensitive exact)
