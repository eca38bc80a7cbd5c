-- ===== src/Registry/Inspection.antt =====
-- `RegistryFirstInspector` of registry_inspection.py: what it reports of a module, and when it reads
-- the module's source. The source inspector is a function that may raise.
use lbe_ci_validation.Registry.{
  LiveModuleRecord, ModuleActivity, ModuleDeclaration, RegistryDefect, clean,
}
use lbe_ci_validation.Registry.Watcher.{ModuleWatcher}
use lbe_ci_validation.Registry.Store.{ModuleRegistry}
use lbe_ci_validation.Registry.Defects.{
  ListFilter, defects, list, receipt_name, state_name, type_name,
}
use lbe_ci_validation.Registry.DefectCodes.{code_name}
use lbe_ci_validation.Base.{
  Bool, Dict, List, Option, Result, String, [], any, contains, filter, if◌then◌else◌, insert,
  is_empty, is_some, lookup, map, none, not, ok, some, sorted, ℕ, ◌&&◌, ◌++◌, ◌==◌, ◌>>=◌, ◌∷◌,
}

pub data InspectionEvidenceSource : Type 0 where
  registry_evidence watcher_evidence source_evidence : InspectionEvidenceSource

pub data SourceInspectionReason : Type 0 where
  module_unregistered registry_contradictory registry_incomplete : SourceInspectionReason
  ownership_sensitive exact_implementation_required : SourceInspectionReason

pub record SourceEvidence : Type 0 where
  pub path : String
  pub is_present : Bool
  pub excerpt : String
  pub detail : String

-- The dicts of an inspection.
pub record DeclarationView : Type 0 where
  pub id : String
  pub path : String
  pub type : String
  pub purpose : String
  pub provides : List String
  pub depends_on : List String
  pub loaded_by : String
  pub expected_profiles : List String

pub record RuntimeView : Type 0 where
  pub state : String
  pub loaded : Bool
  pub running : Bool
  pub healthy : Bool
  pub instances : List String
  pub current_activity : Option ModuleActivity
  pub updated_at : Option String

pub record EventView : Type 0 where
  pub sequence : ℕ
  pub event_type : String
  pub module_id : String

pub record DefectView : Type 0 where
  pub code : String
  pub blocking : Bool
  pub evidence : List String

pub record ModuleInspection : Type 0 where
  pub module_id : String
  pub registered : Bool
  pub declaration : Option DeclarationView
  pub runtime : Option RuntimeView
  pub lifecycle : List EventView
  pub defects : List DefectView
  pub missing_evidence : List String
  pub source_inspection_reason : Option SourceInspectionReason
  pub evidence : Option SourceEvidence
  pub evidence_sources : List InspectionEvidenceSource

abbrev pub view_declaration : ModuleDeclaration → DeclarationView
view_declaration d = record {
  id = d.id;
  path = d.path;
  type = type_name d.type;
  purpose = d.purpose;
  provides = d.provides;
  depends_on = d.depends_on;
  loaded_by = d.loaded_by;
  expected_profiles = d.expected_profiles;
}

abbrev pub view_runtime : LiveModuleRecord → RuntimeView
view_runtime r = record {
  state = state_name r.state;
  loaded = r.loaded;
  running = r.running;
  healthy = r.healthy;
  instances = sorted r.instances;
  current_activity = r.current_activity;
  updated_at = r.updated_at;
}

abbrev pub no_filter : ListFilter
no_filter = record {
  state = none;
  module_type = none;
  profile = none;
  capability = none;
  loader = none;
  dependency = none;
}

-- `{record.declaration.id: record for record in records}`, after `known`.
unfoldable pub index_records : Dict LiveModuleRecord → List LiveModuleRecord → Dict LiveModuleRecord
index_records known [] = known
index_records known (r ∷ rs) = index_records (insert r.declaration.id r known) rs

unfoldable pub lifecycle_of : {W : Type 0} → String → ModuleWatcher W → List EventView
lifecycle_of id watcher =
    map
      (λ e. record {
        sequence = e.sequence;
        event_type = receipt_name e.event_type;
        module_id = e.module_id;
      })
      (filter (λ e. e.module_id == id && not (receipt_name e.event_type == "registered"))
        watcher.history)

unfoldable pub defects_of : String → List RegistryDefect → List DefectView
defects_of id ds =
    map (λ d. record { code = code_name d.code; blocking = d.blocking; evidence = d.evidence })
      (filter (λ d. d.module_id == id) ds)

-- `_source_reason`
unfoldable pub source_reason :
    Bool → List DefectView → List String → Bool → Bool → Option SourceInspectionReason
source_reason is_known found missing sensitive exact =
    if not is_known
    then some SourceInspectionReason.module_unregistered
    else if any
        (λ d. contains d.code ("CONTRADICTORY_LIFECYCLE_STATE" ∷ "RECEIPT_FOR_UNKNOWN_MODULE" ∷ []))
        found
    then some registry_contradictory
    else if not (is_empty missing)
    then some registry_incomplete
    else if sensitive
    then some ownership_sensitive
    else if exact
    then some exact_implementation_required
    else none

unfoldable pub missing_of : Option LiveModuleRecord → List EventView → List String
missing_of none lifecycle = "module declaration" ∷ "runtime record" ∷ []
missing_of (some r) lifecycle = if is_empty lifecycle then "lifecycle receipts" ∷ [] else []

-- The evidence from the source, and what is missing without an inspector. No text is missing twice,
-- so that `dict.fromkeys` changes nothing.
unfoldable pub read_source :
    Option SourceInspectionReason
    → Option (Option String → String → Result SourceEvidence)
    → Option String
    → String
    → Result (Option SourceEvidence × List String)
read_source none inspector path id = ok (none, [])
read_source (some reason) none path id = ok (none, "bounded source inspector" ∷ [])
read_source (some reason) (some inspector) path id = do
  found ← inspector path id
  ok (some found, [])

module _ {W : Type 0} (g : ModuleRegistry W) (watcher : ModuleWatcher W)
    (inspector : Option (Option String → String → Result SourceEvidence)) where
  unfoldable pub inspect : String → Bool → Bool → Result ModuleInspection
  inspect module_id sensitive exact = do
    id ← clean module_id "module_id"
    let r = lookup id (index_records [] (list no_filter g))
    let lifecycle = lifecycle_of id watcher
    let found = defects_of id (defects g)
    let missing = missing_of r lifecycle
    let reason = source_reason (is_some r) found missing sensitive exact
    let path : Option String = elim r [ none ↦ none | some x ↦ some x.declaration.path ]
    read ← read_source reason inspector path id
    ok (record {
      module_id = id;
      registered = is_some r;
      declaration = elim r [ none ↦ none | some x ↦ some (view_declaration x.declaration) ];
      runtime = elim r [ none ↦ none | some x ↦ some (view_runtime x) ];
      lifecycle = lifecycle;
      defects = found;
      missing_evidence = missing ++ read.1;
      source_inspection_reason = reason;
      evidence = read.0;
      evidence_sources =
          registry_evidence
          ∷ watcher_evidence
          ∷ (if is_some reason then source_evidence ∷ [] else []);
    })
