-- ===== src/Registry/Examples.antt =====
-- The theorems of the module registry at concrete inputs: a clock that counts, and no watcher.
use lbe_ci_validation.Registry.{
  LifecycleReceipt, LiveModuleRecord, ModuleDeclaration, clean, loaded, make_receipt,
  module_dependency_unregistered, service, started,
}
use lbe_ci_validation.Registry.Store.{ModuleRegistry, State, blank_receipt}
use lbe_ci_validation.Registry.Methods.{new_record, on_loaded, register}
use lbe_ci_validation.Registry.Invariant.{IsCoherent}
use lbe_ci_validation.Registry.Lifecycle.{IsWellFormed}
use lbe_ci_validation.Registry.Traces.{
  Call, call_activity, call_failed, call_idle, call_loaded, call_register, call_started, run_calls,
  run_calls-IsWellFormed,
}
use lbe_ci_validation.Registry.Defects.{defects, list, record_defects, report}
use lbe_ci_validation.Registry.DefectCodes.{defects_exact, has_defect}
use lbe_ci_validation.Registry.Inspection.{
  ModuleInspection, defects_of, index_records, inspect, lifecycle_of, missing_of, read_source,
  registry_incomplete, source_reason,
}
use lbe_ci_validation.Registry.InspectionReason.{inspect_reason}
use lbe_ci_validation.Base.{
  List, Result, String, [], arith, err, false, insert, lookup, none, ok, refl, some, sorted, strip,
  true, ℕ, ◌+◌, ◌∷◌, ◌≡◌,
}
use lbe_ci_validation.Registry.Watcher.{ModuleWatcher}

abbrev tick : ℕ → String × ℕ
tick n = ("2026-07-20T10:00:00Z", n + 1)

abbrev worker : ModuleDeclaration
worker = record {
  id = "worker";
  path = "worker.py";
  type = service;
  purpose = "Runs jobs.";
  provides = "jobs" ∷ [];
  depends_on = "queue" ∷ [];
  loaded_by = "process.entrypoint";
  expected_profiles = "production" ∷ [];
  singleton = true;
  disabled = false;
}

abbrev empty_registry : ModuleRegistry ℕ
empty_registry = record {
  active_profile = "production";
  activity_limit = 2;
  watcher = none;
  declarations = [];
  records = [];
  unknown_receipts = [];
}

new-IsWellFormed : IsWellFormed {W = ℕ} (empty_registry, 0)
unfolding lookup
new-IsWellFormed = record { coherent = λ id r h. ground arith; declared = λ id r h. ground arith }

-- A start that comes too early, then a life up to a failure.
abbrev life : List Call
life =
    call_register worker
    ∷ call_started "worker"
    ∷ call_loaded "worker" "worker-1"
    ∷ call_started " worker"
    ∷ call_activity "worker" "work" "job 1"
    ∷ call_idle "worker"
    ∷ call_failed "worker" "E1" "broken"
    ∷ []

run_calls-IsWellFormed_example : IsWellFormed (run_calls tick life (empty_registry, 0))
run_calls-IsWellFormed_example =
    run_calls-IsWellFormed tick life (empty_registry, 0) new-IsWellFormed

abbrev start_receipt : LifecycleReceipt
start_receipt = blank_receipt "worker" started "2026-07-20T10:00:00Z"

abbrev loaded_worker : LiveModuleRecord
loaded_worker = record (new_record worker "2026-07-20T10:00:00Z") {
  instances = "worker-1" ∷ [];
  loaded = true;
  state = loaded;
  loaded_at = some "2026-07-20T10:00:00Z";
}

loaded_worker-IsCoherent : IsCoherent 2 loaded_worker
unfolding new_record
loaded_worker-IsCoherent = ground arith

-- After a registration and a load.
abbrev served : State ℕ
unfolding run_calls
served =
    run_calls tick (call_register worker ∷ call_loaded "worker" "worker-1" ∷ []) (empty_registry, 0)

served-IsWellFormed : IsWellFormed served
unfolding served
served-IsWellFormed =
    run_calls-IsWellFormed tick (call_register worker ∷ call_loaded "worker" "worker-1" ∷ [])
      (empty_registry, 0) new-IsWellFormed

defects_exact_example : has_defect module_dependency_unregistered "worker" (defects served.0) ≡ true
unfolding lookup new_record served on_loaded make_receipt strip register insert
defects_exact_example = defects_exact served.0 module_dependency_unregistered "worker"

abbrev silent_watcher : ModuleWatcher ℕ
silent_watcher = record {
  history_limit = 10;
  failure_limit = 10;
  subscriptions = [];
  history = [];
  failures = [];
  sequence = 0;
}

abbrev report_of : Result ModuleInspection → ModuleInspection
report_of (ok out) = out
report_of (err e) = record {
  module_id = "";
  registered = false;
  declaration = none;
  runtime = none;
  lifecycle = [];
  defects = [];
  missing_evidence = [];
  source_inspection_reason = none;
  evidence = none;
  evidence_sources = [];
}

abbrev inspected : ModuleInspection
unfolding inspect
inspected = report_of (inspect served.0 silent_watcher none " worker" true false)

inspect_reason_example : inspected.source_inspection_reason ≡ some registry_incomplete
unfolding inspect clean strip read_source source_reason lookup index_records list sorted served
    on_loaded make_receipt register insert defects_of defects report record_defects lifecycle_of
    missing_of new_record inspected
inspect_reason_example =
    inspect_reason served silent_watcher none " worker" true false inspected served-IsWellFormed
      refl
