-- ===== src/Registry/Layer.antt =====
-- `ModuleRegistry.register_registry_layer` (module_registry/store.py): the registry and its watcher,
-- registered and loaded as modules themselves.
use lbe_ci_validation.Registry.{LiveModuleRecord, ModuleDeclaration, ModuleType, make_declaration}
use lbe_ci_validation.Registry.Store.{State}
use lbe_ci_validation.Registry.Methods.{on_loaded, register}
use lbe_ci_validation.Base.Exec.{Exec, gets, lift, pure, ◌>>=◌, ◌>>◌}
use lbe_ci_validation.Base.{
  Bool, Option, Result, String, [], err, false, if◌then◌else◌, is_some, key_error, lookup, none,
  not, ok, some, true, ◌∷◌,
}

abbrev registry_declaration : String → ModuleDeclaration
registry_declaration profile = record {
  id = "module.registry";
  path = "lbe_guard_inspector/module_registry/store.py";
  type = ModuleType.registry;
  purpose = "Stores module declarations and derives live runtime state.";
  provides = "module.register" ∷ "module.lifecycle" ∷ "module.query" ∷ [];
  depends_on = [];
  loaded_by = "process.entrypoint";
  expected_profiles = profile ∷ [];
  singleton = true;
  disabled = false;
}

abbrev watcher_declaration : String → ModuleDeclaration
watcher_declaration profile = record {
  id = "module.watcher";
  path = "lbe_guard_inspector/module_registry/watcher.py";
  type = ModuleType.service;
  purpose = "Publishes immutable module lifecycle events to isolated subscribers.";
  provides = "module.watch" ∷ "module.event-history" ∷ [];
  depends_on = "module.registry" ∷ [];
  loaded_by = "module.registry";
  expected_profiles = profile ∷ [];
  singleton = true;
  disabled = false;
}

-- `get`
abbrev pub or_key_error : String → Option LiveModuleRecord → Result LiveModuleRecord
or_key_error id none = err (key_error id)
or_key_error id (some r) = ok r

module _ {W : Type 0} (clock : W → String × W) where
  unfoldable pub register_unless_known : ModuleDeclaration → Exec (State W) (Unit {0})
  register_unless_known d = do
    known ← gets (λ s. is_some (lookup d.id s.0.declarations))
    if known then pure tt else do register clock d; pure tt

  unfoldable pub load_unless_loaded : String → String → Exec (State W) (Unit {0})
  load_unless_loaded id instance_id = do
    found ← gets (λ s. lookup id s.0.records)
    r ← lift (or_key_error id found)
    if r.loaded then pure tt else do on_loaded clock id instance_id; pure tt

  unfoldable pub register_registry_layer : Bool → Exec (State W) (Unit {0})
  register_registry_layer with_load = do
    profile ← gets (λ s. s.0.active_profile)
    a ← lift (make_declaration (registry_declaration profile))
    b ← lift (make_declaration (watcher_declaration profile))
    register_unless_known a
    register_unless_known b
    if not with_load then pure tt else do
      load_unless_loaded "module.registry" "module-registry-1"
      load_unless_loaded "module.watcher" "module-watcher-1"
