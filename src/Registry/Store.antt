-- ===== src/Registry/Store.antt =====
-- `ModuleRegistry` of module_registry/store.py. The clock and the watcher's callbacks act on a world
-- `W`; a method is an action on the registry and the world, which may raise.
use lbe_ci_validation.Base.Exec.{Exec, modify}
use lbe_ci_validation.Base.{
  Dict, List, Option, Raised, Result, String, [], contains, err, exception, false, if◌then◌else◌,
  insert, is_blank, last_items, ltb, none, not, ok, some, strip, true, value_error, ℕ, ◌++◌, ◌==◌,
  ◌∷◌,
}
use lbe_ci_validation.Registry.{
  LifecycleReceipt, LiveModuleRecord, ModuleActivity, ModuleDeclaration, ReceiptType, activity,
  failed, loaded, make_activity, registered, running, started, stopped,
}
use lbe_ci_validation.Registry.Watcher.{ModuleWatcher}

pub record ModuleRegistry (W : Type 0) : Type 0 where
  pub active_profile : String
  pub activity_limit : ℕ
  pub watcher : Option (ModuleWatcher W)
  pub declarations : Dict ModuleDeclaration
  pub records : Dict LiveModuleRecord
  pub unknown_receipts : List LifecycleReceipt

abbrev pub State : Type 0 → Type 0
State W = ModuleRegistry W × W

-- `ModuleRegistry(active_profile=…, activity_limit=…, watcher=…)`
unfoldable pub make_registry :
    {W : Type 0} → String → ℕ → Option (ModuleWatcher W) → Result (ModuleRegistry W)
make_registry active_profile activity_limit watcher =
    if ltb activity_limit 1
    then err (value_error "activity_limit must be at least 1")
    else if is_blank active_profile
    then err (value_error "active_profile must not be empty")
    else ok (record {
      active_profile = strip active_profile;
      activity_limit = activity_limit;
      watcher = watcher;
      declarations = [];
      records = [];
      unknown_receipts = [];
    })

-- `a or b` for `str | None`.
abbrev pub or_text : Option String → String → String
or_text none b = b
or_text (some a) b = if a == "" then b else a

abbrev pub or_time : Option String → String → Option String
or_time none b = some b
or_time (some a) b = if a == "" then some b else some a

abbrev pub add_instance : String → List String → List String
add_instance id ids = if contains id ids then ids else ids ++ id ∷ []

-- What a receipt does to a record: it changes it, contradicts it, or another check raises.
pub data Transition : Type 0 where
  next : LiveModuleRecord → Transition
  before_loaded : String → Transition
  refused : Raised → Transition

unfoldable pub add_activity : ℕ → LiveModuleRecord → Result ModuleActivity → Transition
add_activity limit r (err e) = refused e
add_activity limit r (ok a) = next (record r {
  current_activity = some a;
  recent_activity = last_items limit (r.recent_activity ++ a ∷ []);
  running = true;
  state = running;
})

unfoldable pub load : LiveModuleRecord → String → Option String → Transition
load r timestamp none = refused (exception "AssertionError" "")
load r timestamp (some id) = next (record r {
  instances = add_instance id r.instances;
  loaded = true;
  state = loaded;
  loaded_at = or_time r.loaded_at timestamp;
})

-- The branches of `_apply` on `receipt.type`.
unfoldable pub transition : ReceiptType → ℕ → LifecycleReceipt → LiveModuleRecord → Transition
unfolding add_activity load
transition loaded limit receipt r = load r receipt.timestamp receipt.instance_id
transition started limit receipt r =
    if not r.loaded
    then before_loaded "started-before-loaded"
    else next (record r { running = true; state = running })
transition activity limit receipt r =
    if not r.loaded
    then before_loaded "activity-before-loaded"
    else add_activity limit r
        (make_activity (or_text receipt.action "") (or_text receipt.detail "") receipt.timestamp)
transition stopped limit receipt r =
    next (record r { running = false; current_activity = none; state = stopped })
transition failed limit receipt r = next (record r {
  running = false;
  healthy = false;
  state = failed;
  last_error = some (record {
    code = or_text receipt.code "UNKNOWN";
    error = or_text receipt.error "Unknown error";
    timestamp = receipt.timestamp;
  });
})
transition registered limit receipt r = next r

abbrev pub blank_receipt : String → ReceiptType → String → LifecycleReceipt
blank_receipt module_id type timestamp = record {
  module_id = module_id;
  type = type;
  timestamp = timestamp;
  instance_id = none;
  action = none;
  detail = none;
  reason = none;
  code = none;
  error = none;
}

-- `self._unknown_receipts.append(receipt)`
abbrev pub append_unknown : {W : Type 0} → LifecycleReceipt → Exec (State W) (Unit {0})
append_unknown receipt =
    modify (λ s. (record s.0 { unknown_receipts = s.0.unknown_receipts ++ receipt ∷ [] }, s.1))

-- `self._records[id] = r`, or the change of the record that stands there.
abbrev pub put_record : {W : Type 0} → String → LiveModuleRecord → Exec (State W) (Unit {0})
put_record id r = modify (λ s. (record s.0 { records = insert id r s.0.records }, s.1))
