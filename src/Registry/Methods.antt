-- ===== src/Registry/Methods.antt =====
-- The methods of `ModuleRegistry` that change it (module_registry/store.py).
use lbe_ci_validation.Base.Exec.{Exec, gets, lift, modify, pure, raise, ◌>>=◌, ◌>>◌}
use lbe_ci_validation.Base.{
  Option, String, [], concat, false, if◌then◌else◌, insert, is_some, key_error, lookup, none, not,
  ok, some, true, value_error,
}
use lbe_ci_validation.Registry.{
  LifecycleReceipt, LiveModuleRecord, ModuleDeclaration, ModuleState, ReceiptType, activity, failed,
  idle, loaded, make_receipt, started, stopped,
}
use lbe_ci_validation.Registry.Watcher.{Payload, of_declaration, of_receipt, publish}
use lbe_ci_validation.Registry.Store.{
  State, Transition, append_unknown, before_loaded, blank_receipt, next, put_record, refused,
  transition,
}

-- The record that `register` makes.
unfoldable pub new_record : ModuleDeclaration → String → LiveModuleRecord
new_record d timestamp = record {
  declaration = d;
  state = if d.disabled then ModuleState.disabled else ModuleState.registered;
  registered = true;
  loaded = false;
  running = false;
  healthy = true;
  instances = [];
  current_activity = none;
  recent_activity = [];
  last_error = none;
  loaded_at = none;
  updated_at = some timestamp;
}

module _ {W : Type 0} where
  -- `if self._watcher is not None: self._watcher.publish…`
  unfoldable pub publish_to_watcher : ReceiptType → String → Payload → Exec (State W) (Unit {0})
  publish_to_watcher type id payload s = elim s.0.watcher [
    | none ↦ (ok tt, s)
    | some watcher ↦
        let (out, watcher', w) = publish type id payload watcher s.1 in
        (out, (record s.0 { watcher = some watcher' }, w))
  ]

module _ {W : Type 0} (clock : W → String × W) where
  -- `self._clock()`
  unfoldable pub now : Exec (State W) String
  now s = let (t, w) = clock s.1 in (ok t, (s.0, w))

  unfoldable pub register : ModuleDeclaration → Exec (State W) LiveModuleRecord
  unfolding now publish_to_watcher new_record
  register d = do
    known ← gets (λ s. is_some (lookup d.id s.0.declarations))
    if known then raise (value_error (concat "duplicate module id: " d.id)) else do
      timestamp ← now
      let r = new_record d timestamp
      modify (λ s. (record s.0 { declarations = insert d.id d s.0.declarations }, s.1))
      put_record d.id r
      publish_to_watcher ReceiptType.registered d.id (of_declaration d)
      pure r

  -- `_contradiction`
  unfoldable pub contradiction : String → String → Exec (State W) (Unit {0})
  unfolding now
  contradiction module_id detail = do
    timestamp ← now
    receipt ← lift (
        make_receipt (record (blank_receipt module_id failed timestamp) {
          code = some "CONTRADICTORY_LIFECYCLE_STATE";
          error = some detail;
        }))
    append_unknown receipt

  -- `raise ValueError(f"module is not loaded: {module_id}")`, behind the contradiction.
  unfoldable pub raise_not_loaded : String → String → Exec (State W) LiveModuleRecord
  unfolding contradiction
  raise_not_loaded module_id detail = do
    contradiction module_id detail
    raise (value_error (concat "module is not loaded: " module_id))

  -- The end of `_apply`, after the branch on the type.
  unfoldable pub commit : LifecycleReceipt → Transition → Exec (State W) LiveModuleRecord
  unfolding raise_not_loaded publish_to_watcher
  commit receipt (refused e) = raise e
  commit receipt (before_loaded detail) = raise_not_loaded receipt.module_id detail
  commit receipt (next r) = do
    let r' = record r { updated_at = some receipt.timestamp }
    put_record receipt.module_id r'
    publish_to_watcher receipt.type receipt.module_id (of_receipt receipt)
    pure r'

  -- The look-up of `_apply`.
  unfoldable pub apply_to :
      LifecycleReceipt → Option LiveModuleRecord → Exec (State W) LiveModuleRecord
  unfolding commit transition
  apply_to receipt none = do append_unknown receipt; raise (key_error receipt.module_id)
  apply_to receipt (some r) =
      λ s. commit receipt (transition receipt.type s.0.activity_limit receipt r) s

  -- `_apply`
  unfoldable pub apply : LifecycleReceipt → Exec (State W) LiveModuleRecord
  unfolding apply_to
  apply receipt s = apply_to receipt (lookup receipt.module_id s.0.records) s

  -- `self._apply(LifecycleReceipt(…))` with the fields that the method gives.
  unfoldable pub stamp_and_apply : (String → LifecycleReceipt) → Exec (State W) LiveModuleRecord
  unfolding now apply
  stamp_and_apply fields = do
    timestamp ← now
    receipt ← lift (make_receipt (fields timestamp))
    apply receipt

  unfoldable pub on_loaded : String → String → Exec (State W) LiveModuleRecord
  unfolding stamp_and_apply
  on_loaded module_id instance_id =
      stamp_and_apply
        (λ t. record (blank_receipt module_id loaded t) { instance_id = some instance_id })

  unfoldable pub on_started : String → Exec (State W) LiveModuleRecord
  unfolding stamp_and_apply
  on_started module_id = stamp_and_apply (λ t. blank_receipt module_id started t)

  unfoldable pub on_activity : String → String → String → Exec (State W) LiveModuleRecord
  unfolding stamp_and_apply
  on_activity module_id action detail = stamp_and_apply (λ t.
      record (blank_receipt module_id activity t) { action = some action; detail = some detail })

  unfoldable pub on_stopped : String → String → Exec (State W) LiveModuleRecord
  unfolding stamp_and_apply
  on_stopped module_id reason =
      stamp_and_apply (λ t. record (blank_receipt module_id stopped t) { reason = some reason })

  unfoldable pub on_failed : String → String → String → Exec (State W) LiveModuleRecord
  unfolding stamp_and_apply
  on_failed module_id code error =
      stamp_and_apply
        (λ t. record (blank_receipt module_id failed t) { code = some code; error = some error })

  -- The look-up of `idle`: it does not strip the identifier, and tells the watcher nothing.
  unfoldable pub idle_at : String → Option LiveModuleRecord → Exec (State W) LiveModuleRecord
  unfolding now raise_not_loaded
  idle_at module_id none = do
    timestamp ← now
    receipt ← lift (
        make_receipt (record (blank_receipt module_id activity timestamp) {
          action = some "idle";
          detail = some "idle requested for unknown module";
        }))
    append_unknown receipt
    raise (key_error module_id)
  idle_at module_id (some r) =
      if not r.loaded then raise_not_loaded module_id "idle-before-loaded" else do
        timestamp ← now
        let r' = record r { running = false; state = idle; updated_at = some timestamp }
        put_record module_id r'
        pure r'

  unfoldable pub on_idle : String → Exec (State W) LiveModuleRecord
  unfolding idle_at
  on_idle module_id s = idle_at module_id (lookup module_id s.0.records) s
