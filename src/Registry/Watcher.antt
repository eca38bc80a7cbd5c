-- ===== src/Registry/Watcher.antt =====
-- module_registry/watcher.py: events to isolated subscribers.
use lbe_ci_validation.Base.{
  List, Option, Result, String, [], err, exception, interrupt, last_items, ltb, none, ok, raise_if,
  some, value_error, ℕ, ◌++◌, ◌+◌, ◌>>◌, ◌∷◌,
}
use lbe_ci_validation.Registry.{
  LifecycleReceipt, ModuleDeclaration, ReceiptType, activity, failed, loaded, registered, started,
  stopped,
}

pub data Payload : Type 0 where
  of_declaration : ModuleDeclaration → Payload
  of_receipt : LifecycleReceipt → Payload

pub record WatcherEvent : Type 0 where
  pub sequence : ℕ
  pub event_type : ReceiptType
  pub module_id : String
  pub payload : Payload

pub record WatcherFailure : Type 0 where
  pub sequence : ℕ
  pub module_id : String
  pub event_type : ReceiptType
  pub subscriber_name : String
  pub error_type : String
  pub error : String

-- A callback acts on the world `W` and returns or raises; its value is dropped.
module _ (W : Type 0) where
  abbrev pub Callback : Type 0
  Callback = Payload → W → Result (Unit {0}) × W

  pub record WatchSubscription : Type 0 where
    pub on_registered : Option (Payload → W → Result (Unit {0}) × W)
    pub on_loaded : Option (Payload → W → Result (Unit {0}) × W)
    pub on_started : Option (Payload → W → Result (Unit {0}) × W)
    pub on_activity : Option (Payload → W → Result (Unit {0}) × W)
    pub on_stopped : Option (Payload → W → Result (Unit {0}) × W)
    pub on_failed : Option (Payload → W → Result (Unit {0}) × W)
    pub name : String

  pub record ModuleWatcher : Type 0 where
    pub history_limit : ℕ
    pub failure_limit : ℕ
    pub subscriptions : List WatchSubscription
    pub history : List WatcherEvent
    pub failures : List WatcherFailure
    pub sequence : ℕ

  -- `ModuleWatcher(history_limit=…, failure_limit=…)`
  unfoldable pub make_watcher : ℕ → ℕ → Result ModuleWatcher
  make_watcher history_limit failure_limit = do
    raise_if (ltb history_limit 1) (value_error "history_limit must be at least 1")
    raise_if (ltb failure_limit 1) (value_error "failure_limit must be at least 1")
    ok (record {
      history_limit = history_limit;
      failure_limit = failure_limit;
      subscriptions = [];
      history = [];
      failures = [];
      sequence = 0;
    })

module _ {W : Type 0} where
  unfoldable pub callback_for : ReceiptType → WatchSubscription W → Option (Callback W)
  callback_for registered s = s.on_registered
  callback_for loaded s = s.on_loaded
  callback_for started s = s.on_started
  callback_for activity s = s.on_activity
  callback_for stopped s = s.on_stopped
  callback_for failed s = s.on_failed

  unfoldable pub watch : WatchSubscription W → ModuleWatcher W → ModuleWatcher W
  watch subscription watcher = record watcher {
    subscriptions = watcher.subscriptions ++ subscription ∷ [];
  }

  -- What a callback leaves: an `Exception` is recorded, and what is none passes through.
  unfoldable pub after_callback :
      WatcherEvent
      → String
      → Result (Unit {0})
      → ModuleWatcher W
      → Result (Unit {0}) × ModuleWatcher W
  after_callback event name (ok _) watcher = (ok tt, watcher)
  after_callback event name (err (exception error_type error)) watcher =
      let failure : WatcherFailure = record {
        sequence = event.sequence;
        module_id = event.module_id;
        event_type = event.event_type;
        subscriber_name = name;
        error_type = error_type;
        error = error;
      } in
      (
        ok tt,
        record watcher {
          failures = last_items watcher.failure_limit (watcher.failures ++ failure ∷ []);
        },
      )
  after_callback event name (err (interrupt e)) watcher = (err (interrupt e), watcher)

  -- The loop over `tuple(self._subscriptions)`.
  unfoldable pub notify :
      WatcherEvent
      → List (WatchSubscription W)
      → ModuleWatcher W
      → W
      → Result (Unit {0}) × ModuleWatcher W × W
  unfolding callback_for after_callback
  notify event [] watcher w = (ok tt, watcher, w)
  notify event (s ∷ rest) watcher w = elim (callback_for event.event_type s) [
    | none ↦ notify event rest watcher w
    | some callback ↦
        let (out, w') = callback event.payload w in
        let (passed, watcher') = after_callback event s.name out watcher in
        elim passed [ err e ↦ (err e, watcher', w') | ok _ ↦ notify event rest watcher' w' ]
  ]

  -- The event, and the watcher that has it in its history.
  unfoldable pub record_event :
      ReceiptType → String → Payload → ModuleWatcher W → WatcherEvent × ModuleWatcher W
  record_event event_type module_id payload watcher =
      let event : WatcherEvent = record {
        sequence = watcher.sequence + 1;
        event_type = event_type;
        module_id = module_id;
        payload = payload;
      } in
      (
        event,
        record watcher {
          sequence = watcher.sequence + 1;
          history = last_items watcher.history_limit (watcher.history ++ event ∷ []);
        },
      )

  -- `_publish`. The event that it returns is used by no caller and left out.
  unfoldable pub publish :
      ReceiptType → String → Payload → ModuleWatcher W → W → Result (Unit {0}) × ModuleWatcher W × W
  unfolding record_event notify
  publish event_type module_id payload watcher w =
      let (event, watcher') = record_event event_type module_id payload watcher in
      notify event watcher'.subscriptions watcher' w
