-- ===== src/Control/Runtime.antt =====
-- provider_turn_runtime.py: a turn of a provider without streaming. The adapter and its transport
-- act on the world. The event that reports an error is checked where it is built.
use lbe_ci_validation.Base.Exec.{Exec, lift, pure, ◌>>=◌, ◌>>◌}
use lbe_ci_validation.History.{EventRow, History}
use lbe_ci_validation.History.Provider.{NormalizedModelEvent, project_provider_events, turn_error}
use lbe_ci_validation.History.Reported.{make_event}
use lbe_ci_validation.Control.{ProviderTurnRuntime, on_history}
use lbe_ci_validation.Base.{
  Bool, List, Option, Result, String, [], contains, err, exception, false, if◌then◌else◌, interrupt,
  no_fields, none, ok, some, str, with_field, ◌∷◌,
}

-- The turns that were cancelled, and the world of the adapter.
pub record RuntimeWorld (W : Type 0) : Type 0 where
  pub cancelled_turns : List String
  pub world : W

-- While `complete` waits for the provider, others may cancel turns.
pub record Adapter (W : Type 0) : Type 0 where
  pub complete : String → Exec (RuntimeWorld W) (List NormalizedModelEvent)
  pub model : String
  pub supports_cancellation : Bool
  pub cancel_transport : Option (Exec W (Unit {0}))

-- `cancel`
abbrev pub apply_transport : {W : Type 0} → Option (Exec W (Unit {0})) → Exec W (Unit {0})
apply_transport none = pure tt
apply_transport (some cancel) = cancel

-- The arguments of the ERROR event.
unfoldable pub error_event : String → String → String → NormalizedModelEvent
error_event provider_id model name = record {
  event_type = turn_error;
  provider_id = provider_id;
  model_id = model;
  protocol_family = "openai_compatible_chat";
  provider_request_id = none;
  provider_item_id = none;
  provider_tool_call_id = none;
  lbe_call_id = none;
  text = none;
  tool_name = none;
  tool_arguments = none;
  usage = none;
  error_code = some "RUNTIME_PROVIDER_PROJECTION_ERROR";
  metadata = with_field "error_type" (str name) no_fields;
}

module _ {W : Type 0} (adapter : Adapter W) (provider_id now : String) where
  unfoldable pub cancel : String → Exec (History × RuntimeWorld W) (Unit {0})
  cancel turn_id (h, w) =
      let (out, world) = apply_transport adapter.cancel_transport w.world in
      (out, (h, record { cancelled_turns = turn_id ∷ w.cancelled_turns; world = world }))

  unfoldable pub report_error : String → String → Exec (History × RuntimeWorld W) (Unit {0})
  unfolding make_event error_event
  report_error turn_id name = do
    event ← lift (make_event (error_event provider_id adapter.model name))
    on_history (project_provider_events turn_id now (event ∷ []))
    pure tt

  -- The `except` of `run`.
  unfoldable pub recover :
      String → Result (List EventRow) → Exec (History × RuntimeWorld W) (Unit {0})
  unfolding report_error
  recover turn_id (ok rows) s = (ok tt, s)
  recover turn_id (err (interrupt name)) s = (err (interrupt name), s)
  recover turn_id (err (exception name message)) s =
      if contains turn_id s.1.cancelled_turns then (ok tt, s) else report_error turn_id name s

  unfoldable pub project_reported :
      String → Result (List NormalizedModelEvent) → Exec (History × RuntimeWorld W) (Unit {0})
  unfolding recover
  project_reported turn_id (err e) s = recover turn_id (err e) s
  project_reported turn_id (ok events) s =
      if contains turn_id s.1.cancelled_turns
      then (ok tt, s)
      else (let (out, h) = project_provider_events turn_id now events s.0 in
          recover turn_id out (h, s.1))

  -- `NonStreamingProviderTurnRuntime.run`
  unfoldable pub run : String → String → Exec (History × RuntimeWorld W) (Unit {0})
  unfolding project_reported
  run turn_id text (h, w) =
      let (out, w') = adapter.complete text w in project_reported turn_id out (h, w')

  -- It has no `is_running`.
  abbrev pub non_streaming : ProviderTurnRuntime (RuntimeWorld W)
  non_streaming = record {
    is_running = λ turn_id w. false;
    supports_cancellation = λ w. adapter.supports_cancellation;
    start = run;
    cancel = cancel;
  }
