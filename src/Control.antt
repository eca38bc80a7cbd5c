-- ===== src/Control.antt =====
-- persistent_turn_control.py and control_protocol.py: a user's control of turns.
pub mod OneTurn
pub mod Runtime
pub mod Failing
pub mod Ends
mod Examples
use lbe_ci_validation.Base.Exec.{Exec, gets, lift, pure, ◌>>=◌, ◌>>◌}
use lbe_ci_validation.History.{
  History, OperationalEvent, OperationalTurn, TurnStatus, append_event, finalize_turn, get_turn,
  is_running, start_turn,
}
use lbe_ci_validation.History.Items.{latest_running_turn}
use lbe_ci_validation.Base.{
  Bool, Dict, Option, Result, String, Value, [], concat, err, false, if◌then◌else◌, is_blank,
  is_some, lookup, none, not, ok, some, str, strip, true, value_error, ◌&&◌, ◌==◌, ◌∷◌,
}

pub data ControlMethod : Type 0 where
  session_create session_resume session_read session_status session_events_list : ControlMethod
  turn_start turn_steer turn_interrupt turn_cancel : ControlMethod
  provider_select approval_respond evidence_get validation_get : ControlMethod

pub record ControlRequest : Type 0 where
  pub request_id : String
  pub method : ControlMethod
  pub params : Dict Value
  pub protocol_version : String

pub record ControlOutcome : Type 0 where
  pub request_id : String
  pub is_accepted : Bool
  pub state : String
  pub reason : Option String

-- `ControlRequest.__post_init__`
unfoldable pub make_request : ControlRequest → Result ControlRequest
make_request r =
    if is_blank r.request_id
    then err (value_error "request_id must be non-empty")
    else if not (r.protocol_version == "1.0")
    then err (value_error "unsupported control protocol version")
    else ok r

-- `_METHODS`
abbrev pub is_implemented : ControlMethod → Bool
is_implemented turn_start = true
is_implemented turn_steer = true
is_implemented turn_interrupt = true
is_implemented turn_cancel = true
is_implemented _ = false

-- The runtime of a provider works on the history too, and on a world of its own. One without
-- `is_running` answers that no turn runs.
pub record ProviderTurnRuntime (W : Type 0) : Type 0 where
  pub is_running : String → W → Bool
  pub supports_cancellation : W → Bool
  pub start : String → String → Exec (History × W) (Unit {0})
  pub cancel : String → Exec (History × W) (Unit {0})

abbrev pub on_history : {W A : Type 0} → Exec History A → Exec (History × W) A
on_history m s = let (out, h) = m s.0 in (out, (h, s.1))

-- `_text`
unfoldable pub text_param : ControlRequest → String → Result String
text_param request name = elim (lookup name request.params) [
  | some (str value) ↦
      if is_blank value
      then err (value_error (concat name " must be a non-empty string"))
      else ok (strip value)
  | _ ↦ err (value_error (concat name " must be a non-empty string"))
]

abbrev pub accepted : ControlRequest → String → ControlOutcome
accepted request state = record {
  request_id = request.request_id;
  is_accepted = true;
  state = state;
  reason = none;
}

abbrev pub rejected : ControlRequest → String → ControlOutcome
rejected request reason = record {
  request_id = request.request_id;
  is_accepted = false;
  state = "rejected";
  reason = some reason;
}

abbrev pub control_event : String → String → String → Dict Value → String → OperationalEvent
control_event session_id turn_id event_type payload now = record {
  session_id = session_id;
  turn_id = turn_id;
  event_type = event_type;
  payload = payload;
  item_id = none;
  provider_id = none;
  model_id = none;
  provider_request_id = none;
  provider_item_id = none;
  provider_tool_call_id = none;
  lbe_call_id = none;
  runtime_operation_id = none;
  tool_receipt_id = none;
  created_at = now;
}

abbrev pub is_active : String → Option OperationalTurn → Bool
is_active session_id none = false
is_active session_id (some t) = t.session_id == session_id && is_running t.status

-- `known` is whether the memory store has the state of a session, `new_turn` the identifier that is
-- drawn for a turn.
module _ {W : Type 0} (known : String → Bool) (provider : Option (ProviderTurnRuntime W))
    (new_turn now : String) where
  unfoldable pub start_provider : String → String → Exec (History × W) (Unit {0})
  start_provider turn_id text = elim provider [
    | none ↦ pure tt
    | some runtime ↦ runtime.start turn_id text
  ]

  unfoldable pub start_new : ControlRequest → String → Exec (History × W) ControlOutcome
  unfolding start_provider
  start_new request session_id = do
    turn ← on_history (start_turn (known session_id) new_turn session_id now)
    text ← lift (text_param request "text")
    on_history (
        append_event
          (control_event session_id turn.turn_id "user.message" (("text", str text) ∷ []) now))
    start_provider turn.turn_id text
    pure (accepted request "started")

  -- `_start`
  unfoldable pub start_request : ControlRequest → String → Exec (History × W) ControlOutcome
  start_request request session_id s =
      if is_some (latest_running_turn session_id s.0)
      then (ok (rejected request "an active turn already exists"), s)
      else start_new request session_id s

  unfoldable pub close_cancelled :
      ControlRequest → String → String → Exec (History × W) ControlOutcome
  close_cancelled request session_id turn_id = do
    on_history (append_event (control_event session_id turn_id "turn.cancelled" [] now))
    on_history (finalize_turn turn_id TurnStatus.cancelled now)
    pure (accepted request "cancelled")

  unfoldable pub cancel_live :
      ProviderTurnRuntime W → ControlRequest → String → String → Exec (History × W) ControlOutcome
  unfolding close_cancelled
  cancel_live runtime request session_id turn_id = do
    live ← gets (λ s. runtime.is_running turn_id s.1)
    supported ← gets (λ s. runtime.supports_cancellation s.1)
    if not live
        then close_cancelled request session_id turn_id
        else if not supported
        then pure
            (rejected request "live provider cancellation is not available for this transport")
        else (runtime.cancel turn_id >> close_cancelled request session_id turn_id)

  unfoldable pub cancel_request :
      ControlRequest → String → String → Exec (History × W) ControlOutcome
  unfolding cancel_live close_cancelled
  cancel_request request session_id turn_id = elim provider [
    | none ↦ close_cancelled request session_id turn_id
    | some runtime ↦ cancel_live runtime request session_id turn_id
  ]

  -- A request on an active turn.
  unfoldable pub on_turn :
      ControlMethod → ControlRequest → String → String → Exec (History × W) ControlOutcome
  unfolding cancel_request
  on_turn turn_steer request session_id turn_id = do
    text ← lift (text_param request "text")
    on_history (
        append_event
          (control_event session_id turn_id "turn.steering.received" (("text", str text) ∷ []) now))
    pure (accepted request "queued")
  on_turn turn_interrupt request session_id turn_id = do
    on_history (append_event (control_event session_id turn_id "turn.interrupt.requested" [] now))
    pure (accepted request "requested")
  on_turn _ request session_id turn_id = cancel_request request session_id turn_id

  unfoldable pub on_session :
      ControlMethod → ControlRequest → String → Exec (History × W) ControlOutcome
  unfolding start_request start_new on_turn
  on_session turn_start request session_id = start_request request session_id
  on_session method request session_id = do
    turn_id ← lift (text_param request "turn_id")
    turn ← gets (λ s. get_turn turn_id s.0)
    if not (is_active session_id turn)
        then pure (rejected request "turn is not active for this session")
        else on_turn method request session_id turn_id

  -- `PersistentTurnControl.handle`
  unfoldable pub handle : ControlRequest → Exec (History × W) ControlOutcome
  unfolding on_session
  handle request =
      if not (is_implemented request.method)
      then pure (rejected request "method is not implemented by persisted turn control")
      else (do
        session_id ← lift (text_param request "session_id")
        if not (known session_id)
            then pure (rejected request "session not found")
            else on_session request.method request session_id)
