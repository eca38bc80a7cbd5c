-- ===== src/History/Provider.antt =====
-- provider_event_history.py: what a provider reported of a turn becomes history.
use lbe_ci_validation.Base.Exec.{Exec, lift, pure, raise, ◌>>=◌, ◌>>◌}
use lbe_ci_validation.History.{
  EventRow, History, OperationalEvent, OperationalTurn, TurnStatus, append_event, finalize_turn,
  get_turn, is_running, or_status,
}
use lbe_ci_validation.Base.{
  Bool, Dict, Fields, List, Option, String, Value, [], false, if◌then◌else◌, none, not, obj,
  raise_if, some, str, true, value_error, ◌&&◌, ◌++◌, ◌∷◌,
}

-- professional_provider_events.py
pub data ModelEventType : Type 0 where
  turn_started message_delta message_completed reasoning_summary_delta : ModelEventType
  reasoning_summary_completed tool_call_started tool_call_arguments_delta : ModelEventType
  tool_call_completed usage_updated turn_requires_tool turn_requires_continuation : ModelEventType
  turn_completed turn_incomplete turn_refused turn_cancelled turn_error : ModelEventType

abbrev pub type_name : ModelEventType → String
type_name turn_started = "model.turn.started"
type_name message_delta = "model.message.delta"
type_name message_completed = "model.message.completed"
type_name reasoning_summary_delta = "model.reasoning_summary.delta"
type_name reasoning_summary_completed = "model.reasoning_summary.completed"
type_name tool_call_started = "model.tool_call.started"
type_name tool_call_arguments_delta = "model.tool_call.arguments.delta"
type_name tool_call_completed = "model.tool_call.completed"
type_name usage_updated = "model.usage.updated"
type_name turn_requires_tool = "model.turn.requires_tool"
type_name turn_requires_continuation = "model.turn.requires_continuation"
type_name turn_completed = "model.turn.completed"
type_name turn_incomplete = "model.turn.incomplete"
type_name turn_refused = "model.turn.refused"
type_name turn_cancelled = "model.cancelled"
type_name turn_error = "model.error"

pub record NormalizedModelEvent : Type 0 where
  pub event_type : ModelEventType
  pub provider_id : String
  pub model_id : String
  pub protocol_family : String
  pub provider_request_id : Option String
  pub provider_item_id : Option String
  pub provider_tool_call_id : Option String
  pub lbe_call_id : Option String
  pub text : Option String
  pub tool_name : Option String
  pub tool_arguments : Option Fields
  pub usage : Option Fields
  pub error_code : Option String
  pub metadata : Fields

-- `_TERMINAL_STATUS.get`
unfoldable pub terminal_status : ModelEventType → Option TurnStatus
terminal_status turn_completed = some TurnStatus.completed
terminal_status turn_incomplete = some TurnStatus.incomplete
terminal_status turn_refused = some TurnStatus.refused
terminal_status turn_cancelled = some TurnStatus.cancelled
terminal_status turn_error = some TurnStatus.failed
terminal_status _ = none

abbrev pub is_usage : ModelEventType → Bool
is_usage usage_updated = true
is_usage _ = false

abbrev pub entry : {A : Type 0} → String → (A → Value) → Option A → Dict Value
entry name value none = []
entry name value (some a) = (name, value a) ∷ []

-- `_payload`
unfoldable pub payload_of : NormalizedModelEvent → Dict Value
payload_of event =
    (("protocol_family", str event.protocol_family) ∷ ("metadata", obj event.metadata) ∷ [])
    ++ entry "text" str event.text
    ++ entry "tool_name" str event.tool_name
    ++ entry "error_code" str event.error_code
    ++ entry "tool_arguments" obj event.tool_arguments
    ++ entry "usage" obj event.usage

unfoldable pub operational_event :
    OperationalTurn → String → NormalizedModelEvent → OperationalEvent
operational_event turn now event = record {
  session_id = turn.session_id;
  turn_id = turn.turn_id;
  event_type = type_name event.event_type;
  payload = payload_of event;
  item_id = none;
  provider_id = some event.provider_id;
  model_id = some event.model_id;
  provider_request_id = event.provider_request_id;
  provider_item_id = event.provider_item_id;
  provider_tool_call_id = event.provider_tool_call_id;
  lbe_call_id = event.lbe_call_id;
  runtime_operation_id = none;
  tool_receipt_id = none;
  created_at = now;
}

abbrev pub is_ended : Option TurnStatus → Bool
is_ended none = false
is_ended (some s) = true

-- The loop of `project_provider_events`, at the terminal status it has met so far.
unfoldable pub persist_events :
    OperationalTurn
    → String
    → List NormalizedModelEvent
    → Option TurnStatus
    → Exec History (List EventRow × Option TurnStatus)
persist_events turn now [] terminal = pure ([], terminal)
persist_events turn now (event ∷ events) terminal = do
  lift (
      raise_if (is_ended terminal && not (is_usage event.event_type))
        (value_error "provider events cannot follow a terminal event"))
  row ← append_event (operational_event turn now event)
  out ← persist_events turn now events (or_status (terminal_status event.event_type) terminal)
  pure (row ∷ out.0, out.1)

-- What follows the loop.
unfoldable pub close_turn :
    OperationalTurn → String → List EventRow × Option TurnStatus → Exec History (List EventRow)
close_turn turn now (rows, none) = pure rows
close_turn turn now (rows, some status) = do
  closed ← finalize_turn turn.turn_id status now
  pure rows

unfoldable pub project_from :
    String → List NormalizedModelEvent → Option OperationalTurn → Exec History (List EventRow)
project_from now events none = raise (value_error "turn must exist and be running")
project_from now events (some turn) =
    if not (is_running turn.status)
    then raise (value_error "turn must exist and be running")
    else (persist_events turn now events none >>= close_turn turn now)

-- `project_provider_events`
unfoldable pub project_provider_events :
    String → String → List NormalizedModelEvent → Exec History (List EventRow)
project_provider_events turn_id now events h = project_from now events (get_turn turn_id h) h
