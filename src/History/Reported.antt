-- ===== src/History/Reported.antt =====
-- The checks of an event that a provider reports (professional_provider_events.py).
use lbe_ci_validation.History.Provider.{
  ModelEventType, NormalizedModelEvent, is_usage, message_delta, reasoning_summary_delta,
  tool_call_arguments_delta, tool_call_completed, tool_call_started, turn_error,
}
use lbe_ci_validation.Base.{
  Bool, Fields, Option, Raised, Result, String, concat, err, false, if◌then◌else◌, is_blank,
  is_some, no_fields, none, not, num, ok, raise_if, some, true, value_error, with_field, ◌&&◌, ◌>>◌,
}

abbrev pub is_delta : ModelEventType → Bool
is_delta message_delta = true
is_delta reasoning_summary_delta = true
is_delta tool_call_arguments_delta = true
is_delta _ = false

abbrev pub is_tool : ModelEventType → Bool
is_tool tool_call_started = true
is_tool tool_call_arguments_delta = true
is_tool tool_call_completed = true
is_tool _ = false

abbrev pub is_completed_call : ModelEventType → Bool
is_completed_call tool_call_completed = true
is_completed_call _ = false

abbrev pub is_error : ModelEventType → Bool
is_error turn_error = true
is_error _ = false

-- `_text(value, name)`, of a value that may be missing.
abbrev pub is_unset : Option String → Bool
is_unset none = true
is_unset (some s) = is_blank s

abbrev pub is_set_blank : Option String → Bool
is_set_blank none = false
is_set_blank (some s) = is_blank s

abbrev pub not_text : String → Raised
not_text name = value_error (concat name " must be a non-empty string")

-- The loop over the usage.
unfoldable pub check_usage : Fields → Result (Unit {0})
check_usage no_fields = ok tt
check_usage (with_field key (num n) rest) =
    let checked = check_usage rest in if is_blank key then err (not_text "usage key") else checked
check_usage (with_field key _ rest) =
    if is_blank key
    then err (not_text "usage key")
    else err (value_error "usage values must be non-negative integers")

abbrev pub check_given : Option Fields → Result (Unit {0})
check_given none = err (value_error "model.usage.updated requires usage mapping")
check_given (some usage) = check_usage usage

-- `NormalizedModelEvent.__post_init__`
unfoldable pub make_event : NormalizedModelEvent → Result NormalizedModelEvent
unfolding check_usage
make_event e = do
  raise_if (is_blank e.provider_id) (not_text "provider_id")
  raise_if (is_blank e.model_id) (not_text "model_id")
  raise_if (is_set_blank e.provider_request_id) (not_text "provider_request_id")
  raise_if (is_set_blank e.provider_item_id) (not_text "provider_item_id")
  raise_if (is_set_blank e.provider_tool_call_id) (not_text "provider_tool_call_id")
  raise_if (is_set_blank e.lbe_call_id) (not_text "lbe_call_id")
  raise_if (is_set_blank e.tool_name) (not_text "tool_name")
  raise_if (is_set_blank e.error_code) (not_text "error_code")
  raise_if (is_delta e.event_type && is_unset e.text) (not_text "text")
  raise_if (is_tool e.event_type && is_unset e.provider_tool_call_id)
      (not_text "provider_tool_call_id")
  raise_if (is_tool e.event_type && is_unset e.lbe_call_id) (not_text "lbe_call_id")
  raise_if (is_completed_call e.event_type && is_unset e.tool_name) (not_text "tool_name")
  raise_if (is_completed_call e.event_type && not (is_some e.tool_arguments))
      (value_error "model.tool_call.completed requires tool_arguments mapping")
  if is_usage e.event_type then check_given e.usage else ok tt
  raise_if (is_error e.event_type && is_unset e.error_code) (not_text "error_code")
  ok e
