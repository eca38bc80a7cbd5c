-- ===== src/History/Examples.antt =====
-- Projections of a provider's events at concrete inputs.
use lbe_ci_validation.History.{
  EventRow, History, OperationalTurn, TurnStatus, append_event, close_turns, count_running,
  finalize_turn, find_turn, last_status, max_of, rows_of_turn,
}
use lbe_ci_validation.History.Provider.{
  ModelEventType, NormalizedModelEvent, close_turn, operational_event, payload_of, persist_events,
  project_from, project_provider_events, terminal_status, turn_refused, turn_started, usage_updated,
}
use lbe_ci_validation.History.Replay.{IsReplayed, project_provider_events-IsReplayed}
use lbe_ci_validation.Base.{List, [], no_fields, none, refl, strip, ℕ, ◌∷◌}

abbrev open_turn : OperationalTurn
open_turn = record {
  turn_id = "turn-1";
  session_id = "s-1";
  status = TurnStatus.running;
  created_at = "now";
  finalized_at = none;
}

abbrev one_turn : History
one_turn = record { turns = open_turn ∷ []; items = []; events = [] }

abbrev reported : ModelEventType → NormalizedModelEvent
reported type = record {
  event_type = type;
  provider_id = "p";
  model_id = "m";
  protocol_family = "unknown";
  provider_request_id = none;
  provider_item_id = none;
  provider_tool_call_id = none;
  lbe_call_id = none;
  text = none;
  tool_name = none;
  tool_arguments = none;
  usage = none;
  error_code = none;
  metadata = no_fields;
}

abbrev refusal : List NormalizedModelEvent
refusal = reported turn_started ∷ reported turn_refused ∷ reported usage_updated ∷ []

abbrev row_of : ModelEventType → ℕ → EventRow
unfolding operational_event payload_of
row_of type n = record {
  event = operational_event open_turn "now" (reported type);
  session_sequence = n;
  turn_sequence = n;
}

abbrev refusal_rows : List EventRow
refusal_rows = row_of turn_started 1 ∷ row_of turn_refused 2 ∷ row_of usage_updated 3 ∷ []

project_provider_events-IsReplayed_example :
    IsReplayed "turn-1" (project_provider_events "turn-1" "now" refusal one_turn).1
unfolding project_provider_events project_from persist_events close_turn append_event finalize_turn
    last_status rows_of_turn find_turn strip operational_event terminal_status count_running
    close_turns row_of max_of
project_provider_events-IsReplayed_example =
    project_provider_events-IsReplayed "turn-1" "now" refusal one_turn refusal_rows refl refl
