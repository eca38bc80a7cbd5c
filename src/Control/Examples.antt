-- ===== src/Control/Examples.antt =====
-- The control of turns at concrete inputs: an adapter that answers once, and one that fails.
use lbe_ci_validation.Base.Exec.{pure, raise}
use lbe_ci_validation.History.{History, OperationalTurn, TurnStatus, find_turn, get_turn}
use lbe_ci_validation.History.Provider.{
  ModelEventType, NormalizedModelEvent, message_delta, project_provider_events, terminal_status,
  turn_completed,
}
use lbe_ci_validation.History.Valid.{IsValid, count_id, running_in}
use lbe_ci_validation.History.Errors.{failed_turn}
use lbe_ci_validation.History.Returns.{is_ordered, project_provider_events-is_ok}
use lbe_ci_validation.Control.{ControlMethod, ControlRequest, turn_start}
use lbe_ci_validation.Control.OneTurn.{Received, after_requests, after_requests-one_running}
use lbe_ci_validation.Control.Runtime.{Adapter, RuntimeWorld, error_event, non_streaming, run}
use lbe_ci_validation.Control.Failing.{non_streaming-KeepsValid}
use lbe_ci_validation.Control.Ends.{run-failed}
use lbe_ci_validation.Base.{
  Dict, List, String, Value, [], arith, exception, false, is_ok, none, refl, some, str, strip, true,
  ◌∷◌, ◌≡◌, ◌≤◌,
}

abbrev Nowhere : Type 0
Nowhere = Unit {0}

abbrev no_turns : History
no_turns = record { turns = []; items = []; events = [] }

no_turns-IsValid : IsValid no_turns
unfolding running_in count_id
no_turns-IsValid = record { one_running = λ session. omega arith; keyed = λ id. omega arith }

abbrev fresh : RuntimeWorld Nowhere
fresh = record { cancelled_turns = []; world = tt }

abbrev failing : Adapter Nowhere
failing = record {
  complete = λ text. raise (exception "TimeoutError" "no answer");
  model = "m";
  supports_cancellation = false;
  cancel_transport = none;
}

abbrev request_of : ControlMethod → Dict Value → ControlRequest
request_of method params = record {
  request_id = "r";
  method = method;
  params = params;
  protocol_version = "1.0";
}

abbrev starting : String → Received
starting id = record {
  request = request_of turn_start (("session_id", str "s-1") ∷ ("text", str "why") ∷ []);
  new_turn = id;
  now = "now";
}

abbrev silent : Adapter Nowhere
silent = record failing { complete = λ text. pure [] }

-- The second request is refused: the first turn runs.
after_requests-one_running_example :
    running_in "s-1"
      (after_requests
        (λ id. true)
        (some (non_streaming silent "p" "now"))
        (starting "turn-1" ∷ starting "turn-2" ∷ [])
        (no_turns, fresh)).0.turns
    ≤ 1
after_requests-one_running_example =
    after_requests-one_running (λ id. true) (some (non_streaming silent "p" "now"))
      (starting "turn-1" ∷ starting "turn-2" ∷ []) (no_turns, fresh) "s-1"
      (non_streaming-KeepsValid silent "p" "now") no_turns-IsValid

abbrev open_turn : OperationalTurn
open_turn = record {
  turn_id = "turn-1";
  session_id = "s-1";
  status = TurnStatus.running;
  created_at = "now";
  finalized_at = none;
}

abbrev one_turn : History
one_turn = record { turns = open_turn ∷ []; items = []; events = [] }

one_turn-IsValid : IsValid one_turn
unfolding running_in count_id
one_turn-IsValid = record { one_running = λ session. ground arith; keyed = λ id. ground arith }

run-failed_example :
    (is_ok (run failing "p" "now" "turn-1" "why" (one_turn, fresh)).0 ≡ true)
    × (get_turn "turn-1" (run failing "p" "now" "turn-1" "why" (one_turn, fresh)).1.0
        ≡ some (failed_turn open_turn "now"))
unfolding find_turn strip
run-failed_example =
    run-failed failing "p" "now" "turn-1" "why" open_turn one_turn fresh one_turn-IsValid refl refl
      refl refl

abbrev reported : ModelEventType → NormalizedModelEvent
reported type = record (error_event "p" "m" "") { event_type = type }

-- A turn that is completed and then goes on.
abbrev unruly : List NormalizedModelEvent
unfolding error_event
unruly = reported turn_completed ∷ reported message_delta ∷ []

project_provider_events-is_ok_example :
    is_ok (project_provider_events "turn-1" "now" unruly one_turn).0 ≡ false
unfolding is_ordered terminal_status find_turn error_event
project_provider_events-is_ok_example =
    project_provider_events-is_ok "turn-1" "now" unruly one_turn one_turn-IsValid
