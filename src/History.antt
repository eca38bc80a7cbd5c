-- ===== src/History.antt =====
-- memory/operational_history.py: the turns, items and events of sessions. A table of the database is
-- the list of its rows, in the order of insertion; an action that raises leaves the tables as they
-- were. The identifier of an event, a random one that is only stored, is left out; the others, and
-- the times, are arguments. A payload is what JSON gives back, in the order it had.
pub mod Provider
pub mod Reported
pub mod Rows
pub mod Items
pub mod Valid
pub mod Keeps
pub mod Returns
pub mod Errors
pub mod Replay
mod Examples
use lbe_ci_validation.Base.{
  Bool, Dict, List, Option, Result, String, Value, [], any, concat, err, exception, false,
  if◌then◌else◌, is_blank, key_error, leb, lookup, ltb, nat_eq, none, not, ok, some, true,
  type_error, value_error, ℕ, ◌&&◌, ◌++◌, ◌+◌, ◌==◌, ◌∷◌,
}
use lbe_ci_validation.Base.Exec.{Exec}

pub data TurnStatus : Type 0 where
  running completed failed cancelled incomplete refused escalated : TurnStatus

pub record OperationalTurn : Type 0 where
  pub turn_id : String
  pub session_id : String
  pub status : TurnStatus
  pub created_at : String
  pub finalized_at : Option String

pub record OperationalEvent : Type 0 where
  pub session_id : String
  pub turn_id : String
  pub event_type : String
  pub payload : Dict Value
  pub item_id : Option String
  pub provider_id : Option String
  pub model_id : Option String
  pub provider_request_id : Option String
  pub provider_item_id : Option String
  pub provider_tool_call_id : Option String
  pub lbe_call_id : Option String
  pub runtime_operation_id : Option String
  pub tool_receipt_id : Option String
  pub created_at : String

pub data ItemStatus : Type 0 where
  running completed failed cancelled denied escalated : ItemStatus

pub record OperationalItem : Type 0 where
  pub item_id : String
  pub turn_id : String
  pub kind : String
  pub status : ItemStatus
  pub created_at : String
  pub finalized_at : Option String

-- A row of operational_events.
pub record EventRow : Type 0 where
  pub event : OperationalEvent
  pub session_sequence : ℕ
  pub turn_sequence : ℕ

pub record History : Type 0 where
  pub turns : List OperationalTurn
  pub items : List OperationalItem
  pub events : List EventRow

abbrev pub is_running : TurnStatus → Bool
is_running TurnStatus.running = true
is_running _ = false

-- WHERE turn_id=?, the first row
unfoldable pub find_turn : String → List OperationalTurn → Option OperationalTurn
find_turn id [] = none
find_turn id (t ∷ ts) = if t.turn_id == id then some t else find_turn id ts

abbrev pub is_found : Option OperationalTurn → Bool
is_found none = false
is_found (some t) = true

-- `get_turn`
abbrev pub get_turn : String → History → Option OperationalTurn
get_turn id h = find_turn id h.turns

-- `start_turn`: whether the session exists is the memory store's answer.
unfoldable pub start_turn : Bool → String → String → String → Exec History OperationalTurn
start_turn known turn_id session_id now h =
    let turn : OperationalTurn = record {
      turn_id = turn_id;
      session_id = session_id;
      status = TurnStatus.running;
      created_at = now;
      finalized_at = none;
    } in
    if not known
    then (err (key_error (concat "session not found: " session_id)), h)
    else if is_found (find_turn turn_id h.turns)
    then (err (exception "IntegrityError" "UNIQUE constraint failed: operational_turns.turn_id"), h)
    else (ok turn, record h { turns = h.turns ++ turn ∷ [] })

-- COALESCE(MAX(…),0) of the rows that a test selects
unfoldable pub max_of : (EventRow → Bool) → (EventRow → ℕ) → List EventRow → ℕ
max_of selects key [] = 0
max_of selects key (r ∷ rs) =
    let rest = max_of selects key rs in if selects r && ltb rest (key r) then key r else rest

abbrev pub of_session : String → EventRow → Bool
of_session id r = r.event.session_id == id

abbrev pub of_turn : String → EventRow → Bool
of_turn id r = r.event.turn_id == id

abbrev pub knows_item : List OperationalItem → Option String → Bool
knows_item items none = true
knows_item items (some id) = any (λ i. i.item_id == id) items

-- `append_event`
unfoldable pub append_event : OperationalEvent → Exec History EventRow
append_event event h =
    let row : EventRow = record {
      event = event;
      session_sequence =
          max_of (of_session event.session_id) (λ r. r.session_sequence) h.events + 1;
      turn_sequence = max_of (of_turn event.turn_id) (λ r. r.turn_sequence) h.events + 1;
    } in
    if is_blank event.event_type
    then (err (value_error "event type and payload are required"), h)
    else if not (is_found (find_turn event.turn_id h.turns) && knows_item h.items event.item_id)
    then (err (exception "IntegrityError" "FOREIGN KEY constraint failed"), h)
    else (ok row, record h { events = h.events ++ row ∷ [] })

-- UPDATE … WHERE turn_id=? AND status='running'
unfoldable pub close_turns :
    String → TurnStatus → String → List OperationalTurn → List OperationalTurn
close_turns id status now [] = []
close_turns id status now (t ∷ ts) =
    let rest = close_turns id status now ts in
    if t.turn_id == id && is_running t.status
    then record t { status = status; finalized_at = some now } ∷ rest
    else t ∷ rest

-- The `rowcount` of that statement.
unfoldable pub count_running : String → List OperationalTurn → ℕ
count_running id [] = 0
count_running id (t ∷ ts) =
    let rest = count_running id ts in
    if t.turn_id == id && is_running t.status then rest + 1 else rest

-- `finalize_turn`
unfoldable pub finalize_turn : String → TurnStatus → String → Exec History OperationalTurn
finalize_turn id status now h =
    let turns = close_turns id status now h.turns in
    if not (nat_eq (count_running id h.turns) 1)
    then (err (value_error "turn is missing or already finalized"), h)
    else elim (find_turn id turns) [
      | none ↦ (err (type_error "'NoneType' object is not subscriptable"), h)
      | some t ↦ (ok t, record h { turns = turns })
    ]

-- ORDER BY turn_sequence
unfoldable pub insert_row : EventRow → List EventRow → List EventRow
insert_row r [] = r ∷ []
insert_row r (q ∷ rows) =
    let rest = insert_row r rows in
    if leb r.turn_sequence q.turn_sequence then r ∷ q ∷ rows else q ∷ rest

unfoldable pub rows_of_turn : String → List EventRow → List EventRow
rows_of_turn id [] = []
rows_of_turn id (r ∷ rows) =
    let rest = rows_of_turn id rows in if of_turn id r then insert_row r rest else rest

-- `events_for_turn`
abbrev pub events_for_turn : String → History → List EventRow
events_for_turn id h = rows_of_turn id h.events

abbrev pub replay_table : Dict TurnStatus
replay_table =
    ("model.turn.completed", TurnStatus.completed)
    ∷ ("model.turn.incomplete", incomplete)
    ∷ ("model.turn.refused", refused)
    ∷ ("model.cancelled", TurnStatus.cancelled)
    ∷ ("model.error", TurnStatus.failed)
    ∷ ("tool.escalated", TurnStatus.escalated)
    ∷ []

abbrev pub or_status : Option TurnStatus → Option TurnStatus → Option TurnStatus
or_status none b = b
or_status (some s) b = some s

-- The loop of `replay_turn_status` over the reversed events: the last one in the table decides.
unfoldable pub last_status : List EventRow → Option TurnStatus
last_status [] = none
last_status (r ∷ rows) = or_status (last_status rows) (lookup r.event.event_type replay_table)

abbrev pub replay_answer : Option TurnStatus → Result TurnStatus
replay_answer none = err (value_error "turn events do not contain a replayable terminal state")
replay_answer (some s) = ok s

-- `replay_turn_status`
unfoldable pub replay_turn_status : String → History → Result TurnStatus
replay_turn_status id h = replay_answer (last_status (events_for_turn id h))
