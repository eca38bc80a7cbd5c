-- ===== src/History/Items.antt =====
-- The items of a turn, its tool receipts, and the queries of a session
-- (memory/operational_history.py).
use lbe_ci_validation.Base.Exec.{Exec}
use lbe_ci_validation.History.{
  EventRow, History, ItemStatus, OperationalItem, OperationalTurn, append_event, find_turn,
  is_found, is_running, of_session,
}
use lbe_ci_validation.Base.{
  Bool, Dict, Fields, Items, List, Option, String, Value, [], any, arr, err, exception, false,
  filter, if◌then◌else◌, is_blank, is_later, leb, nat_eq, no_fields, no_items, none, not, null, obj,
  ok, some, str, strip, true, type_error, value_error, with_field, with_item, ℕ, ◌&&◌, ◌++◌, ◌+◌,
  ◌==◌, ◌∷◌,
}
use lbe_ci_validation.Runtime.Tools.{ToolReceipt, ToolReceiptStatus}

abbrev pub is_live : ItemStatus → Bool
is_live ItemStatus.running = true
is_live _ = false

-- `start_item`: the identifier and the time are drawn.
unfoldable pub start_item : String → String → String → String → Exec History OperationalItem
start_item item_id turn_id kind now h =
    let item : OperationalItem = record {
      item_id = item_id;
      turn_id = turn_id;
      kind = strip kind;
      status = ItemStatus.running;
      created_at = now;
      finalized_at = none;
    } in
    if is_blank kind
    then (err (value_error "item kind must be non-empty"), h)
    else if any (λ i. i.item_id == item_id) h.items
    then (err (exception "IntegrityError" "UNIQUE constraint failed: operational_items.item_id"), h)
    else if not (is_found (find_turn turn_id h.turns))
    then (err (exception "IntegrityError" "FOREIGN KEY constraint failed"), h)
    else (ok item, record h { items = h.items ++ item ∷ [] })

-- UPDATE … WHERE item_id=? AND status='running', and its `rowcount`
unfoldable pub close_items :
    String → ItemStatus → String → List OperationalItem → List OperationalItem
close_items id status now [] = []
close_items id status now (i ∷ is) =
    let rest = close_items id status now is in
    if i.item_id == id && is_live i.status
    then record i { status = status; finalized_at = some now } ∷ rest
    else i ∷ rest

unfoldable pub count_live : String → List OperationalItem → ℕ
count_live id [] = 0
count_live id (i ∷ is) =
    let rest = count_live id is in if i.item_id == id && is_live i.status then rest + 1 else rest

unfoldable pub find_item : String → List OperationalItem → Option OperationalItem
find_item id [] = none
find_item id (i ∷ is) = if i.item_id == id then some i else find_item id is

-- `finalize_item`
unfoldable pub finalize_item : String → ItemStatus → String → Exec History OperationalItem
finalize_item id status now h =
    let items = close_items id status now h.items in
    if not (nat_eq (count_live id h.items) 1)
    then (err (value_error "item is missing or already finalized"), h)
    else elim (find_item id items) [
      | none ↦ (err (type_error "'NoneType' object is not subscriptable"), h)
      | some i ↦ (ok i, record h { items = items })
    ]

-- ORDER BY created_at DESC LIMIT 1; of two rows of the same time the database chooses, here the first.
unfoldable pub latest_of : List OperationalTurn → Option OperationalTurn
latest_of [] = none
latest_of (t ∷ ts) = elim (latest_of ts) [
  | none ↦ some t
  | some u ↦ if is_later u.created_at t.created_at then some u else some t
]

-- `latest_running_turn`
unfoldable pub latest_running_turn : String → History → Option OperationalTurn
latest_running_turn session_id h =
    latest_of (filter (λ t. t.session_id == session_id && is_running t.status) h.turns)

abbrev pub fields_of : Dict Value → Fields
fields_of [] = no_fields
fields_of ((k, v) ∷ d) = with_field k v (fields_of d)

abbrev pub items_of : List (Dict Value) → Items
items_of [] = no_items
items_of (d ∷ ds) = with_item (obj (fields_of d)) (items_of ds)

abbrev pub or_null : Option String → Value
or_null none = null
or_null (some s) = str s

abbrev pub receipt_status : ToolReceiptStatus → String
receipt_status ToolReceiptStatus.executed = "executed"
receipt_status ToolReceiptStatus.denied = "denied"
receipt_status ToolReceiptStatus.escalated = "escalated"
receipt_status ToolReceiptStatus.failed = "failed"

abbrev pub receipt_event : ToolReceiptStatus → String
receipt_event ToolReceiptStatus.executed = "tool.completed"
receipt_event ToolReceiptStatus.denied = "tool.denied"
receipt_event ToolReceiptStatus.escalated = "tool.escalated"
receipt_event ToolReceiptStatus.failed = "tool.failed"

abbrev pub output_or_empty : Option (Dict Value) → Dict Value
output_or_empty none = []
output_or_empty (some d) = d

-- `project_tool_receipt`: `receipt_text` is the text of a receipt's identifier.
unfoldable pub project_tool_receipt :
    (ℕ → String)
    → String
    → String
    → Option String
    → ToolReceipt
    → Option String
    → Option String
    → String
    → Exec History EventRow
project_tool_receipt receipt_text session_id turn_id item_id receipt provider_call lbe_call now =
    append_event (record {
      session_id = session_id;
      turn_id = turn_id;
      event_type = receipt_event receipt.status;
      payload =
          ("tool_id", str receipt.tool_id)
          ∷ ("receipt_id", str (receipt_text receipt.receipt_id))
          ∷ ("status", str (receipt_status receipt.status))
          ∷ ("output", obj (fields_of (output_or_empty receipt.output)))
          ∷ ("evidence", arr (items_of receipt.evidence))
          ∷ ("error_code", or_null receipt.error_code)
          ∷ ("error_message", or_null receipt.error_message)
          ∷ [];
      item_id = item_id;
      provider_id = none;
      model_id = none;
      provider_request_id = none;
      provider_item_id = none;
      provider_tool_call_id = provider_call;
      lbe_call_id = lbe_call;
      runtime_operation_id = some receipt.operation_id;
      tool_receipt_id = some (receipt_text receipt.receipt_id);
      created_at = now;
    })

-- ORDER BY session_sequence
unfoldable pub insert_by_session : EventRow → List EventRow → List EventRow
insert_by_session r [] = r ∷ []
insert_by_session r (q ∷ rows) =
    let rest = insert_by_session r rows in
    if leb r.session_sequence q.session_sequence then r ∷ q ∷ rows else q ∷ rest

unfoldable pub rows_of_session : String → List EventRow → List EventRow
rows_of_session id [] = []
rows_of_session id (r ∷ rows) =
    let rest = rows_of_session id rows in if of_session id r then insert_by_session r rest else rest

-- `events_for_session`
abbrev pub events_for_session : String → History → List EventRow
events_for_session id h = rows_of_session id h.events
