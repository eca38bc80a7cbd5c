-- ===== src/History/Replay.antt =====
-- Replaying the events of a turn gives the status that it was closed with
-- (provider_event_history.py, memory/operational_history.py).
use lbe_ci_validation.Base.Exec.{◌>>=◌}
use lbe_ci_validation.History.{
  EventRow, History, OperationalEvent, OperationalTurn, TurnStatus, append_event, close_turns,
  count_running, events_for_turn, finalize_turn, find_turn, get_turn, is_found, is_running,
  knows_item, last_status, max_of, of_turn, or_status, replay_answer, replay_table,
  replay_turn_status, rows_of_turn,
}
use lbe_ci_validation.History.Provider.{
  ModelEventType, NormalizedModelEvent, close_turn, message_completed, message_delta,
  operational_event, persist_events, project_from, project_provider_events,
  reasoning_summary_completed, reasoning_summary_delta, terminal_status, tool_call_arguments_delta,
  tool_call_completed, tool_call_started, turn_cancelled, turn_completed, turn_error,
  turn_incomplete, turn_refused, turn_requires_continuation, turn_requires_tool, turn_started,
  type_name, usage_updated,
}
use lbe_ci_validation.Base.{
  Bool-cases, List, Option, Option-cases, String, [], ap, arith, eq_iff, eq_refl, inl, inr,
  is_blank, leb, lookup, nat_eq, none, ok, refl, some, some-inj, subst, sym, true, ℕ, ◌&&◌, ◌++◌,
  ◌+◌, ◌==◌, ◌∙◌, ◌∷◌, ◌≡◌,
}
-- What replaying gives of a turn with this status.
use lbe_ci_validation.Base.Exec.Triples.{
  Triple, Triple-bind, Triple-given, Triple-lift, Triple-pure,
}
use lbe_ci_validation.History.Rows.{last_status-append, rows_of_turn-append}

abbrev pub replayed : TurnStatus → Option TurnStatus
replayed TurnStatus.running = none
replayed s = some s

replayed-running : (s : TurnStatus) → is_running s ≡ true → replayed s ≡ none
replayed-running s h = ground (arith, h)

lookup-type_name : (ty : ModelEventType) → lookup (type_name ty) replay_table ≡ terminal_status ty
unfolding lookup terminal_status
lookup-type_name turn_started = refl
lookup-type_name message_delta = refl
lookup-type_name message_completed = refl
lookup-type_name reasoning_summary_delta = refl
lookup-type_name reasoning_summary_completed = refl
lookup-type_name tool_call_started = refl
lookup-type_name tool_call_arguments_delta = refl
lookup-type_name tool_call_completed = refl
lookup-type_name usage_updated = refl
lookup-type_name turn_requires_tool = refl
lookup-type_name turn_requires_continuation = refl
lookup-type_name turn_completed = refl
lookup-type_name turn_incomplete = refl
lookup-type_name turn_refused = refl
lookup-type_name turn_cancelled = refl
lookup-type_name turn_error = refl

lookup-replayed :
    (k : String) (s : TurnStatus) → lookup k replay_table ≡ some s → replayed s ≡ some s
unfolding lookup
lookup-replayed k s h = ground (arith, h)

last_status-replayed :
    (rows : List EventRow) (s : TurnStatus) → last_status rows ≡ some s → replayed s ≡ some s
unfolding last_status
last_status-replayed [] s h = absurd (cc h)
last_status-replayed (r ∷ rows) s h = elim (Option-cases (last_status rows)) [
  | inl e ↦ lookup-replayed r.event.event_type s (rw e at h)
  | inr (u, e) ↦ last_status-replayed rows s (e ∙ rw e at h)
]

abbrev last_of : String → History → Option TurnStatus
last_of id h = last_status (events_for_turn id h)

last_of-append :
    (e : EventRow) (rows : List EventRow)
    → leb (max_of (of_turn e.event.turn_id) (λ r. r.turn_sequence) rows) e.turn_sequence ≡ true
    → last_status (rows_of_turn e.event.turn_id (rows ++ e ∷ []))
      ≡ or_status
          (lookup e.event.event_type replay_table)
          (last_status (rows_of_turn e.event.turn_id rows))
last_of-append e rows bound =
    rw (rows_of_turn-append e.event.turn_id e rows (eq_refl e.event.turn_id) bound)
      (last_status-append e (rows_of_turn e.event.turn_id rows))

leb-suc : (n : ℕ) → leb n (n + 1) ≡ true
leb-suc n = ground arith

append_event-lem :
    (e : OperationalEvent) (h : History) (row : EventRow)
    → (append_event e h).0 ≡ ok row
    → ((append_event e h).1.turns ≡ h.turns)
      × (last_of e.turn_id (append_event e h).1
          ≡ or_status (lookup e.event_type replay_table) (last_of e.turn_id h))
unfolding append_event
append_event-lem e h row made = elim (Bool-cases (is_blank e.event_type)) [
  | inl b ↦ absurd (cc (rw b at made))
  | inr b ↦
      elim (Bool-cases (is_found (find_turn e.turn_id h.turns) && knows_item h.items e.item_id)) [
        | inl k ↦ rw (b, k) (refl, last_of-append _ h.events (leb-suc _))
        | inr k ↦ absurd (cc (rw (b, k) at made))
      ]
]

pub find_turn-close :
    (id : String) (s : TurnStatus) (now : String) (ts : List OperationalTurn) (t : OperationalTurn)
    → find_turn id ts ≡ some t
    → is_running t.status ≡ true
    → find_turn id (close_turns id s now ts)
      ≡ some (record t { status = s; finalized_at = some now })
unfolding find_turn close_turns
find_turn-close id s now [] t found live = absurd (cc found)
find_turn-close id s now (u ∷ ts) t found live = elim (Bool-cases (u.turn_id == id)) [
  | inl e ↦
      let same = some-inj (rw e at found) in
      rw (e, subst (λ x. is_running x.status ≡ true) (sym same) live, e)
        (ap {A = OperationalTurn} (λ x. some (record x { status = s; finalized_at = some now }))
          same)
  | inr e ↦ rw (e, e) (find_turn-close id s now ts t (rw e at found) live)
]

pub find_turn-turn_id :
    (id : String) (ts : List OperationalTurn) (t : OperationalTurn)
    → find_turn id ts ≡ some t
    → t.turn_id ≡ id
unfolding find_turn
find_turn-turn_id id [] t found = absurd (cc found)
find_turn-turn_id id (u ∷ ts) t found = elim (Bool-cases (u.turn_id == id)) [
  | inl e ↦ subst (λ x. x.turn_id ≡ id) (some-inj (rw e at found)) ((eq_iff u.turn_id id).0 e)
  | inr e ↦ find_turn-turn_id id ts t (rw e at found)
]

-- The last terminal event of the turn is that of its status.
abbrev Replays : String → History → Type 0
Replays id h = (t : OperationalTurn) × (get_turn id h ≡ some t) × (last_of id h ≡ replayed t.status)

module _ (turn : OperationalTurn) (now : String) (live : is_running turn.status ≡ true) where
  -- The turn is open, and its events replay to this.
  abbrev IsOpen : Option TurnStatus → History → Type 0
  IsOpen terminal h = (get_turn turn.turn_id h ≡ some turn) × (last_of turn.turn_id h ≡ terminal)

  append-Triple :
      (event : NormalizedModelEvent) (terminal : Option TurnStatus)
      → Triple
          (IsOpen terminal)
          (append_event (operational_event turn now event))
          (λ row. IsOpen (or_status (terminal_status event.event_type) terminal))
  unfolding operational_event
  append-Triple event terminal = record {
    has = λ h q row made.
        let (turns, last) = append_event-lem (operational_event turn now event) h row made in
        (
          ap (find_turn turn.turn_id) turns ∙ q.0,
          rw last (rw (lookup-type_name event.event_type, q.1) refl),
        );
  }

  persist_events-Triple :
      (events : List NormalizedModelEvent) (terminal : Option TurnStatus)
      → Triple (IsOpen terminal) (persist_events turn now events terminal) (λ out. IsOpen out.1)
  unfolding persist_events
  persist_events-Triple [] terminal = Triple-pure ([], terminal) (λ h q. q)
  persist_events-Triple (event ∷ events) terminal = Triple-bind (Triple-lift _) λ done.
      Triple-given λ passed. Triple-bind (append-Triple event terminal) λ row.
        Triple-bind (persist_events-Triple events _)
          λ out. Triple-pure (row ∷ out.0, out.1) (λ h q. q)

  finalize-Triple :
      (s : TurnStatus)
      → Triple (IsOpen (some s)) (finalize_turn turn.turn_id s now) (λ t. Replays turn.turn_id)
  unfolding finalize_turn
  finalize-Triple s = record {
    has = λ h q t made. elim (Bool-cases (nat_eq (count_running turn.turn_id h.turns) 1)) [
      | inl e ↦
          let closed = find_turn-close turn.turn_id s now h.turns turn q.0 live in
          rw (e, closed) (_, closed, q.1 ∙ sym (last_status-replayed _ s q.1))
      | inr e ↦ absurd (cc (rw e at made))
    ];
  }

  close_turn-Triple :
      (rows : List EventRow) (terminal : Option TurnStatus)
      → Triple
          (IsOpen terminal)
          (close_turn turn now (rows, terminal))
          (λ out. Replays turn.turn_id)
  unfolding close_turn
  close_turn-Triple rows none =
      Triple-pure rows (λ h q. (turn, q.0, q.1 ∙ sym (replayed-running turn.status live)))
  close_turn-Triple rows (some s) = Triple-bind (finalize-Triple s) λ t. Triple-pure rows (λ h q. q)

project_from-Replays :
    (id now : String) (events : List NormalizedModelEvent) (h : History) (rows : List EventRow)
    (o : Option OperationalTurn)
    → get_turn id h ≡ o
    → last_of id h ≡ none
    → (project_from now events o h).0 ≡ ok rows
    → Replays id (project_from now events o h).1
unfolding project_from
project_from-Replays id now events h rows none found fresh done = absurd (cc done)
project_from-Replays id now events h rows (some turn) found fresh done =
    elim (Bool-cases (is_running turn.status)) [
      | inl live ↦
          let same = find_turn-turn_id id h.turns turn found in
          let all_of =
            Triple-bind (persist_events-Triple turn now live events none)
              λ out. close_turn-Triple turn now live out.0 out.1 in
          let opened : IsOpen turn now live none h =
            subst (λ k. (get_turn k h ≡ some turn) × (last_of k h ≡ none)) (sym same)
              (found, fresh) in
          rw live (
            subst
              (λ k. Replays k ((persist_events turn now events none >>= close_turn turn now) h).1)
              same (all_of.has h opened rows (rw live at done)))
      | inr ended ↦ absurd (cc (rw ended at done))
    ]

-- The turn is in the history, and replaying its events gives its status, or fails while it is running.
abbrev pub IsReplayed : String → History → Type 0
IsReplayed id h =
    (t : OperationalTurn) × (get_turn id h ≡ some t)
    × (replay_turn_status id h ≡ replay_answer (replayed t.status))

-- If no stored event of a turn ends it and a provider's events are projected into its history without
-- an exception, then the turn is in the history, and replaying its stored events, in their stored
-- order, gives the status that the turn has, or fails if the turn is still running.
pub project_provider_events-IsReplayed :
    (id now : String) (events : List NormalizedModelEvent) (h : History) (rows : List EventRow)
    → last_status (events_for_turn id h) ≡ none
    → (project_provider_events id now events h).0 ≡ ok rows
    → IsReplayed id (project_provider_events id now events h).1
unfolding project_provider_events replay_turn_status
project_provider_events-IsReplayed id now events h rows fresh done =
    let all_of = project_from-Replays id now events h rows (get_turn id h) refl fresh done in
    (all_of.0, all_of.1, ap replay_answer all_of.2)
