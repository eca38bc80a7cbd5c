-- ===== src/History/Errors.antt =====
-- Projecting an error event ends a turn, and projecting events out of order leaves it open
-- (provider_event_history.py).
use lbe_ci_validation.History.{
  EventRow, History, OperationalTurn, TurnStatus, append_event, close_turns, finalize_turn,
  find_turn, get_turn, is_found, is_running, or_status,
}
use lbe_ci_validation.History.Provider.{
  NormalizedModelEvent, close_turn, is_ended, is_usage, operational_event, persist_events,
  project_from, project_provider_events, terminal_status, turn_error,
}
use lbe_ci_validation.History.Valid.{IsValid, append_event-turns, count_id}
use lbe_ci_validation.History.Returns.{
  append_event-is_ok, count_running-found, is_ordered, is_some-or_status, persist_events-turns,
}
use lbe_ci_validation.History.Replay.{find_turn-close, find_turn-turn_id}
use lbe_ci_validation.Base.{
  Bool-cases, List, Option, Raised, String, [], ap, err, false, inl, inr, is_ok, none, not,
  of_is_ok, ok, refl, some, subst, sym, true, value_error, ◌&&◌, ◌∙◌, ◌∷◌, ◌≡◌, ◌≤◌,
}

abbrev pub out_of_order : Raised
out_of_order = value_error "provider events cannot follow a terminal event"

persist_events-out_of_order :
    (turn : OperationalTurn) (now : String) (events : List NormalizedModelEvent)
    (terminal : Option TurnStatus) (h : History)
    → is_found (find_turn turn.turn_id h.turns) ≡ true
    → is_ordered events (is_ended terminal) ≡ false
    → (persist_events turn now events terminal h).0 ≡ err out_of_order
unfolding persist_events is_ordered
persist_events-out_of_order turn now [] terminal h found bad = absurd (cc bad)
persist_events-out_of_order turn now (e ∷ es) terminal h found bad =
    elim (Bool-cases (is_ended terminal && not (is_usage e.event_type))) [
      | inl early ↦ rw early refl
      | inr good ↦
          let appended = append_event (operational_event turn now e) in
          let (row, made) = of_is_ok (appended h).0 (append_event-is_ok turn now e h found) in
          let next = or_status (terminal_status e.event_type) terminal in
          let rest =
            persist_events-out_of_order turn now es next (appended h).1
              (rw (append_event-turns (operational_event turn now e) h) found)
              (ap (is_ordered es) (is_some-or_status (terminal_status e.event_type) terminal)
                ∙ rw good at bad) in
          rw (good, made, rest) refl
    ]

project_from-out_of_order :
    (now : String) (events : List NormalizedModelEvent) (turn : OperationalTurn) (h : History)
    → find_turn turn.turn_id h.turns ≡ some turn
    → is_running turn.status ≡ true
    → is_ordered events false ≡ false
    → project_from now events (some turn) h
      ≡ (err out_of_order, (persist_events turn now events none h).1)
unfolding project_from
project_from-out_of_order now events turn h found live bad =
    rw (live, persist_events-out_of_order turn now events none h (rw found refl) bad) refl

-- The turn as it fails.
abbrev pub failed_turn : OperationalTurn → String → OperationalTurn
failed_turn turn now = record turn { status = TurnStatus.failed; finalized_at = some now }

module _ (now : String) (turn : OperationalTurn) (live : is_running turn.status ≡ true) where
  persist_events-error :
      (event : NormalizedModelEvent) (h : History) (row : EventRow)
      → event.event_type ≡ turn_error
      → (append_event (operational_event turn now event) h).0 ≡ ok row
      → persist_events turn now (event ∷ []) none h ≡ (
        ok (row ∷ [], some TurnStatus.failed),
        (append_event (operational_event turn now event) h).1,
      )
  unfolding persist_events terminal_status
  persist_events-error event h row type made = rw (made, type) refl

  finalize_turn-open :
      (s : TurnStatus) (h : History)
      → find_turn turn.turn_id h.turns ≡ some turn
      → count_id turn.turn_id h.turns ≤ 1
      → finalize_turn turn.turn_id s now h ≡ (
        ok (record turn { status = s; finalized_at = some now }),
        record h { turns = close_turns turn.turn_id s now h.turns },
      )
  unfolding finalize_turn
  finalize_turn-open s h found one =
      rw
        (
          count_running-found turn.turn_id h.turns turn found live one,
          find_turn-close turn.turn_id s now h.turns turn found live,
        )
        refl

  close_turn-failed :
      (rows : List EventRow) (h : History)
      → find_turn turn.turn_id h.turns ≡ some turn
      → count_id turn.turn_id h.turns ≤ 1
      → (is_ok (close_turn turn now (rows, some TurnStatus.failed) h).0 ≡ true)
        × (get_turn turn.turn_id (close_turn turn now (rows, some TurnStatus.failed) h).1
            ≡ some (failed_turn turn now))
  unfolding close_turn
  close_turn-failed rows h found one =
      rw (finalize_turn-open TurnStatus.failed h found one)
        (refl, find_turn-close turn.turn_id TurnStatus.failed now h.turns turn found live)

  project_from-error :
      (event : NormalizedModelEvent) (h : History)
      → event.event_type ≡ turn_error
      → find_turn turn.turn_id h.turns ≡ some turn
      → count_id turn.turn_id h.turns ≤ 1
      → (is_ok (project_from now (event ∷ []) (some turn) h).0 ≡ true)
        × (get_turn turn.turn_id (project_from now (event ∷ []) (some turn) h).1
            ≡ some (failed_turn turn now))
  unfolding project_from
  project_from-error event h type found one =
      let appended = append_event (operational_event turn now event) in
      let (row, made) =
        of_is_ok (appended h).0 (append_event-is_ok turn now event h (rw found refl)) in
      let same = append_event-turns (operational_event turn now event) h in
      rw (live, persist_events-error event h row type made)
        (close_turn-failed (row ∷ []) (appended h).1 (rw same found) (rw same one))

  -- Projecting one error event onto an open turn.
  pub project_provider_events-error :
      (id : String) (event : NormalizedModelEvent) (h : History)
      → event.event_type ≡ turn_error
      → get_turn id h ≡ some turn
      → IsValid h
      → (is_ok (project_provider_events id now (event ∷ []) h).0 ≡ true)
        × (get_turn id (project_provider_events id now (event ∷ []) h).1
            ≡ some (failed_turn turn now))
  unfolding project_provider_events
  project_provider_events-error id event h type found v =
      let same = find_turn-turn_id id h.turns turn found in
      let own : find_turn turn.turn_id h.turns ≡ some turn =
        subst (λ k. find_turn k h.turns ≡ some turn) (sym same) found in
      let (returned, ended) = project_from-error event h type own (v.keyed turn.turn_id) in
      rw found (
        returned,
        subst
            (λ k.
              get_turn k (project_from now (event ∷ []) (some turn) h).1
              ≡ some (failed_turn turn now))
            same ended,
      )

  -- Projecting events that are out of order leaves the turn open.
  pub project_provider_events-out_of_order :
      (id : String) (events : List NormalizedModelEvent) (h : History)
      → get_turn id h ≡ some turn
      → is_ordered events false ≡ false
      → ((project_provider_events id now events h).0 ≡ err out_of_order)
        × (get_turn id (project_provider_events id now events h).1 ≡ some turn)
  unfolding project_provider_events
  project_provider_events-out_of_order id events h found bad =
      let same = find_turn-turn_id id h.turns turn found in
      let own : find_turn turn.turn_id h.turns ≡ some turn =
        subst (λ k. find_turn k h.turns ≡ some turn) (sym same) found in
      let kept = (persist_events-turns turn now h.turns events none).step h refl in
      rw (found, project_from-out_of_order now events turn h own live bad) (refl, rw kept found)
