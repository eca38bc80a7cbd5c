-- ===== src/History/Keeps.antt =====
-- Projecting a provider's events keeps a history valid (provider_event_history.py).
use lbe_ci_validation.Base.Exec.Preserves.{
  Preserves, Preserves-bind, Preserves-if, Preserves-lift, Preserves-pure, Preserves-raise,
}
use lbe_ci_validation.History.{
  EventRow, OperationalTurn, TurnStatus, get_turn, is_running, or_status,
}
use lbe_ci_validation.History.Provider.{
  NormalizedModelEvent, close_turn, is_ended, is_usage, operational_event, persist_events,
  project_from, project_provider_events, terminal_status,
}
use lbe_ci_validation.History.Valid.{IsValid, append_event-IsValid, finalize_turn-IsValid}
use lbe_ci_validation.Base.{
  List, Option, String, [], none, not, raise_if, some, value_error, ◌&&◌, ◌∷◌,
}

module _ (turn : OperationalTurn) (now : String) where
  close_turn-IsValid :
      (out : List EventRow × Option TurnStatus) → Preserves IsValid (close_turn turn now out)
  unfolding close_turn
  close_turn-IsValid (rows, none) = Preserves-pure rows
  close_turn-IsValid (rows, some s) =
      Preserves-bind (finalize_turn-IsValid turn.turn_id s now) λ t. Preserves-pure rows

  persist_events-IsValid :
      (events : List NormalizedModelEvent) (terminal : Option TurnStatus)
      → Preserves IsValid (persist_events turn now events terminal)
  unfolding persist_events
  persist_events-IsValid [] terminal = Preserves-pure ([], terminal)
  persist_events-IsValid (e ∷ es) terminal =
      Preserves-bind
        (Preserves-lift (
          raise_if (is_ended terminal && not (is_usage e.event_type))
            (value_error "provider events cannot follow a terminal event")))
        λ done. Preserves-bind (append_event-IsValid (operational_event turn now e)) λ row.
          Preserves-bind
            (persist_events-IsValid es (or_status (terminal_status e.event_type) terminal))
            λ out. Preserves-pure (row ∷ out.0, out.1)

project_from-IsValid :
    (now : String) (events : List NormalizedModelEvent) (o : Option OperationalTurn)
    → Preserves IsValid (project_from now events o)
unfolding project_from
project_from-IsValid now events none = Preserves-raise _
project_from-IsValid now events (some turn) =
    Preserves-if (not (is_running turn.status)) (Preserves-raise _) (
      Preserves-bind (persist_events-IsValid turn now events none)
        λ out. close_turn-IsValid turn now out)

pub project_provider_events-IsValid :
    (id now : String) (events : List NormalizedModelEvent)
    → Preserves IsValid (project_provider_events id now events)
unfolding project_provider_events
project_provider_events-IsValid id now events = record {
  step = λ h v. (project_from-IsValid now events (get_turn id h)).step h v;
}
