-- ===== src/History/Returns.antt =====
-- When a provider's events can be projected (provider_event_history.py).
use lbe_ci_validation.History.{
  EventRow, History, OperationalEvent, OperationalTurn, TurnStatus, append_event, count_running,
  finalize_turn, find_turn, get_turn, is_found, is_running, or_status,
}
use lbe_ci_validation.History.Provider.{
  ModelEventType, NormalizedModelEvent, close_turn, is_ended, is_usage, message_completed,
  message_delta, operational_event, persist_events, project_from, project_provider_events,
  reasoning_summary_completed, reasoning_summary_delta, terminal_status, tool_call_arguments_delta,
  tool_call_completed, tool_call_started, turn_cancelled, turn_completed, turn_error,
  turn_incomplete, turn_refused, turn_requires_continuation, turn_requires_tool, turn_started,
  type_name, usage_updated,
}
use lbe_ci_validation.History.Replay.{find_turn-close, find_turn-turn_id}
use lbe_ci_validation.History.Valid.{IsValid, append_event-turns, count_id}
use lbe_ci_validation.Base.{
  Bool, Bool-cases, List, Option, String, [], ap, arith, false, inl, inr, is_blank, is_ok, is_some,
  none, not, of_is_ok, raise_if, refl, some, some-inj, strip, subst, sym, true, value_error, ◌&&◌,
  ◌==◌, ◌||◌, ◌∙◌, ◌∷◌, ◌≡◌, ◌≤◌,
}
-- Only updates of usage follow a terminal event.
use lbe_ci_validation.Base.Exec.{is_ok-bind}
use lbe_ci_validation.Base.Exec.Preserves.{
  Preserves, Preserves-bind, Preserves-lift, Preserves-pure,
}

unfoldable pub is_ordered : List NormalizedModelEvent → Bool → Bool
is_ordered [] ended = true
is_ordered (e ∷ es) ended =
    not (ended && not (is_usage e.event_type))
    && is_ordered es (is_some (terminal_status e.event_type) || ended)

is_blank-type_name : (ty : ModelEventType) → is_blank (type_name ty) ≡ false
unfolding strip
is_blank-type_name turn_started = refl
is_blank-type_name message_delta = refl
is_blank-type_name message_completed = refl
is_blank-type_name reasoning_summary_delta = refl
is_blank-type_name reasoning_summary_completed = refl
is_blank-type_name tool_call_started = refl
is_blank-type_name tool_call_arguments_delta = refl
is_blank-type_name tool_call_completed = refl
is_blank-type_name usage_updated = refl
is_blank-type_name turn_requires_tool = refl
is_blank-type_name turn_requires_continuation = refl
is_blank-type_name turn_completed = refl
is_blank-type_name turn_incomplete = refl
is_blank-type_name turn_refused = refl
is_blank-type_name turn_cancelled = refl
is_blank-type_name turn_error = refl

pub append_event-is_ok :
    (turn : OperationalTurn) (now : String) (event : NormalizedModelEvent) (h : History)
    → is_found (find_turn turn.turn_id h.turns) ≡ true
    → is_ok (append_event (operational_event turn now event) h).0 ≡ true
unfolding append_event operational_event
append_event-is_ok turn now event h found = rw (is_blank-type_name event.event_type, found) refl

pub is_some-or_status :
    (a b : Option TurnStatus) → is_ended (or_status a b) ≡ (is_some a || is_ended b)
is_some-or_status none b = refl
is_some-or_status (some s) b = refl

persist_events-is_ok :
    (turn : OperationalTurn) (now : String) (events : List NormalizedModelEvent)
    (terminal : Option TurnStatus) (h : History)
    → is_found (find_turn turn.turn_id h.turns) ≡ true
    → is_ok (persist_events turn now events terminal h).0 ≡ is_ordered events (is_ended terminal)
unfolding persist_events is_ordered
persist_events-is_ok turn now [] terminal h found = refl
persist_events-is_ok turn now (e ∷ es) terminal h found =
    elim (Bool-cases (is_ended terminal && not (is_usage e.event_type))) [
      | inl bad ↦ rw bad refl
      | inr good ↦
          let appended = append_event (operational_event turn now e) in
          let (row, made) = of_is_ok (appended h).0 (append_event-is_ok turn now e h found) in
          rw (good, made)
            (is_ok-bind
                (persist_events turn now es (or_status (terminal_status e.event_type) terminal))
                (appended h).1 _ (λ out h. refl)
              ∙ persist_events-is_ok turn now es _ (appended h).1
                  (rw (append_event-turns (operational_event turn now e) h) found)
              ∙ ap (is_ordered es) (is_some-or_status (terminal_status e.event_type) terminal))
    ]

count_running-le : (id : String) (ts : List OperationalTurn) → count_running id ts ≤ count_id id ts
unfolding count_running count_id
count_running-le id [] = omega arith
count_running-le id (t ∷ ts) = ground (arith, count_running-le id ts)

pub count_running-found :
    (id : String) (ts : List OperationalTurn) (t : OperationalTurn)
    → find_turn id ts ≡ some t
    → is_running t.status ≡ true
    → count_id id ts ≤ 1
    → count_running id ts ≡ 1
unfolding find_turn count_running count_id
count_running-found id [] t found live one = absurd (cc found)
count_running-found id (u ∷ ts) t found live one = elim (Bool-cases (u.turn_id == id)) [
  | inl e ↦
      let same = some-inj (rw e at found) in
      let u_live : is_running u.status ≡ true =
        subst (λ x. is_running x.status ≡ true) (sym same) live in
      rw (e, u_live) (ground (arith, rw e at one, count_running-le id ts))
  | inr e ↦ rw e (count_running-found id ts t (rw e at found) live (rw e at one))
]

module _ (turn : OperationalTurn) (now : String) (ts : List OperationalTurn) where
  append_event-keeps : (e : OperationalEvent) → Preserves (λ h. h.turns ≡ ts) (append_event e)
  append_event-keeps e = record { step = λ h same. append_event-turns e h ∙ same }

  pub persist_events-turns :
      (events : List NormalizedModelEvent) (terminal : Option TurnStatus)
      → Preserves (λ h. h.turns ≡ ts) (persist_events turn now events terminal)
  unfolding persist_events
  persist_events-turns [] terminal = Preserves-pure ([], terminal)
  persist_events-turns (e ∷ es) terminal =
      Preserves-bind
        (Preserves-lift (
          raise_if (is_ended terminal && not (is_usage e.event_type))
            (value_error "provider events cannot follow a terminal event")))
        λ done. Preserves-bind (append_event-keeps (operational_event turn now e)) λ row.
          Preserves-bind
            (persist_events-turns es (or_status (terminal_status e.event_type) terminal))
            λ out. Preserves-pure (row ∷ out.0, out.1)

  pub finalize_turn-is_ok :
      (s : TurnStatus) (h : History)
      → find_turn turn.turn_id h.turns ≡ some turn
      → is_running turn.status ≡ true
      → count_id turn.turn_id h.turns ≤ 1
      → is_ok (finalize_turn turn.turn_id s now h).0 ≡ true
  unfolding finalize_turn
  finalize_turn-is_ok s h found live one =
      rw
        (
          count_running-found turn.turn_id h.turns turn found live one,
          find_turn-close turn.turn_id s now h.turns turn found live,
        )
        refl

  close_turn-is_ok :
      (out : List EventRow × Option TurnStatus) (h : History)
      → find_turn turn.turn_id h.turns ≡ some turn
      → is_running turn.status ≡ true
      → count_id turn.turn_id h.turns ≤ 1
      → is_ok (close_turn turn now out h).0 ≡ true
  unfolding close_turn
  close_turn-is_ok (rows, none) h found live one = refl
  close_turn-is_ok (rows, some s) h found live one =
      is_ok-bind (finalize_turn turn.turn_id s now) h _ (λ t made. refl)
      ∙ finalize_turn-is_ok s h found live one

abbrev pub is_open : Option OperationalTurn → Bool
is_open none = false
is_open (some t) = is_running t.status

project_from-is_ok :
    (id now : String) (events : List NormalizedModelEvent) (h : History)
    (o : Option OperationalTurn)
    → IsValid h
    → get_turn id h ≡ o
    → is_ok (project_from now events o h).0 ≡ (is_open o && is_ordered events false)
unfolding project_from
project_from-is_ok id now events h none v found = refl
project_from-is_ok id now events h (some turn) v found =
    elim (Bool-cases (is_running turn.status)) [
      | inr ended ↦ rw ended refl
      | inl live ↦
          let same = find_turn-turn_id id h.turns turn found in
          let own : find_turn turn.turn_id h.turns ≡ some turn =
            subst (λ k. find_turn k h.turns ≡ some turn) (sym same) found in
          let kept = (persist_events-turns turn now h.turns events none).step h refl in
          rw live (
            is_ok-bind (persist_events turn now events none) h (close_turn turn now) (λ out made.
              close_turn-is_ok turn now h.turns out (persist_events turn now events none h).1
                (rw kept own) live (rw kept (v.keyed turn.turn_id)))
            ∙ persist_events-is_ok turn now events none h (rw own refl))
    ]

-- In a valid history, the events of a provider are projected without an exception exactly if the turn
-- is there and runs, and nothing but updates of usage follows a terminal event.
pub project_provider_events-is_ok :
    (id now : String) (events : List NormalizedModelEvent) (h : History)
    → IsValid h
    → is_ok (project_provider_events id now events h).0
      ≡ (is_open (get_turn id h) && is_ordered events false)
unfolding project_provider_events
project_provider_events-is_ok id now events h v =
    project_from-is_ok id now events h (get_turn id h) v refl
