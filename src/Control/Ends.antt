-- ===== src/Control/Ends.antt =====
-- A provider that fails ends its turn (provider_turn_runtime.py).
use lbe_ci_validation.History.{EventRow, History, OperationalTurn, get_turn, is_running}
use lbe_ci_validation.History.Provider.{NormalizedModelEvent, project_provider_events}
use lbe_ci_validation.History.Valid.{IsValid}
use lbe_ci_validation.History.Errors.{
  failed_turn, project_provider_events-error, project_provider_events-out_of_order,
}
use lbe_ci_validation.History.Returns.{is_ordered}
use lbe_ci_validation.Base.{
  Bool, Bool-cases, List, Raised, Result, String, [], ap, arith, contains, err, exception, false,
  if◌then◌else◌, inl, inr, interrupt, is_blank, is_ok, not, ok, refl, some, strip, sym, true, ◌&&◌,
  ◌∙◌, ◌∷◌, ◌≡◌,
}
use lbe_ci_validation.Control.Runtime.{
  Adapter, RuntimeWorld, error_event, project_reported, recover, report_error, run,
}
use lbe_ci_validation.Base.Exec.{Exec, bind-pure_state, is_ok-bind, pure}
use lbe_ci_validation.History.Keeps.{project_provider_events-IsValid}
use lbe_ci_validation.Control.{on_history}
use lbe_ci_validation.History.Reported.{make_event, not_text}

-- The run of an adapter fails: it raises an exception, or it reports events out of order.
abbrev pub fails : Result (List NormalizedModelEvent) → Bool
fails (err (interrupt name)) = false
fails (err (exception name message)) = true
fails (ok events) = not (is_ordered events false)

not-true : (b : Bool) → not b ≡ true → b ≡ false
not-true true h = sym h
not-true false h = refl

-- The texts that every event of the runtime names are not blank.
abbrev pub is_named : {W : Type 0} → Adapter W → String → Bool
is_named adapter provider_id = not (is_blank provider_id) && not (is_blank adapter.model)

error_event-made :
    (provider_id model name : String)
    → is_blank provider_id ≡ false
    → is_blank model ≡ false
    → make_event (error_event provider_id model name) ≡ ok (error_event provider_id model name)
unfolding make_event error_event strip
error_event-made provider_id model name p m = rw (p, m) refl

error_event-refused :
    (provider_id model name : String)
    → (not (is_blank provider_id) && not (is_blank model)) ≡ false
    → (e : Raised) × (make_event (error_event provider_id model name) ≡ err e)
unfolding make_event error_event
error_event-refused provider_id model name h = elim (Bool-cases (is_blank provider_id)) [
  | inl p ↦ (not_text "provider_id", rw p refl)
  | inr p ↦
      let m : is_blank model ≡ true = ground (arith, h, p) in (not_text "model_id", rw (p, m) refl)
]

module _ {W : Type 0} (adapter : Adapter W) (provider_id now turn_id : String)
    (turn : OperationalTurn) (live : is_running turn.status ≡ true) where
  -- The history after the run, and whether the run returned.
  abbrev EndsFailed : Result (Unit {0}) × (History × RuntimeWorld W) → Type 0
  EndsFailed out =
      (is_ok out.0 ≡ is_named adapter provider_id)
      × (get_turn turn_id out.1.0
          ≡ some (if is_named adapter provider_id then failed_turn turn now else turn))

  report_error-EndsFailed :
      (name : String) (s : History × RuntimeWorld W)
      → get_turn turn_id s.0 ≡ some turn
      → IsValid s.0
      → EndsFailed (report_error adapter provider_id now turn_id name s)
  unfolding report_error
  report_error-EndsFailed name s found v = elim (Bool-cases (is_named adapter provider_id)) [
    | inr n ↦
        let bad_event = error_event-refused provider_id adapter.model name n in
        rw (n, bad_event.1) (refl, found)
    | inl n ↦
        let event = error_event provider_id adapter.model name in
        let project : Exec (History × RuntimeWorld W) (List EventRow) =
          on_history (project_provider_events turn_id now (event ∷ [])) in
        let (returned, ended) =
          project_provider_events-error now turn live turn_id event s.0 refl found v in
        rw
          (
            n,
            error_event-made provider_id adapter.model name (ground (arith, n)) (ground (arith, n)),
          )
          (
            is_ok-bind project s (λ rows. pure tt) (λ rows h. refl) ∙ returned,
            ap (λ (t : History × RuntimeWorld W). get_turn turn_id t.0)
                  (bind-pure_state project s (λ rows. tt))
                ∙ ended,
          )
  ]

  project_reported-EndsFailed :
      (out : Result (List NormalizedModelEvent)) (s : History × RuntimeWorld W)
      → get_turn turn_id s.0 ≡ some turn
      → IsValid s.0
      → contains turn_id s.1.cancelled_turns ≡ false
      → fails out ≡ true
      → EndsFailed (project_reported adapter provider_id now turn_id out s)
  unfolding project_reported recover
  project_reported-EndsFailed (err (interrupt name)) s found v kept bad = absurd (cc bad)
  project_reported-EndsFailed (err (exception name message)) s found v kept bad =
      rw kept (report_error-EndsFailed name s found v)
  project_reported-EndsFailed (ok events) s found v kept bad =
      let (raised, open_still) =
        project_provider_events-out_of_order now turn live turn_id events s.0 found
          (not-true (is_ordered events false) bad) in
      let h = (project_provider_events turn_id now events s.0).1 in
      rw (kept, raised, kept)
        (report_error-EndsFailed "ValueError" (h, s.1) open_still
          ((project_provider_events-IsValid turn_id now events).step s.0 v))

-- If the adapter raises an exception or reports an event after a terminal one, and the turn runs and is
-- not cancelled by then, then in a valid history: where the identifiers of the provider and of its model
-- are not blank, the run returns and the turn has failed, with nothing else of it but the time of its
-- end changed; where one of them is blank, the run raises and the turn is as it was, still running.
pub run-failed :
    {W : Type 0} (adapter : Adapter W) (provider_id now turn_id text : String)
    (turn : OperationalTurn) (h : History) (w : RuntimeWorld W)
    → IsValid h
    → get_turn turn_id h ≡ some turn
    → is_running turn.status ≡ true
    → contains turn_id (adapter.complete text w).1.cancelled_turns ≡ false
    → fails (adapter.complete text w).0 ≡ true
    → (is_ok (run adapter provider_id now turn_id text (h, w)).0 ≡ is_named adapter provider_id)
      × (get_turn turn_id (run adapter provider_id now turn_id text (h, w)).1.0
          ≡ some (if is_named adapter provider_id then failed_turn turn now else turn))
unfolding run
run-failed adapter provider_id now turn_id text turn h w v found live kept bad =
    project_reported-EndsFailed adapter provider_id now turn_id turn live
      (adapter.complete text w).0 _ found v kept bad
