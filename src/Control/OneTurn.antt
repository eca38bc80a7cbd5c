-- ===== src/Control/OneTurn.antt =====
-- At most one turn of a session runs (persistent_turn_control.py).
use lbe_ci_validation.Base.Exec.{Exec}
use lbe_ci_validation.Base.Exec.Preserves.{
  Preserves, Preserves-after, Preserves-bind, Preserves-gets, Preserves-if, Preserves-lift,
  Preserves-pure,
}
use lbe_ci_validation.History.{History, TurnStatus, get_turn, start_turn}
use lbe_ci_validation.History.Items.{latest_running_turn}
use lbe_ci_validation.History.Valid.{
  IsValid, append_event-IsValid, finalize_turn-IsValid, running_in, running_in-latest,
  start_turn-IsValid,
}
use lbe_ci_validation.Control.{
  ControlMethod, ControlRequest, ProviderTurnRuntime, cancel_live, cancel_request, close_cancelled,
  handle, is_active, is_implemented, on_history, on_session, on_turn, rejected, start_new,
  start_provider, start_request, text_param, turn_interrupt, turn_start, turn_steer,
}
use lbe_ci_validation.Base.{
  Bool, Bool-cases, List, Option, String, [], inl, inr, is_some, none, not, some, ◌∷◌, ◌≡◌, ◌≤◌,
}

pub on_history-Preserves :
    {W A : Type 0} {m : Exec History A}
    → Preserves IsValid m
    → Preserves (λ (s : History × W). IsValid s.0) (on_history m)
on_history-Preserves p = record { step = λ s v. p.step s.0 v }

-- A provider's runtime keeps the history valid, whatever it does.
pub record KeepsValid {W : Type 0} (runtime : ProviderTurnRuntime W) : Type 0 where
  pub start :
      (turn_id text : String)
      → Preserves (λ (s : History × W). IsValid s.0) (runtime.start turn_id text)
  pub cancel :
      (turn_id : String) → Preserves (λ (s : History × W). IsValid s.0) (runtime.cancel turn_id)

abbrev pub EachKeepsValid : {W : Type 0} → Option (ProviderTurnRuntime W) → Type 0
EachKeepsValid none = Unit
EachKeepsValid (some runtime) = KeepsValid runtime

module _ {W : Type 0} (known : String → Bool) (new_turn now : String) where
  abbrev Valid : History × W → Type 0
  Valid s = IsValid s.0

  start_provider-Valid :
      (provider : Option (ProviderTurnRuntime W))
      → EachKeepsValid provider
      → (turn_id text : String)
      → Preserves Valid (start_provider known provider new_turn now turn_id text)
  unfolding start_provider
  start_provider-Valid none keeps turn_id text = Preserves-pure tt
  start_provider-Valid (some runtime) keeps turn_id text = keeps.start turn_id text

  module _ (provider : Option (ProviderTurnRuntime W)) (keeps : EachKeepsValid provider)
      (request : ControlRequest) (session_id : String) where
    start_new-Valid :
        (s : History × W)
        → IsValid s.0 × (running_in session_id s.0.turns ≡ 0)
        → IsValid (start_new known provider new_turn now request session_id s).1.0
    unfolding start_new
    start_new-Valid =
        Preserves-after {P = Valid}
          (on_history (start_turn (known session_id) new_turn session_id now))
          (λ s v. start_turn-IsValid (known session_id) new_turn session_id now s.0 v)
          λ turn. Preserves-bind (Preserves-lift (text_param request "text")) λ text.
            Preserves-bind (on_history-Preserves (append_event-IsValid _)) λ row.
              Preserves-bind (start_provider-Valid provider keeps turn.turn_id text)
                λ done. Preserves-pure _

    start_request-Valid :
        Preserves Valid (start_request known provider new_turn now request session_id)
    unfolding start_request latest_running_turn
    start_request-Valid = record {
      step = λ s v. elim (Bool-cases (is_some (latest_running_turn session_id s.0))) [
        | inl e ↦ rw e v
        | inr e ↦ rw e (start_new-Valid s (v, running_in-latest session_id s.0.turns e))
      ];
    }

  module _ (request : ControlRequest) (session_id turn_id : String) where
    close_cancelled-Valid :
        (provider : Option (ProviderTurnRuntime W))
        → Preserves Valid (close_cancelled known provider new_turn now request session_id turn_id)
    unfolding close_cancelled
    close_cancelled-Valid provider =
        Preserves-bind (on_history-Preserves (append_event-IsValid _)) λ row.
          Preserves-bind
            (on_history-Preserves (finalize_turn-IsValid turn_id TurnStatus.cancelled now))
            λ t. Preserves-pure _

    cancel_request-Valid :
        (provider : Option (ProviderTurnRuntime W))
        → EachKeepsValid provider
        → Preserves Valid (cancel_request known provider new_turn now request session_id turn_id)
    unfolding cancel_request cancel_live
    cancel_request-Valid none keeps = close_cancelled-Valid none
    cancel_request-Valid (some runtime) keeps =
        Preserves-bind (Preserves-gets (λ s. runtime.is_running turn_id s.1)) λ live.
          Preserves-bind (Preserves-gets (λ s. runtime.supports_cancellation s.1)) λ supported.
            Preserves-if (not live) (close_cancelled-Valid (some runtime)) (
              Preserves-if (not supported)
                (Preserves-pure (
                  rejected request
                    "live provider cancellation is not available for this transport"))
                (Preserves-bind (keeps.cancel turn_id)
                  λ done. close_cancelled-Valid (some runtime)))

  module _ (provider : Option (ProviderTurnRuntime W)) (keeps : EachKeepsValid provider)
      (request : ControlRequest) where
    on_turn-Valid :
        (method : ControlMethod) (session_id turn_id : String)
        → Preserves Valid (on_turn known provider new_turn now method request session_id turn_id)
    unfolding on_turn
    on_turn-Valid turn_steer session_id turn_id =
        Preserves-bind (Preserves-lift (text_param request "text")) λ text.
          Preserves-bind (on_history-Preserves (append_event-IsValid _)) λ row. Preserves-pure _
    on_turn-Valid turn_interrupt session_id turn_id =
        Preserves-bind (on_history-Preserves (append_event-IsValid _)) λ row. Preserves-pure _
    on_turn-Valid _ session_id turn_id =
        cancel_request-Valid request session_id turn_id provider keeps

    on_session-Valid :
        (method : ControlMethod) (session_id : String)
        → Preserves Valid (on_session known provider new_turn now method request session_id)
    unfolding on_session
    on_session-Valid turn_start session_id = start_request-Valid provider keeps request session_id
    on_session-Valid method session_id =
        Preserves-bind (Preserves-lift (text_param request "turn_id")) λ turn_id.
          Preserves-bind (Preserves-gets (λ s. get_turn turn_id s.0)) λ turn.
            Preserves-if (not (is_active session_id turn))
              (Preserves-pure (rejected request "turn is not active for this session"))
              (on_turn-Valid method session_id turn_id)

    handle-Valid : Preserves Valid (handle known provider new_turn now request)
    unfolding handle
    handle-Valid =
        Preserves-if (not (is_implemented request.method))
          (Preserves-pure (rejected request "method is not implemented by persisted turn control"))
          (Preserves-bind (Preserves-lift (text_param request "session_id")) λ session_id.
            Preserves-if (not (known session_id))
              (Preserves-pure (rejected request "session not found"))
              (on_session-Valid request.method session_id))

-- A request, with the time at which it comes and the identifier drawn if it starts a turn.
pub record Received : Type 0 where
  pub request : ControlRequest
  pub new_turn : String
  pub now : String

-- The state after requests, answered or refused by an exception.
unfoldable pub after_requests :
    {W : Type 0}
    → (String → Bool)
    → Option (ProviderTurnRuntime W)
    → List Received
    → History × W
    → History × W
after_requests known provider [] s = s
after_requests known provider (r ∷ rs) s =
    after_requests known provider rs (handle known provider r.new_turn r.now r.request s).1

-- After any control requests, in any order and whatever they raise, from a valid history, every session
-- has at most one running turn, if the provider's runtime keeps the history valid.
pub after_requests-one_running :
    {W : Type 0} (known : String → Bool) (provider : Option (ProviderTurnRuntime W))
    (requests : List Received) (s : History × W) (session : String)
    → EachKeepsValid provider
    → IsValid s.0
    → running_in session (after_requests known provider requests s).0.turns ≤ 1
unfolding after_requests
after_requests-one_running known provider [] s session keeps v = v.one_running session
after_requests-one_running known provider (r ∷ rs) s session keeps v =
    after_requests-one_running known provider rs _ session keeps
      ((handle-Valid known r.new_turn r.now provider keeps r.request).step s v)
