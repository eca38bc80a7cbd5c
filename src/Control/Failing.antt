-- ===== src/Control/Failing.antt =====
-- A provider that fails ends its turn (provider_turn_runtime.py).
use lbe_ci_validation.Base.Exec.Preserves.{
  Preserves, Preserves-bind, Preserves-lift, Preserves-pure,
}
use lbe_ci_validation.History.Reported.{make_event}
use lbe_ci_validation.History.Keeps.{project_provider_events-IsValid}
use lbe_ci_validation.History.{EventRow, History}
use lbe_ci_validation.History.Provider.{NormalizedModelEvent, project_provider_events}
use lbe_ci_validation.History.Valid.{IsValid}
use lbe_ci_validation.Base.{
  Bool-cases, List, Result, String, contains, err, exception, inl, inr, interrupt, ok,
}
use lbe_ci_validation.Control.Runtime.{
  Adapter, RuntimeWorld, cancel, error_event, non_streaming, project_reported, recover,
  report_error, run,
}
use lbe_ci_validation.Control.OneTurn.{KeepsValid, on_history-Preserves}

module _ {W : Type 0} (adapter : Adapter W) (provider_id now : String) where
  abbrev Valid : History × RuntimeWorld W → Type 0
  Valid s = IsValid s.0

  report_error-Valid :
      (turn_id name : String) → Preserves Valid (report_error adapter provider_id now turn_id name)
  unfolding report_error
  report_error-Valid turn_id name =
      Preserves-bind (Preserves-lift (make_event (error_event provider_id adapter.model name)))
        λ event.
          Preserves-bind (on_history-Preserves (project_provider_events-IsValid turn_id now _))
            λ rows. Preserves-pure tt

  recover-Valid :
      (turn_id : String) (out : Result (List EventRow))
      → Preserves Valid (recover adapter provider_id now turn_id out)
  unfolding recover
  recover-Valid turn_id (ok rows) = record { step = λ s v. v }
  recover-Valid turn_id (err (interrupt name)) = record { step = λ s v. v }
  recover-Valid turn_id (err (exception name message)) = record {
    step = λ s v. elim (Bool-cases (contains turn_id s.1.cancelled_turns)) [
      | inl e ↦ rw e v
      | inr e ↦ rw e ((report_error-Valid turn_id name).step s v)
    ];
  }

  project_reported-Valid :
      (turn_id : String) (out : Result (List NormalizedModelEvent))
      → Preserves Valid (project_reported adapter provider_id now turn_id out)
  unfolding project_reported
  project_reported-Valid turn_id (err e) = recover-Valid turn_id (err e)
  project_reported-Valid turn_id (ok events) = record {
    step = λ s v. elim (Bool-cases (contains turn_id s.1.cancelled_turns)) [
      | inl e ↦ rw e v
      | inr e ↦ rw e (
          (recover-Valid turn_id (project_provider_events turn_id now events s.0).0).step _
            ((project_provider_events-IsValid turn_id now events).step s.0 v))
    ];
  }

  pub non_streaming-KeepsValid : KeepsValid (non_streaming adapter provider_id now)
  unfolding run cancel
  non_streaming-KeepsValid = record {
    start = λ turn_id text. record {
      step = λ s v. (project_reported-Valid turn_id (adapter.complete text s.1).0).step _ v;
    };
    cancel = λ turn_id. record { step = λ s v. v };
  }
