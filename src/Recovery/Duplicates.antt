-- ===== src/Recovery/Duplicates.antt =====
-- A completed operation is not run again (recovery.py over the memory store).
use lbe_ci_validation.Recovery.{Recovery, check_arguments}
use lbe_ci_validation.Recovery.Loop.{run_with_recovery, stopped_error}
use lbe_ci_validation.Recovery.State.{Place, store_ledger}
use lbe_ci_validation.Recovery.Stored.{IsReadable, StoredWorld, load-persist_recovery_state}
use lbe_ci_validation.Recovery.Once.{IsStored, blocked_after}
use lbe_ci_validation.Base.{String, err, false, is_blank, ok, raise_if-ok, strip, subst, ◌==◌, ◌≡◌}

module _ {W : Type 0} (place : Place W) (project : strip place.project ≡ place.project) where
  abbrev Readable : String → String → StoredWorld place → Type 0
  Readable task_id operation_id s =
      ((task_id == "") ≡ false) × IsReadable place task_id operation_id s

  store_ledger-IsStored : IsStored (store_ledger place) Readable
  store_ledger-IsStored = record {
    loads = λ task_id s w stripped saved (named, readable).
        load-persist_recovery_state place task_id s w.0 w.1 project stripped named saved readable;
  }

  -- On the memory store, for a stripped project id: after a run that returned, every run for the same
  -- task and operation, under any policy and with any arguments that are accepted, raises at once and
  -- leaves the store and the world as they are, if at the end of the first run at most 500 records match
  -- the query for the state, each of them passes the checks of a record unchanged, and only one of them
  -- is a recovery state of the operation.
  pub run_with_recovery_once :
      {A B : Type 0} (r : Recovery (StoredWorld place) A) (again : Recovery (StoredWorld place) B)
      (s : StoredWorld place) (a : A)
      → (run_with_recovery (store_ledger place) r s).0 ≡ ok a
      → strip again.task_id ≡ strip r.task_id
      → strip again.operation_id ≡ strip r.operation_id
      → check_arguments again ≡ ok tt
      → IsReadable place
          (strip r.task_id)
          (strip r.operation_id)
          (run_with_recovery (store_ledger place) r s).1
      → let s' = (run_with_recovery (store_ledger place) r s).1 in
        run_with_recovery (store_ledger place) again s'
        ≡ (err (stopped_error "operation already completed; duplicate execution is blocked"), s')
  unfolding check_arguments
  run_with_recovery_once r again s a returned task operation accepted readable =
      let blank = (raise_if-ok (is_blank again.task_id) _ _ accepted).0 in
      blocked_after (store_ledger place) store_ledger-IsStored r again s a returned task operation
        accepted (subst (λ t. (t == "") ≡ false) task blank, readable)
