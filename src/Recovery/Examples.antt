-- ===== src/Recovery/Examples.antt =====
-- The theorems of recovery at concrete inputs: a world with one saved state and a count of calls.
use lbe_ci_validation.Recovery.Untrimmed.{AreStripped, untrimmed_never_loaded}
use lbe_ci_validation.Memory.Promoter.{claimed_record, classify, classify_by}
use lbe_ci_validation.Memory.{MemoryRecord, canonical_root, make_record, rstrip_slashes}
use lbe_ci_validation.Memory.Store.Records.{
  find_current, find_memory, identity, same_identity, update_memory,
}
use lbe_ci_validation.Memory.Store.Query.{matches}
use lbe_ci_validation.Memory.Store.Query.Order.{In, here, there}
use lbe_ci_validation.Memory.Store.{Tables}
use lbe_ci_validation.Recovery.State.{
  Place, load_recovery_state, persist_recovery_state, store_ledger, verified_results,
}
use lbe_ci_validation.Recovery.Stored.{IsReadable, StoredWorld, row_of}
use lbe_ci_validation.Recovery.{
  FailureClass, Ledger, Recovery, RecoveryState, RetryPolicy, check_policy, permission_denial,
  timed_out,
}
use lbe_ci_validation.Recovery.Loop.{
  conclude, persist, rounds, run_with_recovery, stopped_error, text_value,
}
use lbe_ci_validation.Recovery.Attempts.{IsCounted, run_with_recovery-Adds}
use lbe_ci_validation.Recovery.Once.{completed_state}
use lbe_ci_validation.Recovery.Forbidden.{conclude_forbidden}
use lbe_ci_validation.Base.{
  Option, Raised, Result, Value, [], arith, err, exception, false, filter, forward_slashes,
  interrupt, length, none, ok, refl, some, strip, subst, suc, sym, texts_eq, true, zero, ℕ, ◌+◌,
  ◌∙◌, ◌∷◌, ◌≡◌, ◌≤◌,
}
use lbe_ci_validation.Recovery.Duplicates.{run_with_recovery_once}

abbrev Cell : Type 0
Cell = Option RecoveryState × ℕ

abbrev cell_ledger : Ledger Cell
cell_ledger = record {
  load = λ task operation w. ok w.0;
  save = λ task s w. (ok tt, (some s, w.1));
}

-- The first call times out, every later one returns its number.
abbrev second_time : Cell → Result ℕ × Cell
second_time (s, zero) = (err (exception "TimeoutError" ""), (s, 1))
second_time (s, suc n) = (ok (n + 2), (s, n + 2))

abbrev timeouts_only : RetryPolicy
timeouts_only = record {
  max_attempts = 3;
  retryable = timed_out ∷ [];
  require_idempotent = true;
  require_evidence = false;
}

abbrev recovery_of : (Raised → FailureClass) → Recovery Cell ℕ
recovery_of classify = record {
  operation = second_time;
  policy = timeouts_only;
  task_id = "task";
  operation_id = " op ";
  idempotent = true;
  is_cancelled = none;
  has_evidence = none;
  classify = classify;
  pause = λ n w. (ok tt, w);
}

abbrev retried : Recovery Cell ℕ
retried = recovery_of (λ e. timed_out)

abbrev denied : Recovery Cell ℕ
denied = recovery_of (λ e. permission_denial)

counts : Cell → ℕ
counts w = w.1

retried-IsCounted : IsCounted counts cell_ledger retried
unfolding counts
retried-IsCounted = record {
  saves = λ task s. record { bound = λ w. omega arith };
  calls = record { bound = one_more };
  cancels = λ m h. absurd (cc h);
  supplies = λ f h n c e. absurd (cc h);
  pauses = λ n. record { bound = λ w. omega arith };
}
  where
    one_more : (w : Cell) → counts (second_time w).1 ≤ counts w + 1
    one_more (s, zero) = omega arith
    one_more (s, suc n) = omega arith

run_with_recovery-Adds_example : counts (run_with_recovery cell_ledger retried (none, 0)).1 ≤ 3
unfolding counts
run_with_recovery-Adds_example =
    run_with_recovery-Adds cell_ledger retried retried-IsCounted none (none, 0) refl

abbrev place : Place ℕ
place = record {
  resolve = λ path. path;
  read_int = λ text. ok 0;
  project = "p";
  root = "/w";
  memory_id = λ n. "m";
  now = λ n. "1";
  tick = λ n. n;
}

abbrev empty : Tables Value
empty = record { memories = []; checkpoints = []; sessions = []; tasks = [] }

-- The same operation on a world with a memory store.
abbrev stored_of : (Raised → FailureClass) → Recovery (StoredWorld place) ℕ
stored_of classify = record {
  operation = λ s. let (out, left) = second_time (none, s.1) in (out, (s.0, left.1));
  policy = timeouts_only;
  task_id = "task";
  operation_id = " op ";
  idempotent = true;
  is_cancelled = none;
  has_evidence = none;
  classify = classify;
  pause = λ n s. (ok tt, s);
}

abbrev ended : StoredWorld place
unfolding run_with_recovery
ended = (run_with_recovery (store_ledger place) (stored_of (λ e. timed_out)) (empty, 0)).1

abbrev final_row : MemoryRecord Value
unfolding claimed_record canonical_root strip
final_row = row_of place "task" (completed_state "op" 2) 1

ended-memories : ended.0.memories ≡ final_row ∷ []
unfolding ended final_row load_recovery_state persist_recovery_state classify classify_by
    make_record find_current find_memory same_identity texts_eq identity update_memory text_value
ended-memories = refl

is_final : (q : MemoryRecord Value) → In q ended.0.memories → q ≡ final_row
is_final q i = only (subst (In q) ended-memories i)
  where
    only : {q : MemoryRecord Value} → In q (final_row ∷ []) → q ≡ final_row
    only here = refl
    only (there i) = elim i [ ]

ended-IsReadable : IsReadable place "task" "op" ended
unfolding final_row make_record strip canonical_root rstrip_slashes forward_slashes
ended-IsReadable = record {
  few =
      subst (λ qs. length (filter (matches (verified_results "p" "task")) qs) ≤ 500)
        (sym ended-memories) (omega arith);
  valid = λ q i m. subst (λ x. make_record (λ path. path) "1" x ≡ ok x) (sym (is_final q i)) refl;
  one = λ p q i j h k. is_final p i ∙ sym (is_final q j);
}

run_with_recovery_once_example :
    run_with_recovery (store_ledger place) (stored_of (λ e. permission_denial)) ended
    ≡ (err (stopped_error "operation already completed; duplicate execution is blocked"), ended)
unfolding ended run_with_recovery strip load_recovery_state persist_recovery_state classify
    classify_by make_record claimed_record find_current find_memory same_identity texts_eq identity
run_with_recovery_once_example =
    run_with_recovery_once place refl (stored_of (λ e. timed_out))
      (stored_of (λ e. permission_denial)) (empty, 0) 2 refl refl refl refl ended-IsReadable

abbrev untrimmed : Place ℕ
untrimmed = record place { project = " p " }

untrimmed_never_loaded_example :
    AreStripped (persist_recovery_state untrimmed "task" (completed_state "op" 1) (empty, 0)).1.0
    × (load_recovery_state untrimmed "task" "op"
          (persist_recovery_state untrimmed "task" (completed_state "op" 1) (empty, 0)).1
        ≡ ok none)
unfolding strip
untrimmed_never_loaded_example =
    untrimmed_never_loaded untrimmed "task" "task" "op" (completed_state "op" 1) (empty, 0) refl tt

conclude_forbidden_example :
    conclude cell_ledger denied 1 (rounds cell_ledger denied 2 1) (err (interrupt "E")) (none, 1)
    ≡ (
      err (interrupt "E"),
      (persist cell_ledger denied 1 (some permission_denial) true false (some "E") (none, 1)).1,
    )
unfolding check_policy persist
conclude_forbidden_example =
    conclude_forbidden cell_ledger denied timeouts_only 1 (rounds cell_ledger denied 2 1)
      (interrupt "E") (none, 1) refl refl refl
