-- ===== src/Recovery/State.antt =====
-- `load_recovery_state` and `persist_recovery_state` of recovery.py on the memory store.
use lbe_ci_validation.Base.{
  Bool, Fields, List, Option, Raised, Result, String, Value, [], arr, concat, err, false, flag,
  if◌then◌else◌, nat_eq, no_fields, no_items, none, not, null, num, obj, ok, some, str, true,
  type_error, value_error, with_field, with_item, ℕ, ◌&&◌, ◌==◌, ◌>>=◌, ◌∷◌,
}
use lbe_ci_validation.Base.Exec.{Exec}
use lbe_ci_validation.Memory.{MemoryRecord, command_result, validation_result, verified}
use lbe_ci_validation.Memory.Promoter.{CandidateClaim, promote}
use lbe_ci_validation.Memory.Store.{Tables}
use lbe_ci_validation.Memory.Store.Records.{upsert}
use lbe_ci_validation.Memory.Store.Query.{Query, query}
use lbe_ci_validation.Recovery.{
  FailureClass, Ledger, RecoveryState, cancellation, class_name, missing_dependency,
  permission_denial, provider_failure, scope_conflict, stale_workspace, temporary_tool_failure,
  timed_out, unknown, validation_failure,
}

-- `_subject`
abbrev pub subject_of : String → String
subject_of operation_id = concat "recovery:" operation_id

-- `value.get(key)`
unfoldable pub get_field : String → Fields → Option Value
get_field key no_fields = none
get_field key (with_field k v rest) =
    let found = get_field key rest in if k == key then some v else found

-- `bool(value)` of what JSON gives back.
abbrev pub is_truthy : Value → Bool
is_truthy (obj no_fields) = false
is_truthy (obj (with_field k v rest)) = true
is_truthy (arr no_items) = false
is_truthy (arr (with_item v rest)) = true
is_truthy (str s) = not (s == "")
is_truthy (num n) = not (nat_eq n 0)
is_truthy (flag b) = b
is_truthy null = false

abbrev pub truth_of : Option Value → Bool
truth_of none = false
truth_of (some v) = is_truthy v

abbrev pub value_or_null : Option Value → Value
value_or_null none = null
value_or_null (some v) = v

abbrev pub not_a_number : String → Raised
not_a_number type = type_error (
    concat "int() argument must be a string, a bytes-like object or a real number, not '"
      (concat type "'"))

-- `int(value)`, given what it makes of a text.
abbrev pub int_of : (String → Result ℕ) → Value → Result ℕ
int_of read_int (num n) = ok n
int_of read_int (flag b) = ok (if b then 1 else 0)
int_of read_int (str s) = read_int s
int_of read_int (obj dict) = err (not_a_number "dict")
int_of read_int (arr list) = err (not_a_number "list")
int_of read_int null = err (not_a_number "NoneType")

-- `int(value.get("attempt_count", 0))`
abbrev pub count_of : (String → Result ℕ) → Option Value → Result ℕ
count_of read_int none = ok 0
count_of read_int (some v) = int_of read_int v

abbrev pub failure_classes : List FailureClass
failure_classes =
    provider_failure ∷ timed_out ∷ temporary_tool_failure ∷ validation_failure ∷ permission_denial
    ∷ stale_workspace ∷ scope_conflict ∷ missing_dependency ∷ cancellation ∷ unknown ∷ []

abbrev pub find_class : String → List FailureClass → Option FailureClass
find_class name [] = none
find_class name (c ∷ cs) =
    let found = find_class name cs in if class_name c == name then some c else found

-- `FailureClass(…)`; the text of the error begins with the value.
abbrev pub class_of : Option FailureClass → Result (Option FailureClass)
class_of none = err (value_error " is not a valid FailureClass")
class_of (some c) = ok (some c)

-- `FailureClass(failure) if failure else None`
abbrev pub failure_of : Value → Result (Option FailureClass)
failure_of (str s) = if s == "" then ok none else class_of (find_class s failure_classes)
failure_of v = if is_truthy v then class_of none else ok none

-- The state that is read from the value of a record.
unfoldable pub read_state : (String → Result ℕ) → String → Value → Result RecoveryState
unfolding get_field
read_state read_int operation_id (obj dict) = do
  attempts ← count_of read_int (get_field "attempt_count" dict)
  failure ← failure_of (value_or_null (get_field "last_failure_class" dict))
  ok (record {
    operation_id = operation_id;
    attempt_count = attempts;
    last_failure_class = failure;
    terminal = truth_of (get_field "terminal" dict);
    succeeded = truth_of (get_field "succeeded" dict);
    last_error = value_or_null (get_field "last_error" dict);
  })
read_state read_int operation_id v =
    err (value_error "corrupted recovery state: value must be an object")

abbrev pub is_wanted : String → MemoryRecord Value → Bool
is_wanted operation_id q = q.subject == subject_of operation_id && q.predicate == "recovery_state"

-- The loop over the records.
unfoldable pub first_state :
    (String → Result ℕ) → String → List (MemoryRecord Value) → Result (Option RecoveryState)
unfolding read_state
first_state read_int operation_id [] = ok none
first_state read_int operation_id (q ∷ qs) =
    let rest = first_state read_int operation_id qs in
    if not (is_wanted operation_id q)
    then rest
    else (do state ← read_state read_int operation_id q.value; ok (some state))

abbrev pub class_value : Option FailureClass → Value
class_value none = null
class_value (some c) = str (class_name c)

-- The value that `persist_recovery_state` stores.
abbrev pub state_value : RecoveryState → Value
state_value s = obj (
    with_field "operation_id" (str s.operation_id) (
      with_field "attempt_count" (num s.attempt_count) (
        with_field "last_failure_class" (class_value s.last_failure_class) (
          with_field "terminal" (flag s.terminal) (
            with_field "succeeded" (flag s.succeeded)
              (with_field "last_error" s.last_error no_fields))))))

abbrev pub verified_results : String → String → Query
verified_results project task_id = record {
  project = project;
  statuses = verified ∷ [];
  task = some task_id;
  rule = none;
  types = some (validation_result ∷ []);
  path = none;
  limit = 500;
}

-- What the store needs beside its tables: the paths, `int` of a text, the workspace, and the identifiers
-- and times that are drawn.
pub record Place (W : Type 0) : Type 0 where
  pub resolve : String → String
  pub read_int : String → Result ℕ
  pub project : String
  pub root : String
  pub memory_id : W → String
  pub now : W → String
  pub tick : W → W

module _ {W : Type 0} (place : Place W) where
  unfoldable pub load_recovery_state :
      String → String → Tables Value × W → Result (Option RecoveryState)
  unfolding query first_state
  load_recovery_state task_id operation_id (t, w) = do
    records ← query place.resolve (place.now w) (verified_results place.project task_id) t
    first_state place.read_int operation_id records

  abbrev pub claim_of : String → RecoveryState → CandidateClaim Value
  claim_of task_id s = record {
    subject = subject_of s.operation_id;
    predicate = "recovery_state";
    value = state_value s;
    memory_type = validation_result;
    source_type = command_result;
    project_workspace_id = place.project;
    canonical_workspace_root = place.root;
    task_id = some task_id;
    rule_id = none;
    source_path = none;
    source_hash = none;
    source_commit = none;
    source_message_id = none;
    authority = 9;
    validation_method = some "bounded-runtime-recovery";
    validated = true;
  }

  unfoldable pub persist_recovery_state :
      String → RecoveryState → Exec (Tables Value × W) (Unit {0})
  unfolding promote upsert
  persist_recovery_state task_id s (t, w) =
      let (out, t') =
        promote (upsert (place.now w)) place.resolve (place.memory_id w) (place.now w)
          (claim_of task_id s) t in
      (out >>= λ kept. ok tt, (t', place.tick w))

  abbrev pub store_ledger : Ledger (Tables Value × W)
  store_ledger = record { load = load_recovery_state; save = persist_recovery_state }
