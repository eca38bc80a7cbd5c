-- ===== src/Memory/Store/Examples.antt =====
-- The theorems of the memory store at concrete inputs.
use lbe_ci_validation.Memory.{
  MemoryRecord, MemoryType, SourceType, TaskStatus, ValidationStatus, make_record,
}
use lbe_ci_validation.Memory.Sessions.{TaskState, make_task_state}
use lbe_ci_validation.Memory.Store.{Tables, load_session_task, map_option}
use lbe_ci_validation.Memory.Store.Records.{
  find_current, identity, overwrite, renewed, same_identity, supersede, update_memory,
}
use lbe_ci_validation.Memory.Store.Identity.{IsUnique, count_current, count_memory}
use lbe_ci_validation.Memory.Store.Supersede.{supersede-same_identity}
use lbe_ci_validation.Memory.Store.Tasks.{in_project, load-saved, saved, task_map}
use lbe_ci_validation.Memory.Store.Query.{Query, matches, query}
use lbe_ci_validation.Memory.Store.Query.Order.{Covers, In, query-selects}
use lbe_ci_validation.Memory.Store.Calls.{
  Calls, run_calls, run_calls-IsUnique, stale_records, supersede_record, upsert_record,
}
use lbe_ci_validation.Base.{
  All, List, String, [], arith, concat, err, key_error, length, max, min, none, refl, some,
  texts_eq, traverse, true, ◌∷◌, ◌≡◌, ◌≤◌,
}

abbrev fact : String → MemoryRecord String
fact id = record {
  memory_id = id;
  project_workspace_id = "w";
  canonical_workspace_root = "/workspace";
  memory_type = MemoryType.decision;
  subject = "parser";
  predicate = "is";
  value = id;
  source_type = SourceType.user_instruction;
  validation_status = ValidationStatus.unverified;
  confidence = 0;
  created_at = "1";
  updated_at = "1";
  task_id = none;
  rule_id = none;
  source_path = none;
  source_hash = none;
  source_commit = none;
  source_message_id = none;
  authority = 0;
  validation_method = none;
  validated_at = none;
  superseded_by = none;
}

abbrev one_fact : Tables String
one_fact = record { memories = fact "m1" ∷ []; checkpoints = []; sessions = []; tasks = [] }

abbrev calls : Calls String
calls =
    ("2", upsert_record (fact "m1"))
    ∷ ("3", stale_records ("m1" ∷ []))
    ∷ ("4", supersede_record "m1" (fact "m2"))
    ∷ []

empty-IsUnique : IsUnique {V = String} []
unfolding count_current count_memory
empty-IsUnique = record { identities = λ r. omega arith; ids = λ id. omega arith }

run_calls-IsUnique_example :
    IsUnique
      (run_calls calls
        (record { memories = []; checkpoints = []; sessions = []; tasks = [] })).memories
run_calls-IsUnique_example =
    run_calls-IsUnique calls (record { memories = []; checkpoints = []; sessions = []; tasks = [] })
      empty-IsUnique

supersede-same_identity_example : supersede "2" "m1" (fact "m2") one_fact ≡ (
  err (key_error (concat "memory not found or already superseded: " "m1")),
  record one_fact {
    memories =
        update_memory "m1" (overwrite (renewed "2" (fact "m1") (fact "m2"))) one_fact.memories;
  },
)
unfolding find_current same_identity texts_eq identity
supersede-same_identity_example =
    supersede-same_identity "2" (fact "m2") (fact "m1") one_fact refl refl

abbrev task : TaskState
task = record {
  session_id = "s";
  task_id = "t";
  project_workspace_id = "w";
  canonical_workspace_root = "/workspace";
  status = TaskStatus.running;
  created_at = "1";
  updated_at = "1";
  last_outcome = none;
}

load-saved_example :
    load_session_task {V = String}
      (λ path. path)
      "s"
      "t"
      "w"
      (record { memories = []; checkpoints = []; sessions = []; tasks = saved (task ∷ task ∷ []) })
    ≡ map_option
        (make_task_state (λ path. path))
        (in_project "w" (task_map (task ∷ task ∷ []) "s" "t"))
load-saved_example = load-saved String (λ path. path) (task ∷ task ∷ []) "s" "t" "w"

abbrev decisions : Query
decisions = record {
  project = "w";
  statuses = ValidationStatus.unverified ∷ [];
  task = none;
  rule = none;
  types = some (MemoryType.decision ∷ []);
  path = none;
  limit = 0;
}

query-selects_example :
    (rows : List (MemoryRecord String)) × (query (λ path. path) "2" decisions one_fact
      ≡ traverse (make_record (λ path. path) "2") rows)
    × All (λ r. In r one_fact.memories) rows
    × All (λ r. matches decisions r ≡ true) rows
    × (length rows ≤ max 1 (min decisions.limit 1000))
    × ((q : MemoryRecord String)
        → In q one_fact.memories
        → matches decisions q ≡ true
        → Covers (max 1 (min decisions.limit 1000)) q rows)
query-selects_example = query-selects (λ path. path) "2" decisions one_fact refl refl
