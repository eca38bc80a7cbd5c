-- ===== src/Memory/Store/Records.antt =====
-- The records of the workspace memory (memory/store.py). The unique index on the identity of a row
-- needs no refusal here: no operation breaks it.
use lbe_ci_validation.Base.Exec.{Exec, ◌>>=◌}
use lbe_ci_validation.Memory.{
  MemoryRecord, MemoryType, ValidationStatus, checkpoint, contradicted, decision, failure_pattern,
  historical_observation, is_verified, make_record, source_name, stale, superseded, task_constraint,
  unverified, user_preference, validation_result, verified, workspace_fact,
}
use lbe_ci_validation.Memory.Store.{Tables, map_option}
use lbe_ci_validation.Base.{
  Bool, List, Option, Raised, Result, String, [], concat, contains, err, exception, false,
  if◌then◌else◌, is_some, key_error, nat_eq, none, not, ok, some, texts_eq, true, ℕ, ◌&&◌, ◌++◌,
  ◌+◌, ◌==◌, ◌∷◌,
}

abbrev pub type_text : MemoryType → String
type_text workspace_fact = "workspace_fact"
type_text task_constraint = "task_constraint"
type_text decision = "decision"
type_text failure_pattern = "failure_pattern"
type_text validation_result = "validation_result"
type_text checkpoint = "checkpoint"
type_text user_preference = "user_preference"
type_text historical_observation = "historical_observation"

abbrev pub status_text : ValidationStatus → String
status_text verified = "verified"
status_text unverified = "unverified"
status_text stale = "stale"
status_text contradicted = "contradicted"
status_text superseded = "superseded"

abbrev pub is_superseded : ValidationStatus → Bool
is_superseded superseded = true
is_superseded _ = false

-- COALESCE(…, '')
abbrev pub or_blank : Option String → String
or_blank none = ""
or_blank (some s) = s

abbrev pub foreign_key_failed : Raised
foreign_key_failed = exception "IntegrityError" "FOREIGN KEY constraint failed"

module _ {V : Type 0} where
  -- The columns of idx_workspace_memory_identity.
  unfoldable pub identity : MemoryRecord V → List String
  identity r =
      r.project_workspace_id
      ∷ or_blank r.task_id
      ∷ or_blank r.rule_id
      ∷ type_text r.memory_type
      ∷ r.subject
      ∷ r.predicate
      ∷ source_name r.source_type
      ∷ or_blank r.source_path
      ∷ or_blank r.source_message_id
      ∷ []

  -- The WHERE of `upsert`, but for the status.
  unfoldable pub same_identity : MemoryRecord V → MemoryRecord V → Bool
  same_identity r q = texts_eq (identity r) (identity q)

  abbrev pub is_current : MemoryRecord V → Bool
  is_current q = not (is_superseded q.validation_status)

  unfoldable pub find_current : MemoryRecord V → List (MemoryRecord V) → Option (MemoryRecord V)
  find_current r [] = none
  find_current r (q ∷ qs) = if same_identity r q && is_current q then some q else find_current r qs

  unfoldable pub find_memory : String → List (MemoryRecord V) → Option (MemoryRecord V)
  find_memory id [] = none
  find_memory id (q ∷ qs) = if q.memory_id == id then some q else find_memory id qs

  abbrev pub has_memory : String → List (MemoryRecord V) → Bool
  has_memory id qs = is_some (find_memory id qs)

  abbrev pub knows_memory : List (MemoryRecord V) → Option String → Bool
  knows_memory qs none = true
  knows_memory qs (some id) = has_memory id qs

  -- The UPDATE of `upsert` on one row.
  abbrev pub overwrite : MemoryRecord V → MemoryRecord V → MemoryRecord V
  overwrite r q = record q {
    canonical_workspace_root = r.canonical_workspace_root;
    value = r.value;
    source_hash = r.source_hash;
    source_commit = r.source_commit;
    authority = r.authority;
    validation_status = r.validation_status;
    validation_method = r.validation_method;
    validated_at = r.validated_at;
    confidence = r.confidence;
    updated_at = r.updated_at;
    superseded_by = r.superseded_by;
  }

  unfoldable pub update_memory :
      String → (MemoryRecord V → MemoryRecord V) → List (MemoryRecord V) → List (MemoryRecord V)
  update_memory id f [] = []
  update_memory id f (q ∷ qs) =
      let rest = update_memory id f qs in if q.memory_id == id then f q ∷ rest else q ∷ rest

  -- The record as `upsert` changes it where its identity is there already.
  abbrev pub renewed : String → MemoryRecord V → MemoryRecord V → MemoryRecord V
  renewed now q r = record r {
    memory_id = q.memory_id;
    created_at = q.created_at;
    updated_at = now;
  }

  unfoldable pub upsert_update :
      String → MemoryRecord V → MemoryRecord V → Exec (Tables V) (MemoryRecord V)
  upsert_update now q r w =
      let r' = renewed now q r in
      if not (knows_memory w.memories r.superseded_by)
      then (err foreign_key_failed, w)
      else (ok r', record w { memories = update_memory q.memory_id (overwrite r') w.memories })

  -- A row may refer to itself.
  unfoldable pub upsert_insert : MemoryRecord V → Exec (Tables V) (MemoryRecord V)
  upsert_insert r w =
      if has_memory r.memory_id w.memories
      then (
        err (exception "IntegrityError" "UNIQUE constraint failed: workspace_memory.memory_id"),
        w,
      )
      else if not (knows_memory (w.memories ++ r ∷ []) r.superseded_by)
      then (err foreign_key_failed, w)
      else (ok r, record w { memories = w.memories ++ r ∷ [] })

  unfoldable pub upsert : String → MemoryRecord V → Exec (Tables V) (MemoryRecord V)
  unfolding upsert_update upsert_insert
  upsert now r w = elim (find_current r w.memories) [
    | none ↦ upsert_insert r w
    | some q ↦ upsert_update now q r w
  ]

  -- UPDATE … WHERE memory_id IN (…) AND validation_status='verified', and its `rowcount`
  unfoldable pub make_stale : String → List String → List (MemoryRecord V) → List (MemoryRecord V)
  make_stale now ids [] = []
  make_stale now ids (q ∷ qs) =
      let rest = make_stale now ids qs in
      if contains q.memory_id ids && is_verified q.validation_status
      then record q { validation_status = stale; updated_at = now } ∷ rest
      else q ∷ rest

  unfoldable pub count_verified : List String → List (MemoryRecord V) → ℕ
  count_verified ids [] = 0
  count_verified ids (q ∷ qs) =
      let rest = count_verified ids qs in
      if contains q.memory_id ids && is_verified q.validation_status then rest + 1 else rest

  unfoldable pub mark_stale : String → List String → Exec (Tables V) ℕ
  mark_stale now ids w =
      (ok (count_verified ids w.memories), record w { memories = make_stale now ids w.memories })

  -- The UPDATE of `supersede`, and its `rowcount`.
  unfoldable pub count_other : String → String → List (MemoryRecord V) → ℕ
  count_other old new [] = 0
  count_other old new (q ∷ qs) =
      let rest = count_other old new qs in
      if q.memory_id == old && not (q.memory_id == new) then rest + 1 else rest

  abbrev pub superseded_as : String → String → MemoryRecord V → MemoryRecord V
  superseded_as now new q = record q {
    validation_status = superseded;
    superseded_by = some new;
    updated_at = now;
  }

  unfoldable pub supersede_old : String → String → MemoryRecord V → Exec (Tables V) (MemoryRecord V)
  supersede_old now old new w =
      if not (nat_eq (count_other old new.memory_id w.memories) 1)
      then (err (key_error (concat "memory not found or already superseded: " old)), w)
      else (
        ok new,
        record w { memories = update_memory old (superseded_as now new.memory_id) w.memories },
      )

  -- The two transactions of `supersede`.
  unfoldable pub supersede : String → String → MemoryRecord V → Exec (Tables V) (MemoryRecord V)
  unfolding upsert supersede_old
  supersede now old r = upsert now r >>= supersede_old now old

  module _ (resolve : String → String) where
    unfoldable pub get_memory : String → String → Tables V → Result (Option (MemoryRecord V))
    get_memory now id w = map_option (make_record resolve now) (find_memory id w.memories)
