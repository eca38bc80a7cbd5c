-- ===== src/Memory/Completion/Contracts.antt =====
-- How a completion contract is kept (memory/completion_contracts.py).
use lbe_ci_validation.Base.Exec.{Exec, lift, pure, ◌>>=◌, ◌>>◌}
use lbe_ci_validation.Memory.{canonical_root}
use lbe_ci_validation.Memory.Completion.{
  CompletionTables, StoredContract, StoredRequirement, check_owner, find_contract, load_contract,
  make_requirement, same_requirements,
}
use lbe_ci_validation.Memory.Store.{load_session_state}
use lbe_ci_validation.Runtime.Completion.{has_duplicate}
use lbe_ci_validation.Base.{
  List, Option, String, [], err, exception, if◌then◌else◌, is_blank, is_empty, is_some, map, none,
  not, ok, raise_if, some, strip, traverse, value_error, ◌&&◌, ◌++◌, ◌==◌, ◌∷◌,
}

module _ {V D : Type 0} where
  -- The INSERT, refused by the primary key where the task has a contract under another project.
  unfoldable pub insert_contract : StoredContract → Exec (CompletionTables V D) StoredContract
  unfolding find_contract
  insert_contract c w =
      if is_some (find_contract c.session_id c.task_id w.contracts)
      then (
        err (exception "IntegrityError" "UNIQUE constraint failed: task_completion_contracts"),
        w,
      )
      else (ok c, record w { contracts = w.contracts ++ c ∷ [] })

  -- What `save` does once it knows whether there is a contract.
  unfoldable pub keep_contract :
      StoredContract → Option StoredContract → Exec (CompletionTables V D) StoredContract
  unfolding insert_contract same_requirements
  keep_contract c none = insert_contract c
  keep_contract c (some e) =
      if not (
        e.canonical_workspace_root == c.canonical_workspace_root
        && same_requirements e.requirements c.requirements)
      then lift
          (err (value_error "completion contract already exists and cannot be replaced implicitly"))
      else pure e

  -- `TaskCompletionContractPersistence.save`, at the time `now`.
  unfoldable pub save_contract :
      (String → String)
      → String
      → String
      → String
      → String
      → String
      → List StoredRequirement
      → Exec (CompletionTables V D) StoredContract
  unfolding check_owner make_requirement load_contract keep_contract
  save_contract resolve now session_id task_id project root requirements = do
    let clean_session = strip session_id
    let clean_task = strip task_id
    let clean_project = strip project
    let clean_root = canonical_root resolve root
    lift (raise_if (is_blank session_id) (value_error "session_id must not be empty"))
    lift (raise_if (is_blank task_id) (value_error "task_id must not be empty"))
    lift (raise_if (is_blank project) (value_error "project_workspace_id must not be empty"))
    session ← λ w. (load_session_state resolve clean_session w.store, w)
    lift (check_owner "completion contract" clean_session clean_project clean_root session)
    normalized ← lift (traverse make_requirement requirements)
    lift (
        raise_if (is_empty normalized)
          (value_error "completion contract requires at least one requirement"))
    lift (
        raise_if (has_duplicate (map (λ r. r.requirement_id) normalized))
          (value_error "completion requirement IDs must be unique"))
    existing ← λ w. (load_contract resolve clean_session clean_task clean_project w, w)
    keep_contract
        (record {
          session_id = clean_session;
          task_id = clean_task;
          project_workspace_id = clean_project;
          canonical_workspace_root = clean_root;
          requirements = normalized;
          created_at = now;
        })
        existing
