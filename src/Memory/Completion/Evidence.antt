-- ===== src/Memory/Completion/Evidence.antt =====
-- The evidence for the completion of a task (memory/completion_evidence.py).
use lbe_ci_validation.Base.Exec.{Exec, lift, ◌>>=◌, ◌>>◌}
use lbe_ci_validation.Memory.{canonical_root}
use lbe_ci_validation.Memory.Completion.{CompletionTables, StoredEvidence, check_owner}
use lbe_ci_validation.Memory.Completion.Candidate.{required, status_text}
use lbe_ci_validation.Memory.Sessions.{SessionState, clean_session, clean_task}
use lbe_ci_validation.Memory.Store.{load_session_state}
use lbe_ci_validation.Base.{
  Bool, List, Option, Result, String, [], err, if◌then◌else◌, is_later, map, none, not, ok, some,
  value_error, ◌&&◌, ◌++◌, ◌==◌, ◌||◌, ◌∷◌,
}

module _ {D : Type 0} where
  unfoldable pub find_evidence :
      String → String → String → List (StoredEvidence D) → Option (StoredEvidence D)
  find_evidence session_id task_id evidence_id [] = none
  find_evidence session_id task_id evidence_id (e ∷ es) =
      if e.session_id == session_id && e.task_id == task_id && e.evidence_id == evidence_id
      then some e
      else find_evidence session_id task_id evidence_id es

  -- ORDER BY created_at ASC, evidence_id ASC
  abbrev pub comes_before : StoredEvidence D → StoredEvidence D → Bool
  comes_before e f =
      is_later f.created_at e.created_at
      || (f.created_at == e.created_at && is_later f.evidence_id e.evidence_id)

  unfoldable pub insert_evidence :
      StoredEvidence D → List (StoredEvidence D) → List (StoredEvidence D)
  insert_evidence e [] = e ∷ []
  insert_evidence e (f ∷ fs) =
      let rest = insert_evidence e fs in if comes_before f e then f ∷ rest else e ∷ f ∷ fs

  unfoldable pub evidence_of :
      String → String → String → List (StoredEvidence D) → List (StoredEvidence D)
  unfolding insert_evidence
  evidence_of session_id task_id project [] = []
  evidence_of session_id task_id project (e ∷ es) =
      let rest = evidence_of session_id task_id project es in
      if e.session_id == session_id && e.task_id == task_id && e.project_workspace_id == project
      then insert_evidence e rest
      else rest

  -- `_identity_payload(e) == _identity_payload(f)`
  unfoldable pub same_payload : (D → String) → StoredEvidence D → StoredEvidence D → Bool
  same_payload details_json e f =
      e.project_workspace_id == f.project_workspace_id
      && e.canonical_workspace_root == f.canonical_workspace_root
      && e.kind == f.kind
      && status_text e.status == status_text f.status
      && e.source == f.source
      && e.producer_id == f.producer_id
      && e.operation_id == f.operation_id
      && details_json e.details == details_json f.details

module _ {D : Type 0} (resolve : String → String) where
  abbrev pub evidence_of_row : StoredEvidence D → StoredEvidence D
  evidence_of_row e = record e {
    canonical_workspace_root = canonical_root resolve e.canonical_workspace_root;
  }

module _ {V D : Type 0} (resolve : String → String) where
  -- `TaskCompletionEvidencePersistence.load`
  unfoldable pub load_evidence :
      String → String → String → Exec (CompletionTables V D) (List (StoredEvidence D))
  unfolding required evidence_of
  load_evidence session_id task_id project = do
    clean_session ← lift (required session_id "session_id")
    clean_task ← lift (required task_id "task_id")
    clean_project ← lift (required project "project_workspace_id")
    λ w. (
      ok (
          map (evidence_of_row resolve)
            (evidence_of clean_session clean_task clean_project w.evidence)),
      w,
    )

  -- What `save` does once it knows whether there is the evidence.
  unfoldable pub keep_evidence :
      (D → String)
      → StoredEvidence D
      → Option (StoredEvidence D)
      → Exec (CompletionTables V D) (StoredEvidence D)
  unfolding same_payload
  keep_evidence details_json e none w = (ok e, record w { evidence = w.evidence ++ e ∷ [] })
  keep_evidence details_json e (some f) w =
      if not (same_payload details_json (evidence_of_row resolve f) e)
      then (
        err (value_error "completion evidence already exists and cannot be replaced implicitly"),
        w,
      )
      else (ok (evidence_of_row resolve f), w)

  unfoldable pub session_of : String → Exec (CompletionTables V D) (Option SessionState)
  session_of session_id w = (load_session_state resolve session_id w.store, w)

  unfoldable pub keep_new :
      (D → String) → StoredEvidence D → Exec (CompletionTables V D) (StoredEvidence D)
  unfolding find_evidence keep_evidence
  keep_new details_json e w =
      keep_evidence details_json e (find_evidence e.session_id e.task_id e.evidence_id w.evidence) w

  -- `TaskCompletionEvidencePersistence.save`, of the evidence that its arguments give.
  unfoldable pub save_evidence :
      (D → String) → Result (StoredEvidence D) → Exec (CompletionTables V D) (StoredEvidence D)
  unfolding check_owner session_of keep_new
  save_evidence details_json given = do
    e ← lift given
    session ← session_of e.session_id
    lift (
        check_owner "completion evidence" e.session_id e.project_workspace_id
          e.canonical_workspace_root session)
    keep_new details_json e
