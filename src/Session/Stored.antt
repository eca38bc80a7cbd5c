-- ===== src/Session/Stored.antt =====
-- The tasks of a session in the memory store (session_memory_runtime.py, memory/store.py): the store
-- meets what the runtimes ask of it.
use lbe_ci_validation.Memory.{canonical_root}
use lbe_ci_validation.Memory.Sessions.{TaskState, clean_task, make_task_state, optional_text_idem}
use lbe_ci_validation.Memory.Store.{
  Tables, find_task, load_session_task, map_option, put_task, save_session_task, some_result,
}
use lbe_ci_validation.Session.{Bridge, TaskStore}
use lbe_ci_validation.Base.{
  String, ap, false, is_blank, ok, ok-inj, raise_if-ok, refl, some, strip, strip_idem, subst, sym,
  ◌∙◌, ◌≡◌,
}
-- `load_task_status` and `store.save_session_task`.
use lbe_ci_validation.Session.Provisional.{IsKept, IsOwn, run_coding_reasoning_provisional}
use lbe_ci_validation.Memory.Store.Tasks.{find_task-put}
use lbe_ci_validation.Session.Reasoning.{ControllerOutcome, Response, run_coding_reasoning}
use lbe_ci_validation.Session.Finalize.{is_completed}

unfoldable pub stored_tasks : (V : Type 0) → (String → String) → Bridge → TaskStore (Tables V)
unfolding load_session_task save_session_task
stored_tasks V resolve bridge = record {
  load = λ task w. load_session_task resolve bridge.session_id task bridge.project_workspace_id w;
  save = save_session_task resolve;
}

-- A path that is resolved and cleaned stays so.
abbrev pub IsFixed : (String → String) → String → Type 0
IsFixed resolve path =
    canonical_root resolve (canonical_root resolve path) ≡ canonical_root resolve path

-- The texts of a bridge are stripped, and its root is fixed.
pub record IsClean (resolve : String → String) (bridge : Bridge) : Type 0 where
  pub session : strip bridge.session_id ≡ bridge.session_id
  pub project : strip bridge.project_workspace_id ≡ bridge.project_workspace_id
  pub root : IsFixed resolve bridge.workspace_root

module _ (resolve : String → String) where
  clean_task-built :
      (t built : TaskState)
      → make_task_state resolve t ≡ ok built
      → (is_blank t.session_id ≡ false)
        × (is_blank t.task_id ≡ false)
        × (is_blank t.project_workspace_id ≡ false)
        × (clean_task resolve t ≡ built)
  unfolding make_task_state
  clean_task-built t built h =
      let (s, h1) = raise_if-ok (is_blank t.session_id) _ _ h in
      let (k, h2) = raise_if-ok (is_blank t.task_id) _ _ h1 in
      let (p, h3) = raise_if-ok (is_blank t.project_workspace_id) _ _ h2 in (s, k, p, ok-inj h3)

  clean_task_idem :
      (t : TaskState)
      → IsFixed resolve t.canonical_workspace_root
      → clean_task resolve (clean_task resolve t) ≡ clean_task resolve t
  unfolding clean_task
  clean_task_idem t fixed = simp (fixed, strip_idem, optional_text_idem) refl

  -- A state that was built is built again as it is.
  make_task_state-clean :
      (t : TaskState) (time : String)
      → is_blank t.session_id ≡ false
      → is_blank t.task_id ≡ false
      → is_blank t.project_workspace_id ≡ false
      → IsFixed resolve t.canonical_workspace_root
      → make_task_state resolve (record (clean_task resolve t) { created_at = time })
        ≡ ok (record (clean_task resolve t) { created_at = time })
  unfolding make_task_state clean_task
  make_task_state-clean t time s k p fixed =
      simp (strip_idem, s, k, p, fixed, optional_text_idem) refl

  module _ (bridge : Bridge) (clean : IsClean resolve bridge) (t : TaskState)
      (own : IsOwn resolve bridge t) where
    own_keys :
        (t.session_id ≡ bridge.session_id) × (t.project_workspace_id ≡ bridge.project_workspace_id)
    unfolding clean_task
    own_keys =
        let same = (clean_task-built own.made t own.built).3 in
        (
          ap (λ (x : TaskState). x.session_id) (sym same) ∙ ap strip own.session ∙ clean.session,
          ap (λ (x : TaskState). x.project_workspace_id) (sym same)
              ∙ ap strip own.project
              ∙ clean.project,
        )

    -- The row of a saved state is built again as it is.
    rebuilt :
        (u : TaskState)
        → u ≡ record t { created_at = u.created_at }
        → make_task_state resolve u ≡ ok u
    rebuilt u row =
        let (s, k, p, same) = clean_task-built own.made t own.built in
        let fixed : IsFixed resolve own.made.canonical_workspace_root =
          subst (IsFixed resolve) (sym own.root) clean.root in
        let again = make_task_state-clean own.made u.created_at s k p fixed in
        subst (λ x. make_task_state resolve x ≡ ok x) (sym row)
          (subst
            (λ (x : TaskState).
              make_task_state resolve (record x { created_at = u.created_at })
              ≡ ok (record x { created_at = u.created_at }))
            same again)

  -- The memory store keeps what a bridge saves.
  pub stored_tasks-IsKept :
      (V : Type 0) (bridge : Bridge)
      → IsClean resolve bridge
      → IsKept resolve bridge (stored_tasks V resolve bridge)
  unfolding stored_tasks
  stored_tasks-IsKept V bridge clean = record {
    loads = λ t w own saves.
        let (u, found, row) = find_task-put t w.tasks in
        let (session, project) = own_keys bridge clean t own in
        (
          u,
          subst
              (λ k.
                map_option (make_task_state resolve)
                  (find_task k t.task_id bridge.project_workspace_id (put_task t w.tasks))
                ≡ ok (some u))
              session
              (subst
                (λ p.
                  map_option (make_task_state resolve)
                    (find_task t.session_id t.task_id p (put_task t w.tasks))
                  ≡ ok (some u))
                project (rw found (ap some_result (rebuilt bridge clean t own u row)))),
          ap (λ (x : TaskState). x.status) row,
        );
  }

-- With the memory store, a task that coding reasoning returns is never completed, whatever the controller
-- answers and does to the store, if the bridge's texts are stripped and its root is resolved.
pub run_coding_reasoning-stored :
    {V A : Type 0} (resolve : String → String) (bridge : Bridge) (now : String)
    (controller : String → String → Tables V → ControllerOutcome A × Tables V)
    (problem task_id : String) (w : Tables V) (r : Response A) (state : TaskState)
    → IsClean resolve bridge
    → (run_coding_reasoning resolve
        (stored_tasks V resolve bridge)
        bridge
        now
        controller
        problem
        task_id
        w).0
      ≡ ok (r, state)
    → is_completed state.status ≡ false
run_coding_reasoning-stored {V} resolve bridge now controller problem task_id w r state clean h =
    run_coding_reasoning_provisional resolve (stored_tasks V resolve bridge) bridge
      (stored_tasks-IsKept resolve V bridge clean) now controller problem task_id w r state h
