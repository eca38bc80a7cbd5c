-- ===== src/Session/Provisional.antt =====
-- Coding reasoning never completes a task (runtime/completion_runtime.py).
use lbe_ci_validation.Base.Exec.Triples.{
  Triple, Triple-any, Triple-bind, Triple-given, Triple-if, Triple-lift, Triple-pure, Triple-raise,
}
use lbe_ci_validation.Base.Exec.{lift}
use lbe_ci_validation.Memory.Sessions.{TaskState, clean_task, make_task_state}
use lbe_ci_validation.Session.{Bridge, TaskStore, next_state, record_task_status}
use lbe_ci_validation.Base.{
  Option, String, ap, arith, eq_iff, exception, false, interrupt, is_blank, lookup, none, not, ok,
  ok-inj, raise_if, refl, some, strip, strip_idem, subst, sym, value_error, ◌==◌, ◌∙◌, ◌≡◌,
}
use lbe_ci_validation.Memory.{TaskStatus}
use lbe_ci_validation.Session.Reasoning.{
  ControllerOutcome, Response, after_reasoning, answered, answered_other, or_missing,
  outcome_status, raised, run_coding_reasoning, run_reasoning,
}
use lbe_ci_validation.Session.Finalize.{is_completed}

not_completed :
    (outcome : String) (status : TaskStatus)
    → (outcome == "COMPLETED") ≡ false
    → outcome_status outcome ≡ ok status
    → is_completed status ≡ false
unfolding outcome_status lookup
not_completed outcome status other h =
    grind (arith, other, eq_iff outcome "COMPLETED", eq_iff "COMPLETED" outcome, h)

-- A task state that a bridge builds.
pub record IsOwn (resolve : String → String) (bridge : Bridge) (t : TaskState) : Type 0 where
  pub made : TaskState
  pub built : make_task_state resolve made ≡ ok t
  pub session : made.session_id ≡ bridge.session_id
  pub project : made.project_workspace_id ≡ bridge.project_workspace_id
  pub root : made.canonical_workspace_root ≡ bridge.workspace_root

-- What a bridge saved of a task is loaded with the status it had.
pub record IsKept {W : Type 0} (resolve : String → String) (bridge : Bridge) (store : TaskStore W)
    : Type 0 where
  pub loads :
      (t : TaskState) (w : W)
      → IsOwn resolve bridge t
      → (store.save t w).0 ≡ ok tt
      → (u : TaskState) × (store.load t.task_id (store.save t w).1 ≡ ok (some u))
        × (u.status ≡ t.status)

make_task_state-task_id :
    (resolve : String → String) (t built : TaskState)
    → make_task_state resolve t ≡ ok built
    → (built.status ≡ t.status) × (built.task_id ≡ strip t.task_id)
unfolding make_task_state clean_task
make_task_state-task_id resolve t built h = ground (arith, h)

module _ {W A : Type 0} (resolve : String → String) (store : TaskStore W) (bridge : Bridge)
    (kept : IsKept resolve bridge store) (now : String)
    (controller : String → String → W → ControllerOutcome A × W) where
  -- The task has the status in the store.
  abbrev HasStatus : String → TaskStatus → W → Type 0
  HasStatus task status w =
      (t : TaskState) × (store.load task w ≡ ok (some t)) × (t.status ≡ status)

  save-Triple :
      {Q : W → Type 0} (t : TaskState)
      → IsOwn resolve bridge t
      → Triple Q (store.save t) (λ u w. HasStatus t.task_id t.status w)
  save-Triple t own = record { has = λ w q u h. kept.loads t w own h }

  record-Triple :
      {Q : W → Type 0} (task : String) (status : TaskStatus) (outcome : Option String)
      → Triple Q
          (record_task_status resolve store bridge now task status outcome)
          (λ t w. (t.status ≡ status) × HasStatus (strip task) status w)
  unfolding record_task_status next_state
  record-Triple task status outcome =
      Triple-bind
        (Triple-any (lift (raise_if (strip task == "") (value_error "task_id must not be empty"))))
        λ done. Triple-bind (Triple-any (λ w. (store.load (strip task) w, w))) λ existing.
          Triple-bind
            (Triple-lift (next_state resolve store bridge now (strip task) status outcome existing))
            λ t. Triple-given λ made.
              let (same_status, same_task) = make_task_state-task_id resolve _ t made in
              let own : IsOwn resolve bridge t = record {
                made = _;
                built = made;
                session = refl;
                project = refl;
                root = refl;
              } in
              Triple-bind (save-Triple t own) λ u. Triple-pure t (λ w l. (
                same_status,
                subst (λ k. HasStatus k status w) (same_task ∙ strip_idem task)
                    (subst (λ s. HasStatus t.task_id s w) same_status l),
              ))

  -- The task has the status of the response's outcome.
  abbrev IsRecorded : String → Response A → W → Type 0
  IsRecorded task r w = (s : TaskStatus) × (outcome_status r.outcome ≡ ok s) × HasStatus task s w

  after_reasoning-Triple :
      {Q : W → Type 0} (task : String) (out : ControllerOutcome A)
      → strip task ≡ task
      → Triple Q (after_reasoning resolve store bridge now controller task out) (IsRecorded task)
  unfolding after_reasoning
  after_reasoning-Triple task (raised (interrupt name)) e =
      Triple-if (not (name == "KeyboardInterrupt")) (Triple-raise _)
        λ h. Triple-bind (Triple-any _) λ t. Triple-raise _
  after_reasoning-Triple task (raised (exception name message)) e =
      Triple-bind (Triple-any _) λ t. Triple-raise _
  after_reasoning-Triple task answered_other e = Triple-bind (Triple-any _) λ t. Triple-raise _
  after_reasoning-Triple task (answered r) e =
      Triple-if (not (r.task_id == task)) (Triple-bind (Triple-any _) λ t. Triple-raise _) λ h.
        Triple-bind (Triple-lift (outcome_status r.outcome)) λ status. Triple-given λ known.
          Triple-bind (record-Triple task status (some r.outcome))
            λ t. Triple-pure r (λ w q. (status, known, rw e at q.1))

  run_reasoning-Triple :
      (problem task_id : String)
      → Triple
          (λ w. Unit {0})
          (run_reasoning resolve store bridge now controller problem task_id)
          (IsRecorded (strip task_id))
  unfolding run_reasoning
  run_reasoning-Triple problem task_id =
      Triple-bind
        (Triple-any (lift (raise_if (is_blank problem) (value_error "problem must not be empty"))))
        λ a.
          Triple-bind
            (Triple-any
              (lift (raise_if (strip task_id == "") (value_error "task_id must not be empty"))))
            λ b.
              Triple-bind
                (Triple-any (
                  record_task_status resolve store bridge now (strip task_id) TaskStatus.running
                    none))
                λ t.
                  Triple-bind
                    (Triple-any (λ w.
                      (let (answer, w') = controller (strip problem) (strip task_id) w in
                        (ok answer, w'))))
                    λ out. after_reasoning-Triple (strip task_id) out (strip_idem task_id)

  load-Triple :
      (task : String) (r : Response A)
      → Triple
          (IsRecorded task r)
          (λ w. (store.load task w, w))
          (λ existing w.
            (t : TaskState) × (existing ≡ some t) × (outcome_status r.outcome ≡ ok t.status))
  load-Triple task r = record {
    has = λ w q existing h. (q.2.0, ok-inj (sym h ∙ q.2.1), q.1 ∙ ap ok (sym q.2.2));
  }

  returned :
      (r : Response A) (existing : Option TaskState) (state t : TaskState)
      → (r.outcome == "COMPLETED") ≡ false
      → existing ≡ some t
      → or_missing resolve store bridge now controller existing ≡ ok state
      → outcome_status r.outcome ≡ ok t.status
      → is_completed state.status ≡ false
  unfolding or_missing
  returned r existing state t other loaded found known =
      rw (ok-inj (sym found ∙ ap (or_missing resolve store bridge now controller) loaded))
        (not_completed r.outcome t.status other known)

  run_coding-Triple :
      (problem task_id : String)
      → Triple
          (λ w. Unit {0})
          (run_coding_reasoning resolve store bridge now controller problem task_id)
          (λ p w. is_completed p.1.status ≡ false)
  unfolding run_coding_reasoning
  run_coding-Triple problem task_id = Triple-bind (run_reasoning-Triple problem task_id) λ r.
      Triple-if (r.outcome == "COMPLETED")
        (Triple-bind (record-Triple task_id TaskStatus.running (some "AWAITING_VALIDATION"))
          λ t. Triple-pure (r, t) (λ w q. ap is_completed q.0))
        (λ other. Triple-bind (load-Triple (strip task_id) r) λ existing.
          Triple-bind (Triple-lift (or_missing resolve store bridge now controller existing))
            λ state. Triple-given λ found.
              Triple-pure (r, state) (λ w q. returned r existing state q.0 other q.1 found q.2))

  -- A task that coding reasoning returns is never completed, whatever the controller answers, if the
  -- store loads what it saved.
  pub run_coding_reasoning_provisional :
      (problem task_id : String) (w : W) (r : Response A) (state : TaskState)
      → (run_coding_reasoning resolve store bridge now controller problem task_id w).0
        ≡ ok (r, state)
      → is_completed state.status ≡ false
  run_coding_reasoning_provisional problem task_id w r state h =
      (run_coding-Triple problem task_id).has w tt (r, state) h
