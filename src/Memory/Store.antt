-- ===== src/Memory/Store.antt =====
-- memory/store.py: the tables of the workspace memory. A table is the list of its rows in the order of
-- insertion, and an action that raises leaves the tables as they were. `V` is what JSON gives back of a
-- value; the times are arguments.
pub mod Records
pub mod Tasks
pub mod Identity
pub mod Unique
pub mod Calls
pub mod Upserted
pub mod Supersede
pub mod Query
mod Examples
use lbe_ci_validation.Base.Exec.{Exec}
use lbe_ci_validation.Memory.{MemoryRecord}
use lbe_ci_validation.Memory.Sessions.{SessionState, TaskState, make_session_state, make_task_state}
use lbe_ci_validation.Base.{
  Bool, List, Option, Result, String, [], any, err, exception, if◌then◌else◌, is_later, none, not,
  ok, some, traverse, true, ℕ, ◌&&◌, ◌++◌, ◌==◌, ◌∷◌,
}

pub record CompactionCheckpoint : Type 0 where
  pub checkpoint_id : String
  pub session_id : String
  pub project_workspace_id : String
  pub canonical_workspace_root : String
  pub source_prefix_hash : String
  pub source_message_count : ℕ
  pub source_last_message_key : Option String
  pub branch : Option String
  pub head : Option String
  pub verified_memory_ids : List String
  pub active_constraints : List String
  pub created_at : String

pub record Tables (V : Type 0) : Type 0 where
  pub memories : List (MemoryRecord V)
  pub checkpoints : List CompactionCheckpoint
  pub sessions : List SessionState
  pub tasks : List TaskState

-- INSERT OR REPLACE
unfoldable pub put_checkpoint :
    CompactionCheckpoint → List CompactionCheckpoint → List CompactionCheckpoint
put_checkpoint c [] = c ∷ []
put_checkpoint c (d ∷ ds) =
    if d.checkpoint_id == c.checkpoint_id then ds ++ c ∷ [] else d ∷ put_checkpoint c ds

-- ORDER BY created_at DESC LIMIT 1; of two rows of the same time the database chooses, here the first.
unfoldable pub last_checkpoint : String → List CompactionCheckpoint → Option CompactionCheckpoint
last_checkpoint session_id [] = none
last_checkpoint session_id (c ∷ cs) =
    let rest = last_checkpoint session_id cs in
    if not (c.session_id == session_id) then rest else elim rest [
      | none ↦ some c
      | some d ↦ if is_later d.created_at c.created_at then some d else some c
    ]

unfoldable pub find_session : String → List SessionState → Option SessionState
find_session id [] = none
find_session id (s ∷ ss) = if s.session_id == id then some s else find_session id ss

-- ON CONFLICT(session_id) DO UPDATE, which leaves created_at
unfoldable pub put_session : SessionState → List SessionState → List SessionState
put_session s [] = s ∷ []
put_session s (r ∷ rs) =
    if r.session_id == s.session_id
    then record s { created_at = r.created_at } ∷ rs
    else r ∷ put_session s rs

abbrev pub is_task : String → String → TaskState → Bool
is_task session_id task_id t = t.session_id == session_id && t.task_id == task_id

unfoldable pub find_task : String → String → String → List TaskState → Option TaskState
find_task session_id task_id project [] = none
find_task session_id task_id project (t ∷ ts) =
    if is_task session_id task_id t && t.project_workspace_id == project
    then some t
    else find_task session_id task_id project ts

-- ON CONFLICT(session_id, task_id) DO UPDATE, which leaves created_at
unfoldable pub put_task : TaskState → List TaskState → List TaskState
put_task t [] = t ∷ []
put_task t (u ∷ us) =
    if is_task t.session_id t.task_id u
    then record t { created_at = u.created_at } ∷ us
    else u ∷ put_task t us

-- ORDER BY updated_at DESC
unfoldable pub insert_by_update : TaskState → List TaskState → List TaskState
insert_by_update t [] = t ∷ []
insert_by_update t (u ∷ us) =
    if is_later u.updated_at t.updated_at then u ∷ insert_by_update t us else t ∷ u ∷ us

unfoldable pub tasks_of : String → String → List TaskState → List TaskState
tasks_of session_id project [] = []
tasks_of session_id project (t ∷ ts) =
    let rest = tasks_of session_id project ts in
    if t.session_id == session_id && t.project_workspace_id == project
    then insert_by_update t rest
    else rest

abbrev pub knows_checkpoint : List CompactionCheckpoint → Option String → Bool
knows_checkpoint cs none = true
knows_checkpoint cs (some id) = any (λ c. c.checkpoint_id == id) cs

abbrev pub some_result : {B : Type 0} → Result B → Result (Option B)
some_result (err e) = err e
some_result (ok b) = ok (some b)

abbrev pub map_option : {A B : Type 0} → (A → Result B) → Option A → Result (Option B)
map_option f none = ok none
map_option f (some a) = some_result (f a)

-- The times of a state that is there already.
unfoldable pub renewed_session : String → SessionState → Option SessionState → SessionState
renewed_session now s none = s
renewed_session now s (some r) = record s { created_at = r.created_at; updated_at = now }

module _ {V : Type 0} (resolve : String → String) where
  unfoldable pub save_checkpoint : CompactionCheckpoint → Exec (Tables V) (Unit {0})
  save_checkpoint c w = (ok tt, record w { checkpoints = put_checkpoint c w.checkpoints })

  abbrev pub latest_checkpoint : String → Tables V → Option CompactionCheckpoint
  latest_checkpoint session_id w = last_checkpoint session_id w.checkpoints

  unfoldable pub save_session_state : String → SessionState → Exec (Tables V) SessionState
  unfolding renewed_session
  save_session_state now s w =
      let state = renewed_session now s (find_session s.session_id w.sessions) in
      if not (knows_checkpoint w.checkpoints s.checkpoint_id)
      then (err (exception "IntegrityError" "FOREIGN KEY constraint failed"), w)
      else (ok state, record w { sessions = put_session state w.sessions })

  unfoldable pub load_session_state : String → Tables V → Result (Option SessionState)
  load_session_state session_id w =
      map_option (make_session_state resolve) (find_session session_id w.sessions)

  unfoldable pub save_session_task : TaskState → Exec (Tables V) (Unit {0})
  save_session_task t w = (ok tt, record w { tasks = put_task t w.tasks })

  unfoldable pub load_session_task : String → String → String → Tables V → Result (Option TaskState)
  load_session_task session_id task_id project w =
      map_option (make_task_state resolve) (find_task session_id task_id project w.tasks)

  unfoldable pub list_session_tasks : String → String → Tables V → Result (List TaskState)
  list_session_tasks session_id project w =
      traverse (make_task_state resolve) (tasks_of session_id project w.tasks)
