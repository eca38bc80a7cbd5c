-- ===== src/Memory/Store/Tasks.antt =====
-- The table of tasks refines a map from the session and the identifier of a task to its state
-- (memory/store.py).
use lbe_ci_validation.Memory.Sessions.{TaskState, make_task_state}
use lbe_ci_validation.Memory.Store.{find_task, is_task, load_session_task, map_option, put_task}
use lbe_ci_validation.Base.{
  Bool-cases, List, Option, String, [], ap, arith, eq_iff, eq_refl, false, if◌then◌else◌, inl, inr,
  none, refl, some, subst, sym, true, ◌==◌, ◌∙◌, ◌∷◌, ◌≡◌,
}

-- The first time that a task was saved.
abbrev pub keep_created : Option TaskState → TaskState → TaskState
keep_created none t = t
keep_created (some u) t = record t { created_at = u.created_at }

-- The map after one save.
abbrev pub after_save :
    TaskState → (String → String → Option TaskState) → String → String → Option TaskState
after_save t tasks session_id task_id =
    if is_task session_id task_id t
    then some (keep_created (tasks session_id task_id) t)
    else tasks session_id task_id

-- The map after saves, the last one first.
unfoldable pub task_map : List TaskState → String → String → Option TaskState
task_map [] session_id task_id = none
task_map (t ∷ ts) session_id task_id = after_save t (task_map ts) session_id task_id

-- The row of a key.
find_key : String → String → List TaskState → Option TaskState
find_key session_id task_id [] = none
find_key session_id task_id (t ∷ ts) =
    if is_task session_id task_id t then some t else find_key session_id task_id ts

-- No two rows have the same key.
abbrev Keyed : List TaskState → Type 0
Keyed [] = Unit
Keyed (t ∷ ts) = (find_key t.session_id t.task_id ts ≡ none) × Keyed ts

is_task_eq :
    (s k : String) (t : TaskState) → is_task s k t ≡ true → (t.session_id ≡ s) × (t.task_id ≡ k)
is_task_eq s k t h = ground (arith, h, eq_iff t.session_id s, eq_iff t.task_id k)

is_task_self :
    (t u : TaskState)
    → is_task t.session_id t.task_id (record t { created_at = u.created_at }) ≡ true
is_task_self t u = rw (eq_refl t.session_id, eq_refl t.task_id) refl

find_key-put_self :
    (t : TaskState) (ts : List TaskState)
    → find_key t.session_id t.task_id (put_task t ts)
      ≡ some (keep_created (find_key t.session_id t.task_id ts) t)
unfolding find_key put_task
find_key-put_self t [] = rw (eq_refl t.session_id, eq_refl t.task_id) refl
find_key-put_self t (u ∷ us) = elim (Bool-cases (is_task t.session_id t.task_id u)) [
  | inl e ↦ rw (e, is_task_self t u) refl
  | inr e ↦ rw (e, e) (find_key-put_self t us)
]

find_key-put_other :
    (t : TaskState) (ts : List TaskState) (s k : String)
    → is_task s k t ≡ false
    → find_key s k (put_task t ts) ≡ find_key s k ts
unfolding find_key put_task
find_key-put_other t [] s k h = rw h refl
find_key-put_other t (u ∷ us) s k h = elim (Bool-cases (is_task t.session_id t.task_id u)) [
  | inl e ↦
      let (p, q) = is_task_eq t.session_id t.task_id u e in
      let other : is_task s k u ≡ false = rw (p, q) h in rw (e, h, other) refl
  | inr e ↦ rw e (ap (λ r. if is_task s k u then some u else r) (find_key-put_other t us s k h))
]

find_key-put :
    (t : TaskState) (ts : List TaskState) (s k : String)
    → find_key s k (put_task t ts) ≡ after_save t (λ i j. find_key i j ts) s k
find_key-put t ts s k = elim (Bool-cases (is_task s k t)) [
  | inl e ↦
      let (p, q) = is_task_eq s k t e in
      rw e (
        subst (λ i. find_key i k (put_task t ts) ≡ some (keep_created (find_key i k ts) t)) p
          (subst
            (λ j.
              find_key t.session_id j (put_task t ts)
              ≡ some (keep_created (find_key t.session_id j ts) t))
            q (find_key-put_self t ts)))
  | inr e ↦ rw e (find_key-put_other t ts s k e)
]

is_task_sym :
    (t u : TaskState) → is_task t.session_id t.task_id u ≡ is_task u.session_id u.task_id t
is_task_sym t u = ground (
  arith,
  eq_iff t.session_id u.session_id,
  eq_iff u.session_id t.session_id,
  eq_iff t.task_id u.task_id,
  eq_iff u.task_id t.task_id,
)

-- Equal keys have equal rows.
find_key-same :
    (s k : String) (t : TaskState) (ts : List TaskState)
    → is_task s k t ≡ true
    → find_key t.session_id t.task_id ts ≡ find_key s k ts
find_key-same s k t ts e =
    let (p, q) = is_task_eq s k t e in
    ap (λ i. find_key i t.task_id ts) p ∙ ap (λ j. find_key s j ts) q

Keyed-put : (t : TaskState) (ts : List TaskState) → Keyed ts → Keyed (put_task t ts)
unfolding put_task find_key
Keyed-put t [] v = (refl, tt)
Keyed-put t (u ∷ us) (free, v) = elim (Bool-cases (is_task t.session_id t.task_id u)) [
  | inl e ↦ rw e (sym (find_key-same t.session_id t.task_id u us e) ∙ free, v)
  | inr e ↦ rw e (
    find_key-put_other t us u.session_id u.task_id (sym (is_task_sym t u) ∙ e) ∙ free,
    Keyed-put t us v,
  )
]

-- The table after saves.
unfoldable pub saved : List TaskState → List TaskState
saved [] = []
saved (t ∷ ts) = put_task t (saved ts)

saved-Keyed : (ts : List TaskState) → Keyed (saved ts)
unfolding saved
saved-Keyed [] = tt
saved-Keyed (t ∷ ts) = Keyed-put t (saved ts) (saved-Keyed ts)

find_key-saved : (ts : List TaskState) (s k : String) → find_key s k (saved ts) ≡ task_map ts s k
unfolding saved task_map find_key
find_key-saved [] s k = refl
find_key-saved (t ∷ ts) s k =
    find_key-put t (saved ts) s k
    ∙ ap (λ r. if is_task s k t then some (keep_created r t) else r) (find_key-saved ts s k)

abbrev pub in_project : String → Option TaskState → Option TaskState
in_project project none = none
in_project project (some t) = if t.project_workspace_id == project then some t else none

find_task-Keyed :
    (s k project : String) (ts : List TaskState)
    → Keyed ts
    → find_task s k project ts ≡ in_project project (find_key s k ts)
unfolding find_task find_key
find_task-Keyed s k project [] v = refl
find_task-Keyed s k project (t ∷ ts) (free, v) = elim (Bool-cases (is_task s k t)) [
  | inr e ↦ rw e (find_task-Keyed s k project ts v)
  | inl e ↦ elim (Bool-cases (t.project_workspace_id == project)) [
    | inl p ↦ rw (e, p) refl
    | inr p ↦
        rw (e, p)
          (find_task-Keyed s k project ts v
            ∙ ap (in_project project) (sym (find_key-same s k t ts e) ∙ free))
  ]
]

-- A task of a project is there after it was saved.
pub find_task-put :
    (t : TaskState) (ts : List TaskState)
    → (u : TaskState) × (find_task t.session_id t.task_id t.project_workspace_id (put_task t ts)
        ≡ some u)
      × (u ≡ record t { created_at = u.created_at })
unfolding find_task put_task
find_task-put t [] =
    (t, rw (eq_refl t.session_id, eq_refl t.task_id, eq_refl t.project_workspace_id) refl, refl)
find_task-put t (u ∷ us) = elim (Bool-cases (is_task t.session_id t.task_id u)) [
  | inl e ↦ (
    record t { created_at = u.created_at },
    rw (e, is_task_self t u, eq_refl t.project_workspace_id) refl,
    refl,
  )
  | inr e ↦ let found = find_task-put t us in (found.0, rw (e, e) found.1, found.2)
]

-- After any saves of tasks into an empty store, loading a task gives what the map of the saves has for
-- its session and identifier, if its project is the one asked for: the state saved last, at the time
-- when the task was saved first, built again.
pub load-saved :
    (V : Type 0) (resolve : String → String) (ts : List TaskState) (s k project : String)
    → load_session_task {V = V} resolve s k project
        (record { memories = []; checkpoints = []; sessions = []; tasks = saved ts })
      ≡ map_option (make_task_state resolve) (in_project project (task_map ts s k))
unfolding load_session_task
load-saved V resolve ts s k project = ap (map_option (make_task_state resolve)) (
    find_task-Keyed s k project (saved ts) (saved-Keyed ts)
    ∙ ap (in_project project) (find_key-saved ts s k))
