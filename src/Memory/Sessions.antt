-- ===== src/Memory/Sessions.antt =====
-- The sessions and tasks of memory/models.py. Building one again from what was built changes nothing.
use lbe_ci_validation.Memory.{TaskStatus, canonical_root}
use lbe_ci_validation.Base.{
  Bool, Bool-cases, List, Option, Result, String, [], contains, if◌then◌else◌, inl, inr, is_blank,
  none, not, ok, ok-inj, raise_if, refl, some, strip, strip_idem, subst, sym, then-ok, true,
  value_error, ◌==◌, ◌>>◌, ◌∷◌, ◌≡◌,
}

-- `_optional_text`
unfoldable pub optional_text : Option String → Option String
optional_text none = none
optional_text (some value) =
    let cleaned = strip value in if cleaned == "" then none else some cleaned

pub record SessionState : Type 0 where
  pub session_id : String
  pub project_workspace_id : String
  pub canonical_workspace_root : String
  pub mode : String
  pub permission : Option String
  pub runtime_policy : Option String
  pub provider_id : Option String
  pub provider_model : Option String
  pub active_profile_id : Option String
  pub permission_policy_id : Option String
  pub evidence_policy_id : Option String
  pub checkpoint_id : Option String
  pub created_at : String
  pub updated_at : String

-- `value in {None, …}`
abbrev pub is_none_or_in : List String → Option String → Bool
is_none_or_in names none = true
is_none_or_in names (some value) = contains value names

pub record TaskState : Type 0 where
  pub session_id : String
  pub task_id : String
  pub project_workspace_id : String
  pub canonical_workspace_root : String
  pub status : TaskStatus
  pub created_at : String
  pub updated_at : String
  pub last_outcome : Option String

module _ (resolve : String → String) where
  -- The fields of `SessionState.__post_init__`, cleaned.
  unfoldable pub clean_session : SessionState → SessionState
  clean_session s = record s {
    session_id = strip s.session_id;
    project_workspace_id = strip s.project_workspace_id;
    canonical_workspace_root = canonical_root resolve s.canonical_workspace_root;
    mode = strip s.mode;
    permission = optional_text s.permission;
    runtime_policy = optional_text s.runtime_policy;
    provider_id = optional_text s.provider_id;
    provider_model = optional_text s.provider_model;
    active_profile_id = optional_text s.active_profile_id;
    permission_policy_id = optional_text s.permission_policy_id;
    evidence_policy_id = optional_text s.evidence_policy_id;
    checkpoint_id = optional_text s.checkpoint_id;
  }

  -- Its checks, on the cleaned fields.
  unfoldable pub check_session : SessionState → Result (Unit {0})
  check_session s = do
    raise_if (s.session_id == "") (value_error "session_id must not be empty")
    raise_if (s.project_workspace_id == "") (value_error "project_workspace_id must not be empty")
    raise_if (s.mode == "") (value_error "mode must not be empty")
    raise_if
        (not (
          is_none_or_in ("read_only" ∷ "write_allowed" ∷ "audit_only" ∷ "elevated" ∷ [])
            s.permission))
        (value_error "permission must use the supported runtime-policy vocabulary")
    raise_if
        (not
          (is_none_or_in ("audit" ∷ "development" ∷ "strict" ∷ "permissive" ∷ []) s.runtime_policy))
        (value_error "runtime_policy must use the supported runtime-policy vocabulary")

  unfoldable pub make_session_state : SessionState → Result SessionState
  make_session_state s = do check_session (clean_session s); ok (clean_session s)

  -- `TaskState.__post_init__`; `strip() or None` is `_optional_text`.
  unfoldable pub clean_task : TaskState → TaskState
  clean_task t = record t {
    session_id = strip t.session_id;
    task_id = strip t.task_id;
    project_workspace_id = strip t.project_workspace_id;
    canonical_workspace_root = canonical_root resolve t.canonical_workspace_root;
    last_outcome = optional_text t.last_outcome;
  }

  unfoldable pub make_task_state : TaskState → Result TaskState
  make_task_state t = do
    raise_if (is_blank t.session_id) (value_error "session_id must not be empty")
    raise_if (is_blank t.task_id) (value_error "task_id must not be empty")
    raise_if (is_blank t.project_workspace_id)
        (value_error "project_workspace_id must not be empty")
    ok (clean_task t)

pub optional_text_idem :
    (value : Option String) → optional_text (optional_text value) ≡ optional_text value
unfolding optional_text
optional_text_idem none = refl
optional_text_idem (some value) = elim (Bool-cases (strip value == "")) [
  | inl e ↦ rw (e, optional_text) refl
  | inr e ↦ rw (e, strip_idem value, e) refl
]

module _ (resolve : String → String) where
  clean_session_idem :
      (s : SessionState)
      → (let root = canonical_root resolve s.canonical_workspace_root in
          canonical_root resolve root ≡ root)
      → clean_session resolve (clean_session resolve s) ≡ clean_session resolve s
  unfolding clean_session
  clean_session_idem s fixed = simp (fixed, strip_idem, optional_text_idem) refl

  -- A session that was built is accepted again and comes back as it is, if its canonical root is its
  -- own canonical root.
  pub make_session_state_idem :
      (s built : SessionState)
      → make_session_state resolve s ≡ ok built
      → canonical_root resolve built.canonical_workspace_root ≡ built.canonical_workspace_root
      → make_session_state resolve built ≡ ok built
  unfolding make_session_state clean_session
  make_session_state_idem s built h fixed =
      let (passed, made) = then-ok (check_session resolve (clean_session resolve s)) _ h in
      let same = ok-inj made in
      let fixed' =
        subst
          (λ (b : SessionState).
            canonical_root resolve b.canonical_workspace_root ≡ b.canonical_workspace_root)
          (sym same) fixed in
      subst (λ b. make_session_state resolve b ≡ ok b) same
        (rw (clean_session_idem s fixed', passed) refl)
