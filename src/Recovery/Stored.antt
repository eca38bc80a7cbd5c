-- ===== src/Recovery/Stored.antt =====
-- The state that recovery.py persists in the memory store is read back from it.
use lbe_ci_validation.Memory.Store.Records.{identity, or_blank, type_text, upsert}
use lbe_ci_validation.Memory.Verified.{cleaned_record, make_record-eq-ok}
use lbe_ci_validation.Memory.Promoter.{claimed_record, classify, classify_by, promote, promoted}
use lbe_ci_validation.Memory.Store.Upserted.{IsKept, upsert-IsKept}
use lbe_ci_validation.Recovery.{
  FailureClass, RecoveryState, cancellation, missing_dependency, permission_denial,
  provider_failure, scope_conflict, stale_workspace, temporary_tool_failure, timed_out, unknown,
  validation_failure,
}
use lbe_ci_validation.Recovery.State.{
  Place, claim_of, class_value, failure_of, first_state, get_field, is_wanted, load_recovery_state,
  persist_recovery_state, read_state, state_value, subject_of, verified_results,
}
use lbe_ci_validation.Base.{
  All, Bool-cases, List, Option, Result, String, Value, [], ap, eq_iff, err, false, filter, inl,
  inr, is_ok, is_solid, is_space, length, none, ok, refl, some, strip, strip-concat, subst, sym,
  true, ℕ, ◌&&◌, ◌==◌, ◌>>=◌, ◌∙◌, ◌∷◌, ◌≡◌, ◌≤◌,
}
use lbe_ci_validation.Memory.{MemoryRecord, make_record, verified}
use lbe_ci_validation.Memory.Store.{Tables}
use lbe_ci_validation.Memory.Store.Query.Order.{In, In-filter, In-ordered_rows, here, there}
use lbe_ci_validation.Memory.Store.Query.{has_text, matches, row_limit}
use lbe_ci_validation.Memory.Store.Query.Whole.{
  All-found_rows, All-map, found_rows, query-found_rows,
}

strip_subject : (t : String) → strip t ≡ t → strip (subject_of t) ≡ subject_of t
unfolding is_solid is_space
strip_subject t h = strip-concat "r" "ecovery:" t refl h

read_class : (c : Option FailureClass) → failure_of (class_value c) ≡ ok c
read_class none = refl
read_class (some provider_failure) = refl
read_class (some timed_out) = refl
read_class (some temporary_tool_failure) = refl
read_class (some validation_failure) = refl
read_class (some permission_denial) = refl
read_class (some stale_workspace) = refl
read_class (some scope_conflict) = refl
read_class (some missing_dependency) = refl
read_class (some cancellation) = refl
read_class (some unknown) = refl

-- What is read of a stored value is the state that was stored.
read_state_value :
    (read_int : String → Result ℕ) (s : RecoveryState)
    → read_state read_int s.operation_id (state_value s) ≡ ok s
unfolding read_state get_field
read_state_value read_int s = rw (read_class s.last_failure_class) refl

-- The first record that is wanted is the one that is read.
first_state-eq :
    (read_int : String → Result ℕ) (s : RecoveryState) (q : MemoryRecord Value)
    (rows : List (MemoryRecord Value))
    → q.value ≡ state_value s
    → In q rows
    → is_wanted s.operation_id q ≡ true
    → All (λ p. is_wanted s.operation_id p ≡ true → p ≡ q) rows
    → first_state read_int s.operation_id rows ≡ ok (some s)
unfolding first_state
first_state-eq read_int s q [] value i wanted one = elim i [ ]
first_state-eq read_int s q (_ ∷ rows) value here wanted one =
    rw (wanted, value, read_state_value read_int s) refl
first_state-eq read_int s q (p ∷ rows) value (there i) wanted one =
    elim (Bool-cases (is_wanted s.operation_id p)) [
      | inr e ↦ rw e (first_state-eq read_int s q rows value i wanted one.1)
      | inl e ↦
          rw
            (
              e,
              ap (λ (x : MemoryRecord Value). x.value) (one.0 e) ∙ value,
              read_state_value read_int s,
            )
            refl
    ]

has_text-or_blank :
    (column : Option String) (t : String)
    → (t == "") ≡ false
    → or_blank column ≡ t
    → has_text column t ≡ true
has_text-or_blank none t named e = absurd (cc (rw (sym e) at named))
has_text-or_blank (some u) t named e = (eq_iff u t).1 e

is_ok-done :
    {A : Type 0} (out : Result A) → (out >>= λ kept. ok tt) ≡ ok (tt {0}) → is_ok out ≡ true
is_ok-done (err e) h = absurd (cc h)
is_ok-done (ok a) h = refl

module _ {W : Type 0} (place : Place W) where
  abbrev pub StoredWorld : Type 0
  StoredWorld = Tables Value × W

  -- The record that is persisted.
  abbrev pub row_of : String → RecoveryState → W → MemoryRecord Value
  row_of task_id s w = cleaned_record place.resolve (place.now w) (
      claimed_record (place.memory_id w) (place.now w) (claim_of place task_id s)
        (verified, 100, some "bounded-runtime-recovery"))

  pub promoted-row_of :
      (task_id : String) (s : RecoveryState) (w : W) (r : MemoryRecord Value)
      → promoted place.resolve (place.memory_id w) (place.now w) (claim_of place task_id s) ≡ ok r
      → r ≡ row_of task_id s w
  unfolding promoted classify classify_by
  promoted-row_of task_id s w r h = make_record-eq-ok place.resolve (place.now w) _ r h

  -- A state that was persisted is a row of the store.
  persist-IsKept :
      (task_id : String) (s : RecoveryState) (t : Tables Value) (w : W)
      → (persist_recovery_state place task_id s (t, w)).0 ≡ ok tt
      → (q : MemoryRecord Value) × In q (persist_recovery_state place task_id s (t, w)).1.0.memories
        × IsKept (row_of task_id s w) q
  unfolding persist_recovery_state promote
  persist-IsKept task_id s t w h =
      go (promoted place.resolve (place.memory_id w) (place.now w) (claim_of place task_id s)) refl
        h
    where
      go :
          (out : Result (MemoryRecord Value))
          → promoted place.resolve (place.memory_id w) (place.now w) (claim_of place task_id s)
            ≡ out
          → (persist_recovery_state place task_id s (t, w)).0 ≡ ok tt
          → (q : MemoryRecord Value) × In q
              (persist_recovery_state place task_id s (t, w)).1.0.memories
            × IsKept (row_of task_id s w) q
      go (err e) made h = absurd (cc (rw (persist_recovery_state, promote, made) at h))
      go (ok r) made h =
          let kept = upsert-IsKept (place.now w) r t (
            is_ok-done (upsert (place.now w) r t).0
              (rw (persist_recovery_state, promote, made) at h)) in
          let (q, i, same) = kept in
          (
            q,
            rw (persist_recovery_state, promote, made) i,
            subst (λ x. IsKept x q) (promoted-row_of task_id s w r made) same,
          )

  -- What the store has to be for a state to be read back: at most 500 records match the query, each of
  -- them passes the checks of a record unchanged, and only one of them is wanted for the operation.
  pub record IsReadable (task_id operation_id : String) (s : StoredWorld) : Type 0 where
    pub few : length (filter (matches (verified_results place.project task_id)) s.0.memories) ≤ 500
    pub valid :
        (q : MemoryRecord Value)
        → In q s.0.memories
        → matches (verified_results place.project task_id) q ≡ true
        → make_record place.resolve (place.now s.1) q ≡ ok q
    pub one :
        (p q : MemoryRecord Value)
        → In p s.0.memories
        → In q s.0.memories
        → (matches (verified_results place.project task_id) p && is_wanted operation_id p) ≡ true
        → (matches (verified_results place.project task_id) q && is_wanted operation_id q) ≡ true
        → p ≡ q

  -- A row that the query finds is read.
  found :
      (task_id : String) (s : RecoveryState) (q : MemoryRecord Value) (w : StoredWorld)
      → q.value ≡ state_value s
      → In q w.0.memories
      → matches (verified_results place.project task_id) q ≡ true
      → is_wanted s.operation_id q ≡ true
      → IsReadable task_id s.operation_id w
      → load_recovery_state place task_id s.operation_id w ≡ ok (some s)
  unfolding load_recovery_state
  found task_id s q w value i matched wanted readable =
      let a = verified_results place.project task_id in
      let rows =
        query-found_rows place.resolve (place.now w.1) a w.0 refl refl
          (unfold row_limit in readable.few) readable.valid in
      rw rows (
        first_state-eq place.read_int s q (found_rows a w.0) value
          (In-ordered_rows q (filter (matches a) w.0.memories)
            (In-filter (matches a) q w.0.memories i matched))
          wanted
          (All-map (found_rows a w.0)
            (λ p h e. readable.one p q h.0 i (rw (h.1, e) refl) (rw (matched, wanted) refl))
            (All-found_rows a w.0)))

  -- The row is found by the query and wanted.
  kept-is_wanted :
      (task_id : String) (s : RecoveryState) (w : W) (q : MemoryRecord Value)
      → strip place.project ≡ place.project
      → strip s.operation_id ≡ s.operation_id
      → (task_id == "") ≡ false
      → IsKept (row_of task_id s w) q
      → (matches (verified_results place.project task_id) q ≡ true)
        × (is_wanted s.operation_id q ≡ true)
  unfolding identity strip claimed_record
  kept-is_wanted task_id s w q project stripped named (same, value, status) =
      let p : strip place.project ≡ q.project_workspace_id = cc same in
      let t : task_id ≡ or_blank q.task_id = cc same in
      let y : "validation_result" ≡ type_text q.memory_type = cc same in
      let u : strip (subject_of s.operation_id) ≡ q.subject = cc same in
      let v : "recovery_state" ≡ q.predicate = cc same in
      let in_project = (eq_iff q.project_workspace_id place.project).1 (sym p ∙ project) in
      let in_task = has_text-or_blank q.task_id task_id named (sym t) in
      let of_subject =
        (eq_iff q.subject (subject_of s.operation_id)).1
          (sym u ∙ strip_subject s.operation_id stripped) in
      (rw (in_project, status, in_task, sym y) refl, rw (of_subject, sym v) refl)

  -- The round trip through the store.
  pub load-persist_recovery_state :
      (task_id : String) (s : RecoveryState) (t : Tables Value) (w : W)
      → strip place.project ≡ place.project
      → strip s.operation_id ≡ s.operation_id
      → (task_id == "") ≡ false
      → (persist_recovery_state place task_id s (t, w)).0 ≡ ok tt
      → IsReadable task_id s.operation_id (persist_recovery_state place task_id s (t, w)).1
      → load_recovery_state place task_id s.operation_id
          (persist_recovery_state place task_id s (t, w)).1
        ≡ ok (some s)
  unfolding claimed_record
  load-persist_recovery_state task_id s t w project stripped named saved readable =
      let (q, i, kept) = persist-IsKept task_id s t w saved in
      let (matched, wanted) = kept-is_wanted task_id s w q project stripped named kept in
      found task_id s q (persist_recovery_state place task_id s (t, w)).1 kept.1 i matched wanted
        readable
