-- ===== src/Recovery/Untrimmed.antt =====
-- Recovery states under a project id with blanks at its ends (recovery.py over the memory store).
use lbe_ci_validation.Memory.{MemoryRecord}
use lbe_ci_validation.Memory.Promoter.{claimed_record, promote, promoted}
use lbe_ci_validation.Memory.Store.{Tables}
use lbe_ci_validation.Memory.Store.Records.{
  find_current, has_memory, knows_memory, overwrite, renewed, update_memory, upsert, upsert_insert,
  upsert_update,
}
use lbe_ci_validation.Memory.Store.Query.{matches, ordered_rows, query, row_limit, select_rows}
use lbe_ci_validation.Recovery.{RecoveryState}
use lbe_ci_validation.Recovery.State.{
  Place, claim_of, first_state, load_recovery_state, persist_recovery_state, verified_results,
}
use lbe_ci_validation.Recovery.Stored.{StoredWorld, promoted-row_of}
use lbe_ci_validation.Base.{
  All, All-append, Bool-cases, List, Option-cases, Result, String, Value, [], eq_iff, err, false,
  filter, inl, inr, none, ok, refl, strip, strip_idem, subst, sym, ◌++◌, ◌==◌, ◌∙◌, ◌∷◌, ◌≡◌,
}

module _ {V : Type 0} where
  abbrev HasStripped : MemoryRecord V → Type 0
  HasStripped q = strip q.project_workspace_id ≡ q.project_workspace_id

  -- The project ids of all rows are stripped.
  abbrev pub AreStripped : Tables V → Type 0
  AreStripped w = All HasStripped w.memories

  All-update_memory :
      (id : String) (r : MemoryRecord V) (qs : List (MemoryRecord V))
      → All HasStripped qs
      → All HasStripped (update_memory id (overwrite r) qs)
  unfolding update_memory
  All-update_memory id r [] h = tt
  All-update_memory id r (q ∷ qs) h = elim (Bool-cases (q.memory_id == id)) [
    | inl e ↦ rw e (h.0, All-update_memory id r qs h.1)
    | inr e ↦ rw e (h.0, All-update_memory id r qs h.1)
  ]

  upsert-AreStripped :
      (now : String) (r : MemoryRecord V) (w : Tables V)
      → HasStripped r
      → AreStripped w
      → AreStripped (upsert now r w).1
  unfolding upsert upsert_insert upsert_update
  upsert-AreStripped now r w p h = elim (Option-cases (find_current r w.memories)) [
    | inr (q, e) ↦ elim (Bool-cases (knows_memory w.memories r.superseded_by)) [
      | inr k ↦ rw (upsert, e, k) h
      | inl k ↦ rw (upsert, e, k) (All-update_memory q.memory_id (renewed now q r) w.memories h)
    ]
    | inl e ↦ elim (Bool-cases (has_memory r.memory_id w.memories)) [
      | inl i ↦ rw (upsert, e, i) h
      | inr i ↦ elim (Bool-cases (knows_memory (w.memories ++ r ∷ []) r.superseded_by)) [
        | inr k ↦ rw (upsert, e, i, k) h
        | inl k ↦ rw (upsert, e, i, k) (All-append HasStripped w.memories (r ∷ []) h (p, tt))
      ]
    ]
  ]

module _ {W : Type 0} (place : Place W) where
  persist-AreStripped :
      (task_id : String) (s : RecoveryState) (t : Tables Value) (w : W)
      → AreStripped t
      → AreStripped (persist_recovery_state place task_id s (t, w)).1.0
  unfolding persist_recovery_state promote claimed_record
  persist-AreStripped task_id s t w h =
      go (promoted place.resolve (place.memory_id w) (place.now w) (claim_of place task_id s)) refl
    where
      go :
          (out : Result (MemoryRecord Value))
          → promoted place.resolve (place.memory_id w) (place.now w) (claim_of place task_id s)
            ≡ out
          → AreStripped (persist_recovery_state place task_id s (t, w)).1.0
      go (err e) made = rw (persist_recovery_state, promote, made) h
      go (ok r) made =
          rw (persist_recovery_state, promote, made)
            (upsert-AreStripped (place.now w) r t
              (subst HasStripped (sym (promoted-row_of place task_id s w r made))
                (strip_idem place.project))
              h)

  none_match :
      (task_id : String) (qs : List (MemoryRecord Value))
      → (strip place.project == place.project) ≡ false
      → All HasStripped qs
      → filter (matches (verified_results place.project task_id)) qs ≡ []
  none_match task_id [] blank h = refl
  none_match task_id (q ∷ qs) blank h =
      elim (Bool-cases (q.project_workspace_id == place.project)) [
        | inr e ↦ rw e (none_match task_id qs blank h.1)
        | inl e ↦
            let same = (eq_iff q.project_workspace_id place.project).0 e in
            let stripped = subst (λ p. strip p ≡ p) same h.0 in
            absurd (cc (sym blank ∙ (eq_iff (strip place.project) place.project).1 stripped))
      ]

  load-none :
      (task_id operation_id : String) (s : StoredWorld place)
      → (strip place.project == place.project) ≡ false
      → AreStripped s.0
      → load_recovery_state place task_id operation_id s ≡ ok none
  unfolding load_recovery_state query select_rows row_limit ordered_rows first_state
  load-none task_id operation_id s blank h = rw (none_match task_id s.0.memories blank h) refl

  -- With a project id that has blanks at its ends, in a store whose rows have stripped project ids, no
  -- state is loaded for any task and operation, not even one that was just persisted; and persisting
  -- leaves a store whose rows have stripped project ids.
  pub untrimmed_never_loaded :
      (task_id other operation_id : String) (saved : RecoveryState) (s : StoredWorld place)
      → (strip place.project == place.project) ≡ false
      → AreStripped s.0
      → let s' = (persist_recovery_state place task_id saved s).1 in
        AreStripped s'.0 × (load_recovery_state place other operation_id s' ≡ ok none)
  untrimmed_never_loaded task_id other operation_id saved s blank h =
      let kept = persist-AreStripped task_id saved s.0 s.1 h in
      (
        kept,
        load-none other operation_id (persist_recovery_state place task_id saved s).1 blank kept,
      )
