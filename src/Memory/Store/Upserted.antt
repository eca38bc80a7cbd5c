-- ===== src/Memory/Store/Upserted.antt =====
-- What `upsert` of memory/store.py leaves of a record.
use lbe_ci_validation.Memory.{MemoryRecord}
use lbe_ci_validation.Memory.Store.{Tables}
use lbe_ci_validation.Memory.Store.Records.{
  find_current, has_memory, identity, is_current, knows_memory, overwrite, renewed, same_identity,
  update_memory, upsert, upsert_insert, upsert_update,
}
use lbe_ci_validation.Memory.Store.Query.Order.{In, here, there}
use lbe_ci_validation.Base.{
  Bool-cases, List, Option-cases, String, [], arith, eq_refl, inl, inr, is_ok, refl, some, some-inj,
  subst, texts_eq-true, true, ◌&&◌, ◌++◌, ◌==◌, ◌∷◌, ◌≡◌,
}

module _ {V : Type 0} where
  find_current-found :
      (r q : MemoryRecord V) (qs : List (MemoryRecord V))
      → find_current r qs ≡ some q
      → In q qs × (same_identity r q ≡ true)
  unfolding find_current
  find_current-found r q [] h = absurd (cc h)
  find_current-found r q (p ∷ qs) h = elim (Bool-cases (same_identity r p && is_current p)) [
    | inl e ↦
        let same : p ≡ q = some-inj (rw e at h) in
        (
          subst (λ x. In x (p ∷ qs)) same here,
          subst (λ x. same_identity r x ≡ true) same (ground (arith, e)),
        )
    | inr e ↦ let (i, same) = find_current-found r q qs (rw e at h) in (there i, same)
  ]

  In-update_memory :
      (f : MemoryRecord V → MemoryRecord V) (q : MemoryRecord V) (qs : List (MemoryRecord V))
      → In q qs
      → In (f q) (update_memory q.memory_id f qs)
  unfolding update_memory
  In-update_memory f q [] i = elim i [ ]
  In-update_memory f q (_ ∷ qs) here = rw (eq_refl q.memory_id) here
  In-update_memory f q (p ∷ qs) (there i) = elim (Bool-cases (p.memory_id == q.memory_id)) [
    | inl e ↦ rw e (there (In-update_memory f q qs i))
    | inr e ↦ rw e (there (In-update_memory f q qs i))
  ]

  In-last : (q : MemoryRecord V) (qs : List (MemoryRecord V)) → In q (qs ++ q ∷ [])
  In-last q [] = here
  In-last q (p ∷ qs) = there (In-last q qs)

  -- The row has the identity of the record, its value and its status.
  abbrev pub IsKept : MemoryRecord V → MemoryRecord V → Type 0
  IsKept r q =
      (identity r ≡ identity q) × (q.value ≡ r.value) × (q.validation_status ≡ r.validation_status)

  insert-IsKept :
      (r : MemoryRecord V) (w : Tables V)
      → is_ok (upsert_insert r w).0 ≡ true
      → (q : MemoryRecord V) × In q (upsert_insert r w).1.memories × IsKept r q
  unfolding upsert_insert
  insert-IsKept r w h = elim (Bool-cases (has_memory r.memory_id w.memories)) [
    | inl e ↦ absurd (cc (rw e at h))
    | inr e ↦ elim (Bool-cases (knows_memory (w.memories ++ r ∷ []) r.superseded_by)) [
      | inr k ↦ absurd (cc (rw (e, k) at h))
      | inl k ↦ (r, rw (e, k) (In-last r w.memories), (refl, refl, refl))
    ]
  ]

  update-IsKept :
      (now : String) (q r : MemoryRecord V) (w : Tables V)
      → In q w.memories
      → same_identity r q ≡ true
      → is_ok (upsert_update now q r w).0 ≡ true
      → (p : MemoryRecord V) × In p (upsert_update now q r w).1.memories × IsKept r p
  unfolding upsert_update same_identity identity
  update-IsKept now q r w i same h = elim (Bool-cases (knows_memory w.memories r.superseded_by)) [
    | inr k ↦ absurd (cc (rw k at h))
    | inl k ↦
        let row = overwrite (renewed now q r) q in
        (
          row,
          rw k (In-update_memory (overwrite (renewed now q r)) q w.memories i),
          (texts_eq-true (identity r) (identity q) same, refl, refl),
        )
  ]

  -- A call of `upsert` that returns leaves a row of the record.
  pub upsert-IsKept :
      (now : String) (r : MemoryRecord V) (w : Tables V)
      → is_ok (upsert now r w).0 ≡ true
      → (q : MemoryRecord V) × In q (upsert now r w).1.memories × IsKept r q
  unfolding upsert
  upsert-IsKept now r w h = elim (Option-cases (find_current r w.memories)) [
    | inl none_found ↦ rw (upsert, none_found) (insert-IsKept r w (rw (upsert, none_found) at h))
    | inr (q, found) ↦
        let (i, same) = find_current-found r q w.memories found in
        rw (upsert, found) (update-IsKept now q r w i same (rw (upsert, found) at h))
  ]
