-- ===== src/Memory/Store/Identity.antt =====
-- At most one current row for each identity, and one row for each identifier (memory/store.py).
use lbe_ci_validation.Memory.{MemoryRecord}
use lbe_ci_validation.Memory.Store.Records.{
  find_current, find_memory, has_memory, identity, is_current, make_stale, same_identity,
  update_memory,
}
use lbe_ci_validation.Base.{
  Bool-cases, List, String, [], ap, arith, eq_refl, false, if◌then◌else◌, inl, inr, none, refl,
  some, some-inj, subst, sym, texts_eq, texts_eq-true, true, ℕ, ◌&&◌, ◌++◌, ◌+◌, ◌==◌, ◌∷◌, ◌≡◌,
  ◌≤◌,
}

module _ {V : Type 0} where
  unfoldable pub count_current : MemoryRecord V → List (MemoryRecord V) → ℕ
  count_current r [] = 0
  count_current r (q ∷ qs) =
      let rest = count_current r qs in if same_identity r q && is_current q then rest + 1 else rest

  unfoldable pub count_memory : String → List (MemoryRecord V) → ℕ
  count_memory id [] = 0
  count_memory id (q ∷ qs) =
      let rest = count_memory id qs in if q.memory_id == id then rest + 1 else rest

  -- At most one row is current for each identity, and each identifier has one row.
  pub record IsUnique (qs : List (MemoryRecord V)) : Type 0 where
    pub identities : (r : MemoryRecord V) → count_current r qs ≤ 1
    pub ids : (id : String) → count_memory id qs ≤ 1

  pub count_current-same :
      (r s : MemoryRecord V) (qs : List (MemoryRecord V))
      → same_identity r s ≡ true
      → count_current r qs ≡ count_current s qs
  unfolding count_current same_identity
  count_current-same r s [] h = refl
  count_current-same r s (q ∷ qs) h = rw (texts_eq-true (identity r) (identity s) h) (
      ap (λ n. if texts_eq (identity s) (identity q) && is_current q then n + 1 else n)
        (count_current-same r s qs h))

  pub count_current-append :
      (r s : MemoryRecord V) (qs : List (MemoryRecord V))
      → count_current r (qs ++ s ∷ [])
        ≡ count_current r qs + (if same_identity r s && is_current s then 1 else 0)
  unfolding count_current
  count_current-append r s [] = ground arith
  count_current-append r s (q ∷ qs) = ground (arith, count_current-append r s qs)

  pub count_memory-append :
      (id : String) (s : MemoryRecord V) (qs : List (MemoryRecord V))
      → count_memory id (qs ++ s ∷ []) ≡ count_memory id qs + (if s.memory_id == id then 1 else 0)
  unfolding count_memory
  count_memory-append id s [] = ground arith
  count_memory-append id s (q ∷ qs) = ground (arith, count_memory-append id s qs)

  pub count_current-none :
      (r : MemoryRecord V) (qs : List (MemoryRecord V))
      → find_current r qs ≡ none
      → count_current r qs ≡ 0
  unfolding count_current find_current
  count_current-none r [] h = refl
  count_current-none r (q ∷ qs) h = ground (arith, count_current-none r qs)

  pub count_memory-none :
      (id : String) (qs : List (MemoryRecord V)) → has_memory id qs ≡ false → count_memory id qs ≡ 0
  unfolding count_memory find_memory
  count_memory-none id [] h = refl
  count_memory-none id (q ∷ qs) h = ground (arith, count_memory-none id qs)

  -- An update that keeps the identifier of a row.
  abbrev KeepsId : (MemoryRecord V → MemoryRecord V) → Type 0
  KeepsId f = (q : MemoryRecord V) → (f q).memory_id ≡ q.memory_id

  pub count_memory-update :
      (id key : String) (f : MemoryRecord V → MemoryRecord V) (qs : List (MemoryRecord V))
      → KeepsId f
      → count_memory key (update_memory id f qs) ≡ count_memory key qs
  unfolding count_memory update_memory
  count_memory-update id key f [] keeps = refl
  count_memory-update id key f (q ∷ qs) keeps =
      ground (arith, count_memory-update id key f qs keeps, keeps q)

  -- An update of a row that is current: it keeps the identity, and whether the row is current after it.
  pub record KeepsIdentity (f : MemoryRecord V → MemoryRecord V) : Type 0 where
    pub id : (q : MemoryRecord V) → (f q).memory_id ≡ q.memory_id
    pub same : (r q : MemoryRecord V) → same_identity r (f q) ≡ same_identity r q

  update_memory-absent :
      (id : String) (f : MemoryRecord V → MemoryRecord V) (qs : List (MemoryRecord V))
      → count_memory id qs ≡ 0
      → update_memory id f qs ≡ qs
  unfolding count_memory update_memory
  update_memory-absent id f [] h = refl
  update_memory-absent id f (q ∷ qs) h = elim (Bool-cases (q.memory_id == id)) [
    | inl e ↦ absurd (ground (arith, rw e at h))
    | inr e ↦ rw e (ap (λ rest. q ∷ rest) (update_memory-absent id f qs (rw e at h)))
  ]

  find_current-count :
      (r q : MemoryRecord V) (qs : List (MemoryRecord V))
      → find_current r qs ≡ some q
      → (is_current q ≡ true) × (1 ≤ count_memory q.memory_id qs)
  unfolding find_current count_memory
  find_current-count r q [] h = absurd (cc h)
  find_current-count r q (u ∷ us) h = elim (Bool-cases (same_identity r u && is_current u)) [
    | inl e ↦ (
      subst (λ x. is_current x ≡ true) (some-inj (rw e at h)) (ground (arith, e)),
      subst (λ x. 1 ≤ count_memory x.memory_id (u ∷ us)) (some-inj (rw e at h))
          (rw (eq_refl u.memory_id) (omega arith)),
    )
    | inr e ↦ (
      (find_current-count r q us (rw e at h)).0,
      ground (arith, (find_current-count r q us (rw e at h)).1),
    )
  ]

  head_update :
      (u s : MemoryRecord V) (f : MemoryRecord V → MemoryRecord V) (us : List (MemoryRecord V))
      → KeepsIdentity f
      → is_current u ≡ true
      → count_memory u.memory_id (u ∷ us) ≤ 1
      → count_current s (update_memory u.memory_id f (u ∷ us)) ≤ count_current s (u ∷ us)
  unfolding count_memory count_current update_memory
  head_update u s f us keeps current one =
      rw (eq_refl u.memory_id)
        (rw (update_memory-absent u.memory_id f us alone) (rw (keeps.same s u) (ground arith)))
    where
      alone : count_memory u.memory_id us ≡ 0
      alone = (let b = rw (eq_refl u.memory_id) at one in omega arith)

  -- The update of the row that was found.
  pub count_current-update :
      (r q s : MemoryRecord V) (f : MemoryRecord V → MemoryRecord V) (qs : List (MemoryRecord V))
      → KeepsIdentity f
      → find_current r qs ≡ some q
      → count_memory q.memory_id qs ≤ 1
      → count_current s (update_memory q.memory_id f qs) ≤ count_current s qs
  unfolding find_current count_memory count_current update_memory
  count_current-update r q s f [] keeps h one = absurd (cc h)
  count_current-update r q s f (u ∷ us) keeps h one =
      elim (Bool-cases (same_identity r u && is_current u)) [
        | inl e ↦
            subst
              (λ x.
                count_current s (update_memory x.memory_id f (u ∷ us)) ≤ count_current s (u ∷ us))
              (some-inj (rw e at h))
              (head_update u s f us keeps (ground (arith, e)) (
                subst (λ x. count_memory x.memory_id (u ∷ us) ≤ 1) (sym (some-inj (rw e at h)))
                  one))
        | inr e ↦ elim (Bool-cases (u.memory_id == q.memory_id)) [
          | inl same ↦ absurd (
              let found = (find_current-count r q us (rw e at h)).1 in
              let two = rw same at one in omega arith)
          | inr differs ↦ rw differs (
              let rest = count_current-update r q s f us keeps (rw e at h) (rw differs at one) in
              ground arith)
        ]
      ]

  -- An update that makes no row current.
  pub count_current-lower :
      (id : String) (s : MemoryRecord V) (f : MemoryRecord V → MemoryRecord V)
      (qs : List (MemoryRecord V))
      → ((q : MemoryRecord V) → is_current (f q) ≡ false)
      → count_current s (update_memory id f qs) ≤ count_current s qs
  unfolding count_current update_memory
  count_current-lower id s f [] over = omega arith
  count_current-lower id s f (q ∷ qs) over =
      ground (arith, count_current-lower id s f qs over, over q)

  pub make_stale-current :
      (now : String) (ids : List String) (s : MemoryRecord V) (qs : List (MemoryRecord V))
      → count_current s (make_stale now ids qs) ≡ count_current s qs
  unfolding count_current make_stale same_identity identity
  make_stale-current now ids s [] = refl
  make_stale-current now ids s (q ∷ qs) = ground (arith, make_stale-current now ids s qs)

  pub make_stale-count :
      (now : String) (ids : List String) (id : String) (qs : List (MemoryRecord V))
      → count_memory id (make_stale now ids qs) ≡ count_memory id qs
  unfolding count_memory make_stale
  make_stale-count now ids id [] = refl
  make_stale-count now ids id (q ∷ qs) = ground (arith, make_stale-count now ids id qs)
