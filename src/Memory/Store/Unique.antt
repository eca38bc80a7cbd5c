-- ===== src/Memory/Store/Unique.antt =====
-- Calls of the memory store that change records (memory/store.py).
use lbe_ci_validation.Memory.{MemoryRecord}
use lbe_ci_validation.Memory.Store.Records.{
  find_current, has_memory, identity, make_stale, overwrite, renewed, same_identity, superseded_as,
  update_memory,
}
use lbe_ci_validation.Memory.Store.Identity.{
  IsUnique, KeepsIdentity, count_current, count_current-append, count_current-lower,
  count_current-none, count_current-same, count_current-update, count_memory, count_memory-append,
  count_memory-none, count_memory-update, make_stale-count, make_stale-current,
}
use lbe_ci_validation.Base.{
  Bool-cases, List, String, [], arith, eq_iff, false, inl, inr, none, refl, some, subst, ◌++◌, ◌==◌,
  ◌∷◌, ◌≡◌, ◌≤◌,
}

module _ {V : Type 0} where
  KeepsIdentity-overwrite : (r : MemoryRecord V) → KeepsIdentity (overwrite r)
  unfolding same_identity identity
  KeepsIdentity-overwrite r = record { id = λ q. refl; same = λ s q. refl }

  pub IsUnique-overwrite :
      (now : String) (q r : MemoryRecord V) (qs : List (MemoryRecord V))
      → find_current r qs ≡ some q
      → IsUnique qs
      → IsUnique (update_memory q.memory_id (overwrite (renewed now q r)) qs)
  IsUnique-overwrite now q r qs found unique = record {
    identities = λ s.
        let lower =
          count_current-update r q s (overwrite (renewed now q r)) qs
            (KeepsIdentity-overwrite (renewed now q r)) found (unique.ids q.memory_id) in
        let one = unique.identities s in omega arith;
    ids = λ key.
        rw (count_memory-update q.memory_id key (overwrite (renewed now q r)) qs (λ u. refl))
          (unique.ids key);
  }

  pub append_identities :
      (r s : MemoryRecord V) (qs : List (MemoryRecord V))
      → find_current r qs ≡ none
      → count_current s qs ≤ 1
      → count_current s (qs ++ r ∷ []) ≤ 1
  append_identities r s qs free one =
      rw (count_current-append s r qs) (elim (Bool-cases (same_identity s r)) [
        | inl e ↦ rw (e, count_current-same s r qs e, count_current-none r qs free) (ground arith)
        | inr e ↦ rw e (omega arith)
      ])

  pub append_ids :
      (r : MemoryRecord V) (id : String) (qs : List (MemoryRecord V))
      → has_memory r.memory_id qs ≡ false
      → count_memory id qs ≤ 1
      → count_memory id (qs ++ r ∷ []) ≤ 1
  append_ids r id qs free one =
      rw (count_memory-append id r qs) (elim (Bool-cases (r.memory_id == id)) [
        | inl e ↦
            let none_of : count_memory id qs ≡ 0 =
              subst (λ i. count_memory i qs ≡ 0) ((eq_iff r.memory_id id).0 e)
                (count_memory-none r.memory_id qs free) in
            rw (e, none_of) (omega arith)
        | inr e ↦ rw e (omega arith)
      ])

  pub IsUnique-make_stale :
      (now : String) (ids : List String) (qs : List (MemoryRecord V))
      → IsUnique qs
      → IsUnique (make_stale now ids qs)
  IsUnique-make_stale now ids qs unique = record {
    identities = λ s. rw (make_stale-current now ids s qs) (unique.identities s);
    ids = λ id. rw (make_stale-count now ids id qs) (unique.ids id);
  }

  pub IsUnique-superseded :
      (now old new : String) (qs : List (MemoryRecord V))
      → IsUnique qs
      → IsUnique (update_memory old (superseded_as now new) qs)
  IsUnique-superseded now old new qs unique = record {
    identities = λ s.
        let lower = count_current-lower old s (superseded_as now new) qs (λ q. refl) in
        let one = unique.identities s in omega arith;
    ids = λ key.
        rw (count_memory-update old key (superseded_as now new) qs (λ u. refl)) (unique.ids key);
  }
