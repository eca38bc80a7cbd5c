-- ===== src/Memory/Store/Calls.antt =====
-- Any sequence of the calls of the memory store that change records (memory/store.py).
use lbe_ci_validation.Base.Exec.Preserves.{Preserves, Preserves-bind}
use lbe_ci_validation.Memory.{MemoryRecord}
use lbe_ci_validation.Memory.Store.{Tables}
use lbe_ci_validation.Memory.Store.Records.{
  count_other, find_current, has_memory, knows_memory, mark_stale, supersede, supersede_old, upsert,
  upsert_insert, upsert_update,
}
use lbe_ci_validation.Memory.Store.Identity.{IsUnique}
use lbe_ci_validation.Memory.Store.Unique.{
  IsUnique-make_stale, IsUnique-overwrite, IsUnique-superseded, append_identities, append_ids,
}
use lbe_ci_validation.Base.{
  Bool-cases, List, Option, String, [], inl, inr, nat_eq, none, refl, some, ◌++◌, ◌∷◌, ◌≡◌,
}

pub data Call (V : Type 0) : Type 0 where
  upsert_record : MemoryRecord V → Call V
  stale_records : List String → Call V
  supersede_record : String → MemoryRecord V → Call V

-- Each call is given the time.
abbrev pub Calls : Type 0 → Type 0
Calls V = List (String × Call V)

module _ {V : Type 0} where
  -- The tables that a call leaves, whether it returns or raises.
  unfoldable pub run_call : String → Call V → Tables V → Tables V
  unfolding upsert supersede mark_stale
  run_call now (upsert_record r) w = (upsert now r w).1
  run_call now (stale_records ids) w = (mark_stale now ids w).1
  run_call now (supersede_record old r) w = (supersede now old r w).1

  unfoldable pub run_calls : Calls V → Tables V → Tables V
  unfolding run_call
  run_calls [] w = w
  run_calls ((now, c) ∷ cs) w = run_calls cs (run_call now c w)

  abbrev Keeps : Tables V → Type 0
  Keeps w = IsUnique w.memories

  upsert-Preserves : (now : String) (r : MemoryRecord V) → Preserves Keeps (upsert now r)
  unfolding upsert upsert_update upsert_insert
  upsert-Preserves now r = record {
    step = λ w unique. go w (find_current r w.memories) refl unique;
  }
    where
      go :
          (w : Tables V) (found : Option (MemoryRecord V))
          → find_current r w.memories ≡ found
          → Keeps w
          → Keeps (upsert now r w).1
      go w none h unique =
          rw (upsert, h)
            (elim (Bool-cases (has_memory r.memory_id w.memories)) [
              | inl e ↦ rw e unique
              | inr e ↦ elim (Bool-cases (knows_memory (w.memories ++ r ∷ []) r.superseded_by)) [
                | inr k ↦ rw (e, k) unique
                | inl k ↦
                    rw (e, k)
                      (record {
                        identities = λ s. append_identities r s w.memories h (unique.identities s);
                        ids = λ id. append_ids r id w.memories e (unique.ids id);
                      })
              ]
            ])
      go w (some q) h unique =
          rw (upsert, h)
            (elim (Bool-cases (knows_memory w.memories r.superseded_by)) [
              | inr e ↦ rw e unique
              | inl e ↦ rw e (IsUnique-overwrite now q r w.memories h unique)
            ])

  mark_stale-Preserves :
      (now : String) (ids : List String) → Preserves Keeps (mark_stale {V = V} now ids)
  unfolding mark_stale
  mark_stale-Preserves now ids = record { step = λ w. IsUnique-make_stale now ids w.memories }

  supersede_old-Preserves :
      (now old : String) (r : MemoryRecord V) → Preserves Keeps (supersede_old now old r)
  unfolding supersede_old
  supersede_old-Preserves now old r = record {
    step = λ w unique. elim (Bool-cases (nat_eq (count_other old r.memory_id w.memories) 1)) [
      | inr e ↦ rw e unique
      | inl e ↦ rw e (IsUnique-superseded now old r.memory_id w.memories unique)
    ];
  }

  supersede-Preserves :
      (now old : String) (r : MemoryRecord V) → Preserves Keeps (supersede now old r)
  unfolding supersede
  supersede-Preserves now old r =
      Preserves-bind (upsert-Preserves now r) (λ a. supersede_old-Preserves now old a)

  run_call-IsUnique :
      (now : String) (c : Call V) (w : Tables V) → Keeps w → Keeps (run_call now c w)
  unfolding run_call
  run_call-IsUnique now (upsert_record r) = (upsert-Preserves now r).step
  run_call-IsUnique now (stale_records ids) = (mark_stale-Preserves now ids).step
  run_call-IsUnique now (supersede_record old r) = (supersede-Preserves now old r).step

  -- From tables in which each identifier has one row and at most one row that is not superseded is
  -- there for each identity, any calls of upsert, mark_stale and supersede, those that raise included,
  -- lead to such tables.
  pub run_calls-IsUnique :
      (cs : Calls V) (w : Tables V) → IsUnique w.memories → IsUnique (run_calls cs w).memories
  unfolding run_calls
  run_calls-IsUnique [] w unique = unique
  run_calls-IsUnique ((now, c) ∷ cs) w unique =
      run_calls-IsUnique cs (run_call now c w) (run_call-IsUnique now c w unique)
