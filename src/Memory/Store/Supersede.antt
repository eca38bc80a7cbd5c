-- ===== src/Memory/Store/Supersede.antt =====
-- Superseding a record by one of the same identity (memory/store.py).
use lbe_ci_validation.Memory.{MemoryRecord}
use lbe_ci_validation.Memory.Store.{Tables}
use lbe_ci_validation.Memory.Store.Records.{
  count_other, find_current, knows_memory, overwrite, renewed, supersede, supersede_old,
  update_memory, upsert, upsert_update,
}
use lbe_ci_validation.Base.{
  List, String, [], arith, concat, err, key_error, refl, some, true, ◌∷◌, ◌≡◌,
}

module _ {V : Type 0} where
  -- No row has the identifier and another one.
  count_other_lem : (id : String) (qs : List (MemoryRecord V)) → count_other id id qs ≡ 0
  unfolding count_other
  count_other_lem id [] = refl
  count_other_lem id (q ∷ qs) = ground (arith, count_other_lem id qs)

  upsert-found :
      (now : String) (r q : MemoryRecord V) (w : Tables V)
      → find_current r w.memories ≡ some q
      → upsert now r w ≡ upsert_update now q r w
  unfolding upsert
  upsert-found now r q w h = rw (upsert, h) refl

  -- Where the row to supersede is the current row of the identity of the new record, and what the new
  -- record is superseded by is a row or none, `supersede` overwrites the old row by the new record,
  -- and then raises, with a message that says that the row is not there or superseded.
  pub supersede-same_identity :
      (now : String) (r q : MemoryRecord V) (w : Tables V)
      → find_current r w.memories ≡ some q
      → knows_memory w.memories r.superseded_by ≡ true
      → supersede now q.memory_id r w ≡ (
        err (key_error (concat "memory not found or already superseded: " q.memory_id)),
        record w { memories = update_memory q.memory_id (overwrite (renewed now q r)) w.memories },
      )
  unfolding supersede supersede_old upsert_update
  supersede-same_identity now r q w h known = rw (upsert-found now r q w h) (
      rw known (
        rw
          (count_other_lem q.memory_id
            (update_memory q.memory_id (overwrite (renewed now q r)) w.memories))
          refl))
