-- ===== src/Registry/Listing.antt =====
-- Which records `ModuleRegistry.list` returns (module_registry/store.py).
use lbe_ci_validation.Registry.{LiveModuleRecord}
use lbe_ci_validation.Registry.Store.{State}
use lbe_ci_validation.Registry.Defects.{ListFilter, list, passes_filter, records_at}
use lbe_ci_validation.Registry.DefectCodes.{contains-keys}
use lbe_ci_validation.Registry.Lifecycle.{IsWellFormed}
use lbe_ci_validation.Base.{
  Bool, Dict, List, Option-cases, String, [], arith, contains, contains-sorted, eq_iff, false,
  filter, inl, inr, keys, lookup, map, none, refl, some, sorted, ◌&&◌, ◌∷◌, ◌≡◌,
}

abbrev pub record_ids : List LiveModuleRecord → List String
record_ids rs = map (λ r. r.declaration.id) rs

-- The registry has a record under the identifier, which passes the filter.
abbrev pub is_listed : ListFilter → String → Dict LiveModuleRecord → Bool
is_listed f id records = elim (lookup id records) [ none ↦ false | some r ↦ passes_filter f r ]

contains-records_at :
    {W : Type 0} (f : ListFilter) (s : State W) (id : String) (ids : List String)
    → IsWellFormed s
    → contains id (record_ids (filter (passes_filter f) (records_at s.0.records ids)))
      ≡ (contains id ids && is_listed f id s.0.records)
unfolding records_at
contains-records_at f s id [] v = refl
contains-records_at f s id (k ∷ ks) v = elim (Option-cases (lookup k s.0.records)) [
  | inl e ↦ rw (e, records_at) (ground (arith, e, eq_iff k id, contains-records_at f s id ks v))
  | inr (r, e) ↦
      rw (e, records_at)
        (ground (arith, e, eq_iff k id, (v.declared k r e).1, contains-records_at f s id ks v))
]

-- In a well-formed registry, `list` returns a record for an identifier exactly if one stands under it
-- and passes every filter that is given.
pub list_exact :
    {W : Type 0} (f : ListFilter) (s : State W) (id : String)
    → IsWellFormed s
    → contains id (record_ids (list f s.0)) ≡ is_listed f id s.0.records
unfolding list
list_exact f s id v =
    rw
      (
        contains-records_at f s id (sorted (keys s.0.records)) v,
        contains-sorted id,
        contains-keys id,
      )
      (elim (Option-cases (lookup id s.0.records)) [
        | inl e ↦ rw e (ground (arith, e))
        | inr (r, e) ↦ rw e (ground (arith, e))
      ])
