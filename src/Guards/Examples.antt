-- ===== src/Guards/Examples.antt =====
-- The selection of a guard at concrete inputs.
use lbe_ci_validation.Guards.{
  GuardCandidate, eligible, is_complete, pool_of, profile_guard_ids, select,
}
use lbe_ci_validation.Guards.Select.{select-selected}
use lbe_ci_validation.Base.{
  Dict, List, String, Value, [], all, any, arr, contains, lookup, no_items, refl, some, str, strip,
  true, with_item, ◌&&◌, ◌==◌, ◌∷◌, ◌≡◌,
}

abbrev candidate : String → List String → GuardCandidate
candidate id missing = record {
  guard_id = id;
  reason = "the parser changed";
  evidence_plan = record { required = []; optional = []; missing = missing };
}

abbrev candidates : List GuardCandidate
candidates = candidate "g1" [] ∷ candidate "g2" [] ∷ candidate "g1" ("a log" ∷ []) ∷ []

abbrev profile : Dict Value
profile = ("enabled_guard_ids", arr (with_item (str "g1") no_items)) ∷ []

-- Without the profile, both guards are candidates.
select_ambiguous :
    (select candidates ("g1" ∷ "g2" ∷ []) []).stop_reason ≡ some "AMBIGUOUS_GUARD_SELECTION"
unfolding select lookup
select_ambiguous = refl

select-selected_example :
    (all (λ c. contains c.guard_id ("g1" ∷ "g2" ∷ [])) candidates ≡ true)
    × (any
          (λ c.
            c.guard_id == "g1" && contains "g1" ("g1" ∷ "g2" ∷ []) && is_complete c.evidence_plan)
          candidates
        ≡ true)
    × (all
          (λ c. c.guard_id == "g1")
          (pool_of (profile_guard_ids profile) (eligible ("g1" ∷ "g2" ∷ []) candidates))
        ≡ true)
unfolding select lookup strip
select-selected_example = select-selected candidates ("g1" ∷ "g2" ∷ []) profile "g1" refl
