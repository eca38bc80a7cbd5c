-- ===== src/Guards.antt =====
-- reasoning_guard_planner.py: which of the proposed guards may be run.
pub mod Select
mod Examples
use lbe_ci_validation.Base.{
  Bool, Dict, Items, List, Option, String, Value, [], arr, contains, filter, if◌then◌else◌,
  is_blank, is_empty, lookup, map, no_items, none, not, some, str, with_item, ◌&&◌, ◌==◌, ◌∷◌,
}

-- `EvidencePlan` of reasoning_planner.py.
pub record EvidencePlan : Type 0 where
  pub required : List String
  pub optional : List String
  pub missing : List String

-- `EvidencePlan.complete`
abbrev pub is_complete : EvidencePlan → Bool
is_complete plan = is_empty plan.missing

pub record GuardCandidate : Type 0 where
  pub guard_id : String
  pub reason : String
  pub evidence_plan : EvidencePlan

pub record GuardSelection : Type 0 where
  pub selected_guard_id : Option String
  pub rejected_guard_ids : List String
  pub stop_reason : Option String

-- `tuple(dict.fromkeys(…))`
unfoldable pub first_places : List String → List String
first_places [] = []
first_places (s ∷ ss) = s ∷ filter (λ t. not (t == s)) (first_places ss)

-- The texts of an array that are not blank.
texts_of : Items → List String
texts_of no_items = []
texts_of (with_item (str s) rest) = if is_blank s then texts_of rest else s ∷ texts_of rest
texts_of (with_item _ rest) = texts_of rest

-- `_profile_guard_ids`
unfoldable pub profile_guard_ids : Dict Value → List String
unfolding texts_of
profile_guard_ids profile = elim (lookup "enabled_guard_ids" profile) [
  | some (arr items) ↦ texts_of items
  | _ ↦ []
]

abbrev pub guard_ids : List GuardCandidate → List String
guard_ids = map (λ c. c.guard_id)

unfoldable pub rejected : List String → List GuardCandidate → List String
unfolding first_places
rejected approved candidates =
    first_places (guard_ids (filter (λ c. not (contains c.guard_id approved)) candidates))

unfoldable pub eligible : List String → List GuardCandidate → List GuardCandidate
eligible approved = filter (λ c. contains c.guard_id approved && is_complete c.evidence_plan)

-- Those that the profile enables, or all of them if it enables none of them.
unfoldable pub pool_of : List String → List GuardCandidate → List GuardCandidate
pool_of enabled candidates =
    let preferred = filter (λ c. contains c.guard_id enabled) candidates in
    if is_empty preferred then candidates else preferred

abbrev pub stop : String → GuardSelection
stop reason = record {
  selected_guard_id = none;
  rejected_guard_ids = [];
  stop_reason = some reason;
}

unfoldable pub the_only : List String → GuardSelection
the_only (g ∷ []) = record {
  selected_guard_id = some g;
  rejected_guard_ids = [];
  stop_reason = none;
}
the_only _ = stop "AMBIGUOUS_GUARD_SELECTION"

-- `GuardPlanner.select`; a profile that is not given is an empty one.
unfoldable pub select : List GuardCandidate → List String → Dict Value → GuardSelection
unfolding rejected eligible pool_of profile_guard_ids the_only
select candidates approved profile =
    let bad = rejected approved candidates in
    let good = eligible approved candidates in
    if not (is_empty bad)
    then record {
      selected_guard_id = none;
      rejected_guard_ids = bad;
      stop_reason = some "UNKNOWN_GUARD";
    }
    else if is_empty candidates
    then stop "NO_GUARD_SELECTED"
    else if is_empty good
    then stop "INSUFFICIENT_EVIDENCE"
    else the_only (first_places (guard_ids (pool_of (profile_guard_ids profile) good)))
