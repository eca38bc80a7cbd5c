-- ===== src/Runtime/Completion/Gate.antt =====
-- `evaluate_completion` of runtime/completion_gate.py.
use lbe_ci_validation.Base.{
  Bool, List, String, [], any, false, filter, if◌then◌else◌, is_empty, map, not, true, ◌++◌, ◌==◌,
  ◌∷◌,
}
use lbe_ci_validation.Runtime.Completion.{
  CompletionDecision, CompletionEvidence, CompletionRequirement, CompletionVerdict, EvidenceStatus,
  TaskCompletionContract, blocked, fail, failed, pass, ready,
}

abbrev pub is_pass : EvidenceStatus → Bool
is_pass pass = true
is_pass _ = false

abbrev pub is_fail : EvidenceStatus → Bool
is_fail fail = true
is_fail _ = false

-- The four lists of the loop.
pub record Progress : Type 0 where
  pub satisfied : List String
  pub missing : List String
  pub failing : List String
  pub used_evidence : List String

abbrev pub ids_of : List CompletionEvidence → List String
ids_of = map (λ item. item.evidence_id)

abbrev pub matching : CompletionRequirement → List CompletionEvidence → List CompletionEvidence
matching requirement = filter (λ item. requirement.evidence_kind == item.kind)

abbrev pub passing : List CompletionEvidence → List CompletionEvidence
passing = filter (λ item. is_pass item.status)

-- One round of the loop.
unfoldable pub assess : List CompletionEvidence → CompletionRequirement → Progress → Progress
assess items requirement p =
    let matches = matching requirement items in
    let good = passing matches in
    if not (is_empty good)
    then record p {
      satisfied = p.satisfied ++ requirement.requirement_id ∷ [];
      used_evidence = p.used_evidence ++ ids_of good;
    }
    else if any (λ item. is_fail item.status) matches
    then record p {
      failing = p.failing ++ requirement.requirement_id ∷ [];
      used_evidence = p.used_evidence ++ ids_of matches;
    }
    else record p {
      missing = p.missing ++ requirement.requirement_id ∷ [];
      used_evidence = p.used_evidence ++ ids_of matches;
    }

unfoldable pub assess_all :
    List CompletionEvidence → List CompletionRequirement → Progress → Progress
unfolding assess
assess_all items [] p = p
assess_all items (r ∷ rs) p = assess_all items rs (assess items r p)

abbrev pub start : Progress
start = record { satisfied = []; missing = []; failing = []; used_evidence = [] }

-- `tuple(dict.fromkeys(xs))`: the first of each.
unfoldable pub unique : List String → List String
unique [] = []
unique (x ∷ xs) = x ∷ filter (λ y. not (x == y)) (unique xs)

verdict_of : Progress → Bool → CompletionVerdict × String
verdict_of p claimed_complete =
    if not (is_empty p.failing)
    then (failed, "Required completion evidence contains a deterministic failure.")
    else if not (is_empty p.missing)
    then (blocked, "Required completion evidence is missing or stale.")
    else if not claimed_complete
    then (blocked, "Required evidence passes, but completion has not been requested.")
    else (ready, "All required completion evidence passes.")

unfoldable pub evaluate_completion :
    TaskCompletionContract → List CompletionEvidence → Bool → CompletionDecision
unfolding assess_all verdict_of unique
evaluate_completion contract evidence claimed_complete =
    let p = assess_all evidence contract.requirements start in
    let (verdict, rationale) = verdict_of p claimed_complete in
    record {
      verdict = verdict;
      claimed_complete = claimed_complete;
      satisfied_requirement_ids = p.satisfied;
      missing_requirement_ids = p.missing;
      failed_requirement_ids = p.failing;
      evidence_ids = unique p.used_evidence;
      rationale = rationale;
    }
