-- ===== src/Runtime/Completion/Buckets.antt =====
-- The three lists of a completion decision, described without the loop.
use lbe_ci_validation.Base.{
  Bool, List, String, [], any, ap, append-nil, append_assoc, arith, filter, is_empty, not, refl,
  sym, ◌&&◌, ◌++◌, ◌==◌, ◌∙◌, ◌∷◌, ◌≡◌,
}
use lbe_ci_validation.Runtime.Completion.{
  CompletionEvidence, CompletionRequirement, TaskCompletionContract, requirement_ids,
}
use lbe_ci_validation.Runtime.Completion.Gate.{
  Progress, assess, assess_all, evaluate_completion, is_fail, is_pass, matching, passing, start,
}

-- Some evidence of the kind that the requirement names passes, or fails.
abbrev pub is_satisfied : List CompletionEvidence → CompletionRequirement → Bool
is_satisfied items r = any (λ item. r.evidence_kind == item.kind && is_pass item.status) items

abbrev pub is_refuted : List CompletionEvidence → CompletionRequirement → Bool
is_refuted items r = any (λ item. r.evidence_kind == item.kind && is_fail item.status) items

passing-any :
    (items : List CompletionEvidence) (r : CompletionRequirement)
    → not (is_empty (passing (matching r items))) ≡ is_satisfied items r
passing-any [] r = refl
passing-any (item ∷ items) r = ground (arith, passing-any items r)

failing-any :
    (items : List CompletionEvidence) (r : CompletionRequirement)
    → any (λ item. is_fail item.status) (matching r items) ≡ is_refuted items r
failing-any [] r = refl
failing-any (item ∷ items) r = ground (arith, failing-any items r)

-- The requirements of each list, in the contract's order.
abbrev pub satisfied_of : List CompletionEvidence → List CompletionRequirement → List String
satisfied_of items rs = requirement_ids (filter (is_satisfied items) rs)

abbrev pub failed_of : List CompletionEvidence → List CompletionRequirement → List String
failed_of items rs =
    requirement_ids (filter (λ r. not (is_satisfied items r) && is_refuted items r) rs)

abbrev pub missing_of : List CompletionEvidence → List CompletionRequirement → List String
missing_of items rs =
    requirement_ids (filter (λ r. not (is_satisfied items r) && not (is_refuted items r)) rs)

-- What one requirement adds to each list.
assess-lists :
    (items : List CompletionEvidence) (r : CompletionRequirement) (p : Progress)
    → ((assess items r p).satisfied ≡ p.satisfied ++ satisfied_of items (r ∷ []))
      × ((assess items r p).failing ≡ p.failing ++ failed_of items (r ∷ []))
      × ((assess items r p).missing ≡ p.missing ++ missing_of items (r ∷ []))
unfolding assess
assess-lists items r p = ground (
  arith,
  passing-any items r,
  failing-any items r,
  append-nil p.satisfied,
  append-nil p.failing,
  append-nil p.missing,
)

ids_filter-cons :
    (p : CompletionRequirement → Bool) (r : CompletionRequirement) (rs : List CompletionRequirement)
    → requirement_ids (filter p (r ∷ rs))
      ≡ requirement_ids (filter p (r ∷ [])) ++ requirement_ids (filter p rs)
ids_filter-cons p r rs = ground arith

-- Appending in two steps.
two_steps :
    (before one rest : List String) {mid after whole : List String}
    → mid ≡ before ++ one
    → after ≡ mid ++ rest
    → whole ≡ one ++ rest
    → after ≡ before ++ whole
two_steps before one rest h k e =
    k ∙ ap (λ l. l ++ rest) h ∙ append_assoc before one rest ∙ ap (λ l. before ++ l) (sym e)

assess_all-lists :
    (items : List CompletionEvidence) (rs : List CompletionRequirement) (p : Progress)
    → ((assess_all items rs p).satisfied ≡ p.satisfied ++ satisfied_of items rs)
      × ((assess_all items rs p).failing ≡ p.failing ++ failed_of items rs)
      × ((assess_all items rs p).missing ≡ p.missing ++ missing_of items rs)
unfolding assess_all
assess_all-lists items [] p =
    (sym (append-nil p.satisfied), sym (append-nil p.failing), sym (append-nil p.missing))
assess_all-lists items (r ∷ rs) p =
    let (s, f, m) = assess-lists items r p in
    let (s', f', m') = assess_all-lists items rs (assess items r p) in
    (
      two_steps _ _ _ s s' (ids_filter-cons (λ x. is_satisfied items x) r rs),
      two_steps _ _ _ f f'
          (ids_filter-cons (λ x. not (is_satisfied items x) && is_refuted items x) r rs),
      two_steps _ _ _ m m'
          (ids_filter-cons (λ x. not (is_satisfied items x) && not (is_refuted items x)) r rs),
    )

-- The three lists of a decision are, in the contract's order, the requirements with passing evidence,
-- those without it but with failing evidence, and the rest.
pub evaluate_completion-lists :
    (contract : TaskCompletionContract) (evidence : List CompletionEvidence) (claimed : Bool)
    → let d = evaluate_completion contract evidence claimed in
      (d.satisfied_requirement_ids ≡ satisfied_of evidence contract.requirements)
      × (d.failed_requirement_ids ≡ failed_of evidence contract.requirements)
      × (d.missing_requirement_ids ≡ missing_of evidence contract.requirements)
unfolding evaluate_completion
evaluate_completion-lists contract evidence claimed =
    assess_all-lists evidence contract.requirements start
