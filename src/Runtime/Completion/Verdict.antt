-- ===== src/Runtime/Completion/Verdict.antt =====
-- The verdict of a completion decision.
use lbe_ci_validation.Base.{
  Bool, List, [], all, any, arith, false, filter, if◌then◌else◌, is_empty, not, refl, true, ◌&&◌,
  ◌++◌, ◌∷◌, ◌≡◌,
}
use lbe_ci_validation.Runtime.Completion.{
  CompletionEvidence, CompletionRequirement, CompletionVerdict, TaskCompletionContract, blocked,
  failed, ready, requirement_ids,
}
use lbe_ci_validation.Runtime.Completion.Gate.{evaluate_completion}
use lbe_ci_validation.Runtime.Completion.Buckets.{
  evaluate_completion-lists, failed_of, is_refuted, is_satisfied, missing_of,
}

abbrev pub is_ready : CompletionVerdict → Bool
is_ready ready = true
is_ready _ = false

ids-empty :
    (p : CompletionRequirement → Bool) (rs : List CompletionRequirement)
    → is_empty (requirement_ids (filter p rs)) ≡ not (any p rs)
ids-empty p [] = refl
ids-empty p (r ∷ rs) = ground (arith, ids-empty p rs)

none_left :
    (items : List CompletionEvidence) (rs : List CompletionRequirement)
    → (is_empty (failed_of items rs) && is_empty (missing_of items rs))
      ≡ all (is_satisfied items) rs
none_left items [] = refl
none_left items (r ∷ rs) = ground (arith, none_left items rs)

-- The verdict is `failed` if a requirement has failing evidence and no passing one; else `ready`
-- exactly if every requirement has passing evidence and completion is claimed, and `blocked` if not.
pub completion_verdict_exact :
    (contract : TaskCompletionContract) (evidence : List CompletionEvidence) (claimed : Bool)
    → (evaluate_completion contract evidence claimed).verdict ≡ (
        if any (λ r. not (is_satisfied evidence r) && is_refuted evidence r) contract.requirements
        then failed
        else if all (is_satisfied evidence) contract.requirements && claimed
        then ready
        else blocked)
unfolding evaluate_completion
completion_verdict_exact contract evidence claimed =
    let rs = contract.requirements in
    let (s, f, m) = evaluate_completion-lists contract evidence claimed in
    ground (
      arith,
      f,
      m,
      ids-empty (λ r. not (is_satisfied evidence r) && is_refuted evidence r) rs,
      none_left evidence rs,
    )

is_satisfied-append :
    (more items : List CompletionEvidence) (r : CompletionRequirement)
    → is_satisfied items r ≡ true
    → is_satisfied (more ++ items) r ≡ true
is_satisfied-append [] items r h = h
is_satisfied-append (item ∷ more) items r h = ground (arith, is_satisfied-append more items r h)

is_satisfied-insert :
    (before more after : List CompletionEvidence) (r : CompletionRequirement)
    → is_satisfied (before ++ after) r ≡ true
    → is_satisfied (before ++ more ++ after) r ≡ true
is_satisfied-insert [] more after r h = is_satisfied-append more after r h
is_satisfied-insert (item ∷ before) more after r h =
    ground (arith, h, is_satisfied-insert before more after r)

all_mono :
    (p q : CompletionRequirement → Bool) (rs : List CompletionRequirement)
    → ((r : CompletionRequirement) → p r ≡ true → q r ≡ true)
    → all p rs ≡ true
    → all q rs ≡ true
all_mono p q [] f h = refl
all_mono p q (r ∷ rs) f h = ground (arith, f r, all_mono p q rs f)

satisfied_not_refuted :
    (items : List CompletionEvidence) (rs : List CompletionRequirement)
    → all (is_satisfied items) rs ≡ true
    → any (λ r. not (is_satisfied items r) && is_refuted items r) rs ≡ false
satisfied_not_refuted items [] h = refl
satisfied_not_refuted items (r ∷ rs) h = ground (arith, satisfied_not_refuted items rs)

-- A decision is ready exactly if completion is claimed and every requirement has passing evidence:
-- failing or stale evidence beside it does not matter.
pub ready_exact :
    (contract : TaskCompletionContract) (evidence : List CompletionEvidence) (claimed : Bool)
    → is_ready (evaluate_completion contract evidence claimed).verdict
      ≡ (claimed && all (is_satisfied evidence) contract.requirements)
ready_exact contract evidence claimed = ground (
  arith,
  completion_verdict_exact contract evidence claimed,
  satisfied_not_refuted evidence contract.requirements,
)

-- More evidence, whatever it says and wherever it stands among the evidence (before it, within it or
-- after it), never takes readiness back.
pub ready_monotone :
    (contract : TaskCompletionContract) (before more after : List CompletionEvidence)
    (claimed : Bool)
    → is_ready (evaluate_completion contract (before ++ after) claimed).verdict ≡ true
    → is_ready (evaluate_completion contract (before ++ more ++ after) claimed).verdict ≡ true
ready_monotone contract before more after claimed h = ground (
  arith,
  h,
  ready_exact contract (before ++ after) claimed,
  ready_exact contract (before ++ more ++ after) claimed,
  all_mono (is_satisfied (before ++ after)) (is_satisfied (before ++ more ++ after))
      contract.requirements (is_satisfied-insert before more after),
)
