-- ===== src/Recovery/Forbidden.antt =====
-- Failures that no policy may retry (recovery.py).
use lbe_ci_validation.Recovery.{
  FailureClass, Ledger, Recovery, RetryPolicy, check_policy, class_name, has_class, never_retryable,
}
use lbe_ci_validation.Recovery.Loop.{conclude, error_text, persist}
use lbe_ci_validation.Base.Exec.{Exec}
use lbe_ci_validation.Base.{
  List, Raised, [], any, arith, eq_iff, err, false, ok, refl, some, true, ℕ, ◌∷◌, ◌≡◌,
}

not_retryable :
    (c : FailureClass) (cs : List FailureClass)
    → has_class c never_retryable ≡ true
    → any (λ d. has_class d never_retryable) cs ≡ false
    → has_class c cs ≡ false
not_retryable c [] h k = refl
not_retryable c (d ∷ ds) h k =
    ground (arith, eq_iff (class_name c) (class_name d), not_retryable c ds h)

check_policy-eq-ok :
    (p q : RetryPolicy)
    → check_policy p ≡ ok q
    → any (λ d. has_class d never_retryable) p.retryable ≡ false
unfolding check_policy
check_policy-eq-ok p q h = ground arith

-- Under a policy that was accepted, a failure of a class that is never retryable is saved as terminal
-- and raised again: no further round is run.
pub conclude_forbidden :
    {W A : Type 0} (ledger : Ledger W) (r : Recovery W A) (accepted : RetryPolicy) (n : ℕ)
    (rest : Exec W A) (e : Raised) (w : W)
    → check_policy r.policy ≡ ok accepted
    → has_class (r.classify e) never_retryable ≡ true
    → (persist ledger r n (some (r.classify e)) true false (some (error_text e)) w).0 ≡ ok tt
    → conclude ledger r n rest (err e) w
      ≡ (err e, (persist ledger r n (some (r.classify e)) true false (some (error_text e)) w).1)
unfolding conclude
conclude_forbidden ledger r accepted n rest e w checked forbidden saved =
    rw
      (
        not_retryable (r.classify e) r.policy.retryable forbidden
            (check_policy-eq-ok r.policy accepted checked),
        saved,
      )
      refl
