-- ===== src/Memory/Completion/Kept.antt =====
-- What is kept of evidence (memory/completion_evidence.py).
use lbe_ci_validation.Memory.Completion.Candidate.{
  GivenEvidence, make_candidate, required, status_of_text, status_text, upper,
}
use lbe_ci_validation.Runtime.Completion.{EvidenceStatus, fail, pass}
use lbe_ci_validation.Base.{
  Bool-cases, Option, Result, Returned, Returned-bind, Returned-ok, String, ap, arith, inl, inr,
  none, ok, ok-inj, refl, some, strip, subst, sym, true, ◌==◌, ◌∙◌, ◌≡◌,
}
-- A status is read back from its text.
use lbe_ci_validation.Base.Exec.Triples.{
  Anywhere, Triple, Triple-any, Triple-bind, Triple-given, Triple-lift, Triple-to,
}
use lbe_ci_validation.Memory.Completion.{CompletionTables, StoredEvidence, check_owner}
use lbe_ci_validation.Memory.Completion.Evidence.{
  evidence_of_row, keep_evidence, keep_new, same_payload, save_evidence, session_of,
}
use lbe_ci_validation.Base.Exec.{lift}

pub status_of_text_lem :
    (s : EvidenceStatus) → status_of_text (upper (strip (status_text s))) ≡ ok s
unfolding status_of_text upper strip
status_of_text_lem pass = refl
status_of_text_lem fail = refl
status_of_text_lem EvidenceStatus.stale = refl

status_text-inj : (s t : EvidenceStatus) → (status_text s == status_text t) ≡ true → s ≡ t
status_text-inj pass pass h = refl
status_text-inj fail fail h = refl
status_text-inj EvidenceStatus.stale EvidenceStatus.stale h = refl
status_text-inj pass fail h = absurd (cc h)
status_text-inj pass EvidenceStatus.stale h = absurd (cc h)
status_text-inj fail pass h = absurd (cc h)
status_text-inj fail EvidenceStatus.stale h = absurd (cc h)
status_text-inj EvidenceStatus.stale pass h = absurd (cc h)
status_text-inj EvidenceStatus.stale fail h = absurd (cc h)

required-ok : (value name : String) {a : String} → required value name ≡ ok a → a ≡ strip value
unfolding required
required-ok value name h = elim (Bool-cases (strip value == "")) [
  | inl e ↦ absurd (cc (rw e at h))
  | inr e ↦ sym (ok-inj (rw e at h))
]

candidate_status :
    (g : String) (s : String) (known : EvidenceStatus)
    → required g "status" ≡ ok s
    → status_of_text (upper s) ≡ ok known
    → status_of_text (upper (strip g)) ≡ ok known
candidate_status g s known is_s is_known =
    subst (λ x. status_of_text (upper x) ≡ ok known) (required-ok g "status" is_s) is_known

module _ {D : Type 0} where
  same_payload-status :
      (details_json : D → String) (e f : StoredEvidence D)
      → same_payload details_json e f ≡ true
      → (status_text e.status == status_text f.status) ≡ true
  unfolding same_payload
  same_payload-status details_json e f h = ground (arith, h)

  pub make_candidate-status :
      (resolve : String → String) (now : String) (g : GivenEvidence D)
      → Returned
          (λ e. status_of_text (upper (strip g.status)) ≡ ok e.status)
          (make_candidate resolve now g)
  unfolding make_candidate
  make_candidate-status resolve now g =
      search (Returned-bind, Returned-ok, candidate_status) depth 14

module _ {V D : Type 0} (resolve : String → String) (details_json : D → String) where
  keep_evidence-status :
      (e f : StoredEvidence D) (o : Option (StoredEvidence D)) (w : CompletionTables V D)
      → (keep_evidence resolve details_json e o w).0 ≡ ok f
      → f.status ≡ e.status
  unfolding keep_evidence
  keep_evidence-status e f none w h = sym (ap (λ x. x.status) (ok-inj h))
  keep_evidence-status e f (some g) w h =
      elim (Bool-cases (same_payload details_json (evidence_of_row resolve g) e)) [
        | inr p ↦ absurd (cc (rw p at h))
        | inl p ↦
            sym (ap (λ x. x.status) (ok-inj (rw p at h)))
            ∙ status_text-inj g.status e.status
                (same_payload-status details_json (evidence_of_row resolve g) e p)
      ]

  keep_new-status :
      (e : StoredEvidence D)
      → Triple {W = CompletionTables V D} Anywhere
          (keep_new resolve details_json e)
          (λ f w. f.status ≡ e.status)
  unfolding keep_new
  keep_new-status e = record { has = λ w q f h. keep_evidence-status e f _ w h }

  -- The evidence that is saved has the status that was given.
  pub save_evidence-status :
      (given : Result (StoredEvidence D)) (s : EvidenceStatus)
      → Returned (λ e. e.status ≡ s) given
      → Triple {W = CompletionTables V D} Anywhere
          (save_evidence resolve details_json given)
          (λ f w. f.status ≡ s)
  unfolding save_evidence
  save_evidence-status given s p = Triple-bind (Triple-lift given) (λ e. Triple-given (λ is_e.
      Triple-bind (Triple-any (session_of resolve e.session_id)) (λ session.
        Triple-bind
          (Triple-any (
            lift (
              check_owner "completion evidence" e.session_id e.project_workspace_id
                e.canonical_workspace_root session)))
          (λ done. Triple-to (keep_new-status e) (λ f w q. q ∙ p.has e is_e)))))
