-- ===== src/Runtime/Producers/Passing.antt =====
-- What passing evidence shows of the workspace (runtime/completion_evidence_producers.py).
use lbe_ci_validation.Base.Exec.Triples.{Triple, Triple-bind, Triple-given}
use lbe_ci_validation.Base.Exec.Reads.{Triple-read}
use lbe_ci_validation.Memory.Completion.{CompletionTables}
use lbe_ci_validation.Runtime.Completion.{EvidenceStatus, pass}
use lbe_ci_validation.Runtime.Producers.Snapshots.{LiveState, live_git_state}
use lbe_ci_validation.Runtime.Producers.Classify.{
  Evidence, ProducerDetails, has_head, is_pass, latest_pass, source_details, status_details,
  status_evidence, task_entries, test_details,
}
use lbe_ci_validation.Runtime.Producers.Produce.{
  Environment, latest_source_change, live, produce_git_status,
}
use lbe_ci_validation.Runtime.Producers.Sound.{
  Reads-latest_source_change, Reads-live, Reads-require_declared, classify_git-pass,
  persist_evidence-status,
}
use lbe_ci_validation.Session.{Bridge}
use lbe_ci_validation.Memory.Completion.Evidence.{load_evidence}
use lbe_ci_validation.Base.{
  All, Bool, Bool-cases, List, Option, Option-cases, Result, String, [], ap, arith, contains,
  eq_iff, err, false, inl, inr, none, ok, ok-inj, refl, some, some-inj, subst, sym, true, ◌&&◌,
  ◌++◌, ◌==◌, ◌∙◌, ◌∷◌, ◌≡◌,
}
use lbe_ci_validation.Base.Exec.{continue, lift}

abbrev pub World : Type 0 → Type 0 → Type 0
World V W = CompletionTables V ProducerDetails × W

-- The state that the details of a piece of evidence name, and the entries that they list for the task;
-- only a source change lists any.
pub data Records : ProducerDetails → LiveState → List String → Type 0 where
  of_source :
      {state baseline : LiveState} {entries : List String} {reason : String}
      → Records (source_details state baseline entries reason) state entries
  of_status :
      {state : LiveState} {id : Option String} {expected unexpected : List String} {reason : String}
      → Records (status_details state id expected unexpected reason) state []

-- A passing source change that its producer recorded for the operation.
abbrev pub IsSourcePass : String → Evidence → Type 0
IsSourcePass operation_id e =
    (e.kind ≡ "source_change")
    × (e.status ≡ pass)
    × (e.producer_id ≡ "lbe.completion.source_change.v1")
    × (e.operation_id ≡ operation_id)

-- The last passing source change of a list.
abbrev pub IsLatest : String → List Evidence → Evidence → Type 0
IsLatest operation_id records change =
    (before : List Evidence) × (after : List Evidence) × (records ≡ before ++ change ∷ after)
    × IsSourcePass operation_id change
    × All (λ e. ¬ IsSourcePass operation_id e) after

is_pass-eq : (status : EvidenceStatus) → is_pass status ≡ true → status ≡ pass
is_pass-eq pass h = refl
is_pass-eq EvidenceStatus.fail h = absurd (cc h)
is_pass-eq EvidenceStatus.stale h = absurd (cc h)

abbrev is_source_pass : String → Evidence → Bool
is_source_pass operation_id e =
    e.kind == "source_change"
    && is_pass e.status
    && e.producer_id == "lbe.completion.source_change.v1"
    && e.operation_id == operation_id

is_source_pass-IsSourcePass :
    (operation_id : String) (e : Evidence)
    → is_source_pass operation_id e ≡ true
    → IsSourcePass operation_id e
is_source_pass-IsSourcePass operation_id e h = (
  (eq_iff e.kind "source_change").0 (ground (arith, h)),
  is_pass-eq e.status (ground (arith, h)),
  (eq_iff e.producer_id "lbe.completion.source_change.v1").0 (ground (arith, h)),
  (eq_iff e.operation_id operation_id).0 (ground (arith, h)),
)

not-IsSourcePass :
    (operation_id : String) (e : Evidence)
    → is_source_pass operation_id e ≡ false
    → ¬ IsSourcePass operation_id e
not-IsSourcePass operation_id e h (k, s, p, o) =
    let kind = (eq_iff e.kind "source_change").1 k in
    let status : is_pass e.status ≡ true = ap is_pass s in
    let producer = (eq_iff e.producer_id "lbe.completion.source_change.v1").1 p in
    let operation = (eq_iff e.operation_id operation_id).1 o in
    absurd (cc (rw (kind, status, producer, operation) at h))

latest_pass-none :
    (operation_id : String) (es : List Evidence)
    → latest_pass operation_id es ≡ none
    → All (λ e. ¬ IsSourcePass operation_id e) es
unfolding latest_pass
latest_pass-none operation_id [] h = tt
latest_pass-none operation_id (e ∷ es) h = elim (Option-cases (latest_pass operation_id es)) [
  | inr (later, l) ↦ absurd (cc (rw l at h))
  | inl l ↦ elim (Bool-cases (is_source_pass operation_id e)) [
    | inl b ↦ absurd (cc (rw (l, b) at h))
    | inr b ↦ (not-IsSourcePass operation_id e b, latest_pass-none operation_id es l)
  ]
]

latest_pass-IsLatest :
    (operation_id : String) (es : List Evidence) (change : Evidence)
    → latest_pass operation_id es ≡ some change
    → IsLatest operation_id es change
unfolding latest_pass
latest_pass-IsLatest operation_id [] change h = absurd (cc h)
latest_pass-IsLatest operation_id (e ∷ es) change h =
    elim (Option-cases (latest_pass operation_id es)) [
      | inr (later, l) ↦
          let (before, after, split, passed, none_after) =
            latest_pass-IsLatest operation_id es change (l ∙ (rw l at h)) in
          (e ∷ before, after, ap (λ (xs : List Evidence). e ∷ xs) split, passed, none_after)
      | inl l ↦ elim (Bool-cases (is_source_pass operation_id e)) [
        | inr b ↦ absurd (cc (rw (l, b) at h))
        | inl b ↦
            let same : e ≡ change = some-inj (rw (l, b) at h) in
            (
              [],
              es,
              ap (λ (x : Evidence). x ∷ es) same,
              subst (IsSourcePass operation_id) same (is_source_pass-IsSourcePass operation_id e b),
              latest_pass-none operation_id es l,
            )
      ]
    ]

-- What the code's own look-ups say of the details of a change.
records :
    (state : LiveState) (details : ProducerDetails)
    → has_head state.head details ≡ true
    → ((entry : String)
        → contains entry state.status_entries ≡ contains entry (task_entries details))
    → (seen : LiveState) × (entries : List String) × Records details seen entries
      × (seen.head ≡ state.head)
      × ((entry : String) → contains entry state.status_entries ≡ contains entry entries)
records state (source_details seen baseline entries reason) head same =
    (seen, entries, of_source, (eq_iff seen.head state.head).0 head, same)
records state (status_details seen id expected unexpected reason) head same =
    (seen, [], of_status, (eq_iff seen.head state.head).0 head, same)
records state (test_details policy before after code out error reason) head same = absurd (cc head)

module _ {S : Type 0} (operation_id : String) where
  loaded :
      (out : Result (List Evidence)) (s : S) (change : Option Evidence)
      → (continue (λ found. lift (ok (latest_pass operation_id found))) out s).0 ≡ ok change
      → (found : List Evidence) × (out ≡ ok found) × (latest_pass operation_id found ≡ change)
  loaded (ok found) s change h = (found, refl, ok-inj h)
  loaded (err e) s change h = absurd (cc h)

module _ {V W : Type 0} (env : Environment W) (bridge : Bridge) where
  -- The repository is in the state that the last of the task's passing source changes has recorded.
  abbrev pub Matches : String → String → World V W → Type 0
  Matches task_id operation_id s =
      (state : LiveState) × (live_git_state env.git s.1 ≡ ok state)
      × (found : List Evidence) × ((load_evidence env.resolve bridge.session_id task_id
            bridge.project_workspace_id s.0).0
          ≡ ok found)
      × (change : Evidence) × IsLatest operation_id found change
      × (seen : LiveState) × (entries : List String) × Records change.details seen entries
      × (seen.head ≡ state.head)
      × ((entry : String) → contains entry state.status_entries ≡ contains entry entries)

  status_evidence-pass :
      (task_id operation_id : String) (s : World V W) (state : LiveState) (change : Option Evidence)
      → live_git_state env.git s.1 ≡ ok state
      → (latest_source_change env bridge task_id operation_id s).0 ≡ ok change
      → (status_evidence state change).0 ≡ pass
      → Matches task_id operation_id s
  unfolding status_evidence latest_source_change
  status_evidence-pass task_id operation_id s state none is_state is_change h = absurd (cc h)
  status_evidence-pass task_id operation_id s state (some change) is_state is_change h =
      let (head, same) = classify_git-pass state change h in
      let (found, is_found, latest) = loaded operation_id _ _ (some change) is_change in
      let last = latest_pass-IsLatest operation_id found change latest in
      let (seen, entries, recorded, at_head, listed) = records state change.details head same in
      (state, is_state, found, is_found, change, last, seen, entries, recorded, at_head, listed)

  produce_git_status-Triple :
      (task_id operation_id : String) (s : World V W)
      → Triple
          (λ t. t ≡ s)
          (produce_git_status env bridge task_id operation_id)
          (λ e t. e.status ≡ pass → Matches task_id operation_id s)
  unfolding produce_git_status live
  produce_git_status-Triple task_id operation_id s =
      Triple-bind
        (Triple-read s (Reads-require_declared env bridge task_id operation_id "git_status"))
        (λ done. Triple-given (λ declared.
          Triple-bind (Triple-read s (Reads-live env bridge)) (λ state. Triple-given (λ is_state.
            Triple-bind (Triple-read s (Reads-latest_source_change env bridge task_id operation_id))
              (λ change. Triple-given (λ is_change. record {
                has = λ t q e h passed.
                    status_evidence-pass task_id operation_id s state change is_state is_change
                      (sym ((persist_evidence-status env bridge _ t.1).has t refl e h).0 ∙ passed);
              }))))))

  -- Git status evidence of the status PASS is returned only where the evidence that the store loads for
  -- the task contains a passing source change, recorded for the operation by the producer of source
  -- changes, with no other such one after it, whose details name a state at the head that git reports
  -- now, and list for the task the entries that git reports now, in any order.
  pub produce_git_status-pass :
      (task_id operation_id : String) (s : World V W) (e : Evidence)
      → (produce_git_status env bridge task_id operation_id s).0 ≡ ok e
      → e.status ≡ pass
      → Matches task_id operation_id s
  produce_git_status-pass task_id operation_id s e h passed =
      (produce_git_status-Triple task_id operation_id s).has s refl e h passed
