-- ===== src/Runtime/Producers/Sound.antt =====
-- What passing evidence shows of the workspace (runtime/completion_evidence_producers.py).
use lbe_ci_validation.Runtime.Completion.{pass}
use lbe_ci_validation.Runtime.Producers.Snapshots.{LiveState}
use lbe_ci_validation.Runtime.Producers.Classify.{
  Evidence, ProducerDetails, classify_git, difference, has_head, latest_pass, task_entries, unique,
}
use lbe_ci_validation.Base.{
  Bool-cases, List, String, [], ap, arith, contains, contains-sorted, eq_iff, false, filter, inl,
  inr, is_empty, not, ok, ok-inj, refl, sym, true, ◌&&◌, ◌==◌, ◌∙◌, ◌∷◌, ◌≡◌,
}
use lbe_ci_validation.Base.Exec.{Exec}
use lbe_ci_validation.Base.Exec.Reads.{Reads, Reads-bind, Reads-lift, Reads-read}
use lbe_ci_validation.Memory.Completion.{CompletionTables, load_contract}
use lbe_ci_validation.Memory.Completion.Evidence.{load_evidence}
use lbe_ci_validation.Runtime.Producers.Produce.{
  Environment, Payload, latest_source_change, live, on_tables, persist_evidence, require_declared,
}
use lbe_ci_validation.Session.{Bridge}
use lbe_ci_validation.Session.Contract.{own_contract}
use lbe_ci_validation.Session.Completion.{load_task_contract}
use lbe_ci_validation.Base.Exec.Triples.{Anywhere, Triple}
use lbe_ci_validation.Memory.Completion.Kept.{
  make_candidate-status, save_evidence-status, status_of_text_lem,
}
use lbe_ci_validation.Memory.Completion.Candidate.{required}

contains_same : (s x : String) (ss : List String) → (s == x) ≡ true → contains s ss ≡ contains x ss
contains_same s x ss h = ap (λ t. contains t ss) ((eq_iff s x).0 h)

contains-filter :
    (x : String) (others ss : List String)
    → contains x (filter (λ s. not (contains s others)) ss)
      ≡ (contains x ss && not (contains x others))
contains-filter x others [] = refl
contains-filter x others (s ∷ ss) =
    ground (arith, contains-filter x others ss, contains_same s x others)

contains-unique : (x : String) (ss : List String) → contains x (unique ss) ≡ contains x ss
unfolding unique
contains-unique x [] = refl
contains-unique x (s ∷ ss) = ground (arith, contains-unique x ss, contains_same s x ss)

-- An entry of the difference is in the one list and not in the other.
contains-difference :
    (x : String) (entries others : List String)
    → contains x (difference entries others) ≡ (contains x entries && not (contains x others))
unfolding difference
contains-difference x entries others =
    contains-sorted x (unique (filter (λ s. not (contains s others)) entries))
    ∙ contains-unique x (filter (λ s. not (contains s others)) entries)
    ∙ contains-filter x others entries

is_empty-contains : (x : String) (ss : List String) → is_empty ss ≡ true → contains x ss ≡ false
is_empty-contains x [] h = refl
is_empty-contains x (s ∷ ss) h = absurd (cc h)

-- Lists whose differences are empty have the same entries.
same_entries :
    (xs ys : List String) (x : String)
    → is_empty (difference xs ys) ≡ true
    → is_empty (difference ys xs) ≡ true
    → contains x xs ≡ contains x ys
same_entries xs ys x hx hy =
    let a = sym (contains-difference x xs ys) ∙ is_empty-contains x _ hx in
    let b = sym (contains-difference x ys xs) ∙ is_empty-contains x _ hy in ground (arith, a, b)

pub classify_git-pass :
    (state : LiveState) (change : Evidence)
    → (classify_git state change).0 ≡ pass
    → (has_head state.head change.details ≡ true)
      × ((x : String) → contains x state.status_entries ≡ contains x (task_entries change.details))
unfolding classify_git
classify_git-pass state change h =
    elim (Bool-cases (is_empty (difference state.status_entries (task_entries change.details)))) [
      | inr e ↦ absurd (cc (rw e at h))
      | inl e ↦
          elim (Bool-cases
            (is_empty (difference (task_entries change.details) state.status_entries))) [
              | inr f ↦ absurd (cc (rw (e, f) at h))
              | inl f ↦ elim (Bool-cases (has_head state.head change.details)) [
                | inr g ↦ absurd (cc (rw (e, f, g) at h))
                | inl g ↦
                    (g, λ x. same_entries state.status_entries (task_entries change.details) x e f)
              ]
            ]
    ]

module _ {V W : Type 0} (env : Environment W) (bridge : Bridge) where
  pub Reads-on_tables :
      {A : Type 0} {m : Exec (CompletionTables V ProducerDetails) A}
      → Reads m
      → Reads (on_tables {W = W} m)
  Reads-on_tables p = record { same = λ s. ap (λ t. (t, s.1)) (p.same s.0) }

  pub Reads-live : Reads (live {V = V} env bridge)
  unfolding live
  Reads-live = record { same = λ s. refl }

  pub Reads-load_task_contract :
      (task_id : String)
      → Reads (load_task_contract {V = V} {D = ProducerDetails} env.resolve bridge task_id)
  unfolding load_task_contract
  Reads-load_task_contract task_id =
      Reads-bind
        (Reads-read
          (load_contract env.resolve bridge.session_id task_id bridge.project_workspace_id))
        (λ stored. Reads-lift (own_contract bridge stored))

  pub Reads-require_declared :
      (task_id operation_id kind : String)
      → Reads (require_declared {V = V} env bridge task_id operation_id kind)
  unfolding require_declared
  Reads-require_declared task_id operation_id kind = Reads-bind (Reads-lift _) (λ a.
      Reads-bind (Reads-on_tables (Reads-load_task_contract task_id)) (λ contract. Reads-lift _))

  pub Reads-load_evidence :
      (session_id task_id project : String)
      → Reads (load_evidence {V = V} {D = ProducerDetails} env.resolve session_id task_id project)
  unfolding load_evidence
  Reads-load_evidence session_id task_id project =
      Reads-bind (Reads-lift (required session_id "session_id")) (λ a.
        Reads-bind (Reads-lift (required task_id "task_id")) (λ b.
          Reads-bind (Reads-lift (required project "project_workspace_id"))
            (λ c. record { same = λ s. refl })))

  pub Reads-latest_source_change :
      (task_id operation_id : String)
      → Reads (latest_source_change {V = V} env bridge task_id operation_id)
  unfolding latest_source_change
  Reads-latest_source_change task_id operation_id =
      Reads-bind
        (Reads-on_tables
          (Reads-load_evidence bridge.session_id task_id bridge.project_workspace_id))
        (λ records. Reads-lift (ok (latest_pass operation_id records)))

  -- An action on the tables leaves the workspace as it was.
  Triple-on_tables :
      {A : Type 0} {P : A → Type 0} {m : Exec (CompletionTables V ProducerDetails) A} (w : W)
      → Triple Anywhere m (λ a t. P a)
      → Triple (λ t. t.1 ≡ w) (on_tables {W = W} m) (λ a t. P a × (t.1 ≡ w))
  Triple-on_tables w p = record { has = λ s q a h. (p.has s.0 tt a h, q) }

  pub persist_evidence-status :
      (p : Payload) (w : W)
      → Triple
          (λ t. t.1 ≡ w)
          (persist_evidence {V = V} env bridge p)
          (λ e t. (e.status ≡ p.status) × (t.1 ≡ w))
  unfolding persist_evidence
  persist_evidence-status p w = Triple-on_tables w (
      save_evidence-status env.resolve env.details_json _ p.status (record {
        has = λ e h. ok-inj (
            sym ((make_candidate-status env.resolve env.now _).has e h)
            ∙ status_of_text_lem p.status);
      }))
