-- ===== src/Runtime/Tools/Tracking.antt =====
-- `_ReceiptTrackingOrchestrator` of runtime/governed_coding.py: it observes each receipt once.
use lbe_ci_validation.Base.{
  All, All-append, Bool, Dict, List, Result, String, [], any, arith, err, false, if◌then◌else◌, inl,
  inr, insert, lookup, map, nat_eq, none, ok, refl, some, true, ℕ, ◌++◌, ◌+◌, ◌<◌, ◌∷◌, ◌≡◌,
}
use lbe_ci_validation.Runtime.Authorization.{AuthorizationDecision, AuthorizationRequest}
use lbe_ci_validation.Runtime.Tools.{ToolReceipt, ToolRequest}
use lbe_ci_validation.Runtime.Tools.Orchestrator.{Orchestrator, invoke}
use lbe_ci_validation.Runtime.Tools.Receipts.{Step, invoke-cases, kept, made}

pub record Tracker (W : Type 0) : Type 0 where
  pub inner : Orchestrator W
  pub observed_receipts : List ToolReceipt
  pub observed_ids : List ℕ

abbrev pub has_id : ℕ → List ℕ → Bool
has_id id ids = any (nat_eq id) ids

module _ {W : Type 0} where
  -- What `invoke` does with the receipt.
  unfoldable pub observe : Result ToolReceipt → Tracker W → Tracker W
  observe (err e) t = t
  observe (ok receipt) t = if has_id receipt.receipt_id t.observed_ids then t else record t {
    observed_receipts = t.observed_receipts ++ receipt ∷ [];
    observed_ids = t.observed_ids ++ receipt.receipt_id ∷ [];
  }

  unfoldable pub tracked_invoke :
      (List String → String)
      → (AuthorizationRequest → AuthorizationDecision)
      → ToolRequest
      → Tracker W
      → W
      → Result ToolReceipt × Tracker W × W
  unfolding observe
  tracked_invoke show resolver request t w =
      let (answer, o, w') = invoke show resolver request t.inner w in
      (answer, observe answer (record t { inner = o }), w')

-- `receipts.values()`
abbrev pub values : {V : Type 0} → Dict V → List V
values [] = []
values ((k, v) ∷ d) = v ∷ values d

abbrev receipt_ids : List ToolReceipt → List ℕ
receipt_ids = map (λ r. r.receipt_id)

-- The observed receipts are those that the orchestrator keeps, in the order in which they were made.
pub record IsTracked {W : Type 0} (t : Tracker W) : Type 0 where
  pub all_observed : t.observed_receipts ≡ values t.inner.receipts
  pub ids : t.observed_ids ≡ receipt_ids (values t.inner.receipts)
  pub issued : All (λ r. r.receipt_id < t.inner.issued) (values t.inner.receipts)

lookup-has_id :
    (k : String) (r : ToolReceipt) (d : Dict ToolReceipt)
    → lookup k d ≡ some r
    → has_id r.receipt_id (receipt_ids (values d)) ≡ true
unfolding lookup
lookup-has_id k r [] h = absurd (cc h)
lookup-has_id k r ((j, q) ∷ d) h = ground (arith, lookup-has_id k r d, h)

fresh-has_id :
    (n : ℕ) (rs : List ToolReceipt)
    → All (λ r. r.receipt_id < n) rs
    → has_id n (receipt_ids rs) ≡ false
fresh-has_id n [] h = refl
fresh-has_id n (r ∷ rs) h = ground (arith, h.0, fresh-has_id n rs h.1)

values-insert :
    {V : Type 0} (k : String) (v : V) (d : Dict V)
    → lookup k d ≡ none
    → values (insert k v d) ≡ values d ++ v ∷ []
unfolding lookup insert
values-insert k v [] h = refl
values-insert k v ((j, x) ∷ d) h = ground (arith, values-insert k v d, h)

later_issued :
    (n : ℕ) (rs : List ToolReceipt)
    → All (λ r. r.receipt_id < n) rs
    → All (λ r. r.receipt_id < n + 1) rs
later_issued n [] h = tt
later_issued n (r ∷ rs) h = (omega (arith, h.0), later_issued n rs h.1)

ids-append :
    (rs : List ToolReceipt) (r : ToolReceipt)
    → receipt_ids (rs ++ r ∷ []) ≡ receipt_ids rs ++ r.receipt_id ∷ []
ids-append [] r = refl
ids-append (q ∷ rs) r = ground (arith, ids-append rs r)

module _ {W : Type 0} where
  observe-IsTracked :
      {id : String} {t : Tracker W} {a : Result ToolReceipt} {o : Orchestrator W}
      → Step id t.inner a o
      → lookup id t.inner.receipts ≡ none
      → IsTracked t
      → IsTracked (observe a (record t { inner = o }))
  unfolding observe
  observe-IsTracked (kept e) new v = v
  observe-IsTracked {t} (made receipt named stamped) new v =
      let unseen : has_id receipt.receipt_id t.observed_ids ≡ false =
        rw (v.ids, stamped) (fresh-has_id t.inner.issued (values t.inner.receipts) v.issued) in
      let appended = values-insert receipt.operation_id receipt t.inner.receipts (rw named new) in
      rw unseen (record {
        all_observed = rw (appended, v.all_observed) refl;
        ids = rw (appended, v.ids, ids-append (values t.inner.receipts) receipt) refl;
        issued = rw appended (
            All-append _ (values t.inner.receipts) (receipt ∷ [])
              (later_issued t.inner.issued (values t.inner.receipts) v.issued)
              (omega (arith, stamped), tt));
      })

  -- The receipts that a tracker has observed stay those that its orchestrator keeps, each once and in
  -- the order in which they were made, whatever the requests.
  pub tracked_invoke-IsTracked :
      (show : List String → String) (resolver : AuthorizationRequest → AuthorizationDecision)
      (request : ToolRequest) (t : Tracker W) (w : W)
      → IsTracked t
      → IsTracked (tracked_invoke show resolver request t w).1
  unfolding tracked_invoke
  tracked_invoke-IsTracked show resolver request t w v =
      elim (invoke-cases show resolver request t.inner w) [
        | inl (r, old, e) ↦
            let seen : has_id r.receipt_id t.observed_ids ≡ true =
              rw v.ids (lookup-has_id request.operation_id r t.inner.receipts old) in
            rw (e, observe, seen) v
        | inr (new, step) ↦ observe-IsTracked step new v
      ]
