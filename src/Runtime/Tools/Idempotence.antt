-- ===== src/Runtime/Tools/Idempotence.antt =====
-- An operation is answered once: later calls return its receipt, and no receipt is lost or changed.
use lbe_ci_validation.Base.{
  List, Result, String, arith, eq_iff, inl, inr, lookup, lookup-insert, none, ok, some, ◌∙◌, ◌≡◌,
}
use lbe_ci_validation.Runtime.Authorization.{AuthorizationDecision, AuthorizationRequest}
use lbe_ci_validation.Runtime.Tools.{ToolReceipt, ToolRequest}
use lbe_ci_validation.Runtime.Tools.Orchestrator.{Orchestrator, invoke}
use lbe_ci_validation.Runtime.Tools.Receipts.{IsConsistent, Step, invoke-cases, kept, made}

module _ {W : Type 0} where
  Step-answer :
      {id : String} {o o' : Orchestrator W} {a : Result ToolReceipt} (r : ToolReceipt)
      → Step id o a o'
      → a ≡ ok r
      → lookup id o'.receipts ≡ some r
  Step-answer r (kept e) h = cc
  Step-answer {id} {o} r (made receipt named stamped) h = ground (
    arith,
    lookup-insert receipt.operation_id id receipt o.receipts,
    eq_iff receipt.operation_id id,
  )

  Step-keeps :
      {id : String} {o o' : Orchestrator W} {a : Result ToolReceipt} (k : String) (q : ToolReceipt)
      → Step id o a o'
      → lookup id o.receipts ≡ none
      → lookup k o.receipts ≡ some q
      → lookup k o'.receipts ≡ some q
  Step-keeps k q (kept e) new h = h
  Step-keeps {id} {o} k q (made receipt named stamped) new h = ground (
    arith,
    lookup-insert receipt.operation_id k receipt o.receipts,
    eq_iff receipt.operation_id k,
  )

  Step-IsConsistent :
      {id : String} {o o' : Orchestrator W} {a : Result ToolReceipt}
      → Step id o a o'
      → IsConsistent o
      → IsConsistent o'
  Step-IsConsistent (kept e) c = c
  Step-IsConsistent {o} (made receipt named stamped) c = record {
    keyed = λ k r h. ground (
      arith,
      lookup-insert receipt.operation_id k receipt o.receipts,
      eq_iff receipt.operation_id k,
      c.keyed k r,
    );
    issued_before = λ k r h. ground (
      arith,
      lookup-insert receipt.operation_id k receipt o.receipts,
      eq_iff receipt.operation_id k,
      c.issued_before k r,
    );
    distinct = λ j k q r hq hr e. ground (
      arith,
      lookup-insert receipt.operation_id j receipt o.receipts,
      lookup-insert receipt.operation_id k receipt o.receipts,
      eq_iff receipt.operation_id j,
      eq_iff receipt.operation_id k,
      c.issued_before j q,
      c.issued_before k r,
      c.distinct j k q r,
    );
  }

known :
    {W : Type 0} (show : List String → String)
    (resolver : AuthorizationRequest → AuthorizationDecision) (request : ToolRequest)
    (o : Orchestrator W) (w : W) (r : ToolReceipt)
    → lookup request.operation_id o.receipts ≡ some r
    → invoke show resolver request o w ≡ (ok r, o, w)
unfolding invoke
known show resolver request o w r h = rw (h, invoke)

module _ {W : Type 0} (show : List String → String)
    (resolver : AuthorizationRequest → AuthorizationDecision) (request : ToolRequest)
    (o : Orchestrator W) (w : W) where
  -- The receipts stay consistent, and those that were there are there unchanged.
  pub invoke-IsConsistent :
      IsConsistent o
      → IsConsistent (invoke show resolver request o w).1
        × ((k : String) (q : ToolReceipt)
            → lookup k o.receipts ≡ some q
            → lookup k (invoke show resolver request o w).1.receipts ≡ some q)
  invoke-IsConsistent c = elim (invoke-cases show resolver request o w) [
    | inl (r, old, e) ↦ rw e (c, λ k q h. h)
    | inr (new, step) ↦ (Step-IsConsistent step c, λ k q h. Step-keeps k q step new h)
  ]

  answered :
      (r : ToolReceipt)
      → (invoke show resolver request o w).0 ≡ ok r
      → lookup request.operation_id (invoke show resolver request o w).1.receipts ≡ some r
  answered r done = elim (invoke-cases show resolver request o w) [
    | inl (prior, old, e) ↦ rw e (old ∙ ground (arith, done, e))
    | inr (new, step) ↦ Step-answer r step done
  ]

  -- After a call that returned a receipt, any request for the same operation, in any world, returns
  -- that receipt and changes nothing.
  pub invoke_again :
      (r : ToolReceipt)
      → (invoke show resolver request o w).0 ≡ ok r
      → (request' : ToolRequest) (w' : W) → request'.operation_id ≡ request.operation_id
      → let o' = (invoke show resolver request o w).1 in
        invoke show resolver request' o' w' ≡ (ok r, o', w')
  invoke_again r done request' w' same =
      known show resolver request' _ w' r (rw same (answered r done))
