-- ===== src/Registry/Lifecycle.antt =====
-- Every method of the registry keeps it well formed, whether it returns or raises.
use lbe_ci_validation.Base.Exec.Preserves.{
  Preserves, Preserves-bind, Preserves-pure, preserves_rules,
}
use lbe_ci_validation.Base.Exec.{Exec}
use lbe_ci_validation.Base.{
  Option-cases, String, arith, eq_iff, inl, inr, lookup, lookup-insert, refl, some, ℕ, ◌≡◌,
}
use lbe_ci_validation.Registry.{LifecycleReceipt, LiveModuleRecord, ReceiptType}
use lbe_ci_validation.Registry.Watcher.{Payload, of_receipt}
use lbe_ci_validation.Registry.Store.{
  State, Transition, append_unknown, before_loaded, next, put_record, refused, transition,
}
use lbe_ci_validation.Registry.Methods.{
  apply, apply_to, commit, now, publish_to_watcher, raise_not_loaded, stamp_and_apply,
}
use lbe_ci_validation.Registry.Invariant.{IsCoherent, transition-IsCoherent}

-- Every record is coherent and stands under the identifier of its declaration, which is declared.
pub record IsWellFormed {W : Type 0} (s : State W) : Type 0 where
  pub coherent :
      (id : String) (r : LiveModuleRecord)
      → lookup id s.0.records ≡ some r
      → IsCoherent s.0.activity_limit r
  pub declared :
      (id : String) (r : LiveModuleRecord)
      → lookup id s.0.records ≡ some r
      → (lookup id s.0.declarations ≡ some r.declaration) × (r.declaration.id ≡ id)

-- Nothing but the watcher, the unknown receipts and the world differs.
pub record SameRecords {W : Type 0} (s t : State W) : Type 0 where
  pub records : t.0.records ≡ s.0.records
  pub declarations : t.0.declarations ≡ s.0.declarations
  pub limit : t.0.activity_limit ≡ s.0.activity_limit

SameRecords-IsWellFormed :
    {W : Type 0} {s t : State W} → SameRecords s t → IsWellFormed s → IsWellFormed t
SameRecords-IsWellFormed same v = record {
  coherent = λ id r h. rw same.limit (v.coherent id r (rw same.records at h));
  declared = λ id r h. rw same.declarations (v.declared id r (rw same.records at h));
}

-- A coherent record under its own, declared, identifier may be written.
pub put_record-IsWellFormed :
    {W : Type 0} (s : State W) (id : String) (r : LiveModuleRecord)
    → IsCoherent s.0.activity_limit r
    → lookup id s.0.declarations ≡ some r.declaration
    → r.declaration.id ≡ id
    → IsWellFormed s
    → IsWellFormed (put_record id r s).1
put_record-IsWellFormed s id r c d e v = record {
  coherent = λ k q h. ground (arith, lookup-insert id k r s.0.records, eq_iff id k, v.coherent k q);
  declared = λ k q h. ground (arith, lookup-insert id k r s.0.records, eq_iff id k, v.declared k q);
}

module _ {W : Type 0} where
  quiet-IsWellFormed :
      {A : Type 0} (m : Exec (State W) A)
      → ((s : State W) → SameRecords s (m s).1)
      → Preserves IsWellFormed m
  quiet-IsWellFormed m same = record { step = λ s v. SameRecords-IsWellFormed (same s) v }

  pub append_unknown-IsWellFormed :
      (r : LifecycleReceipt) → Preserves (IsWellFormed {W = W}) (append_unknown r)
  append_unknown-IsWellFormed r =
      quiet-IsWellFormed _ (λ s. record { records = refl; declarations = refl; limit = refl })

  publish-SameRecords :
      (type : ReceiptType) (id : String) (p : Payload) (s : State W)
      → SameRecords s (publish_to_watcher type id p s).1
  unfolding publish_to_watcher
  publish-SameRecords type id p s = elim (Option-cases s.0.watcher) [
    | inl e ↦
        rw (e, publish_to_watcher) (record { records = refl; declarations = refl; limit = refl })
    | inr (watcher, e) ↦
        rw (e, publish_to_watcher) (record { records = refl; declarations = refl; limit = refl })
  ]

  pub publish-IsWellFormed :
      (type : ReceiptType) (id : String) (p : Payload)
      → Preserves (IsWellFormed {W = W}) (publish_to_watcher type id p)
  publish-IsWellFormed type id p = quiet-IsWellFormed _ (publish-SameRecords type id p)

pub ruleset quiet_rules = (preserves_rules, append_unknown-IsWellFormed, publish-IsWellFormed)

module _ {W : Type 0} (clock : W → String × W) where
  pub now-IsWellFormed : Preserves IsWellFormed (now clock)
  unfolding now
  now-IsWellFormed =
      quiet-IsWellFormed _ (λ s. record { records = refl; declarations = refl; limit = refl })

  pub raise_not_loaded-IsWellFormed :
      (id detail : String) → Preserves IsWellFormed (raise_not_loaded clock id detail)
  unfolding raise_not_loaded
  raise_not_loaded-IsWellFormed id detail = search (quiet_rules, now-IsWellFormed)

  stamped-IsCoherent :
      (limit : ℕ) (r : LiveModuleRecord) (t : String)
      → IsCoherent limit r
      → IsCoherent limit (record r { updated_at = some t })
  stamped-IsCoherent limit r t c = ground arith

  -- Storing the result of a transition of the record that stands there.
  store-IsWellFormed :
      (receipt : LifecycleReceipt) (r r' : LiveModuleRecord) (s : State W)
      → IsWellFormed s
      → lookup receipt.module_id s.0.records ≡ some r
      → IsCoherent s.0.activity_limit r'
      → r'.declaration ≡ r.declaration
      → IsWellFormed (commit clock receipt (next r') s).1
  unfolding commit
  store-IsWellFormed receipt r r' s v found c d =
      (Preserves-bind (publish-IsWellFormed receipt.type receipt.module_id (of_receipt receipt))
          (λ _. Preserves-pure _)).step
        _
        (put_record-IsWellFormed s receipt.module_id _
          (stamped-IsCoherent s.0.activity_limit r' receipt.timestamp c)
          (rw d (v.declared _ r found).0) (rw d (v.declared _ r found).1) v)

  apply-IsWellFormed : (receipt : LifecycleReceipt) → Preserves IsWellFormed (apply clock receipt)
  unfolding apply
  apply-IsWellFormed receipt = record {
    step = λ s v. elim (Option-cases (lookup receipt.module_id s.0.records)) [
      | inl e ↦ rw (e, apply_to) ((append_unknown-IsWellFormed receipt).step s v)
      | inr (r, e) ↦
          rw (e, apply_to) (go s v r e (transition receipt.type s.0.activity_limit receipt r) refl)
    ];
  }
    where
      go :
          (s : State W)
          → IsWellFormed s
          → (r : LiveModuleRecord) → lookup receipt.module_id s.0.records ≡ some r
          → (t : Transition) → transition receipt.type s.0.activity_limit receipt r ≡ t
          → IsWellFormed (commit clock receipt t s).1
      go s v r e (next r') made =
          let (c, d) =
            transition-IsCoherent receipt.type s.0.activity_limit receipt r r' (v.coherent _ r e)
              made in
          store-IsWellFormed receipt r r' s v e c d
      go s v r e (before_loaded detail) made =
          (raise_not_loaded-IsWellFormed receipt.module_id detail).step s v
      go s v r e (refused x) made = v

  pub stamp_and_apply-IsWellFormed :
      (fields : String → LifecycleReceipt) → Preserves IsWellFormed (stamp_and_apply clock fields)
  unfolding stamp_and_apply
  stamp_and_apply-IsWellFormed fields =
      search (preserves_rules, now-IsWellFormed, apply-IsWellFormed)
