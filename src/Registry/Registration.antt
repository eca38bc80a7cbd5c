-- ===== src/Registry/Registration.antt =====
-- Registration, idling and the registry layer keep the registry well formed.
use lbe_ci_validation.Base.Exec.{Exec}
use lbe_ci_validation.Base.Exec.Preserves.{
  Preserves, Preserves-bind, Preserves-if, Preserves-pure, preserves_rules,
}
use lbe_ci_validation.Registry.Layer.{
  load_unless_loaded, register_registry_layer, register_unless_known,
}
use lbe_ci_validation.Base.{
  Bool, Option, Option-cases, String, arith, eq_iff, false, if◌then◌else◌, inl, inr, insert, lookup,
  lookup-insert, none, not, refl, some, true, ℕ, ◌≡◌,
}
use lbe_ci_validation.Registry.{LiveModuleRecord, ModuleDeclaration, ReceiptType, idle, loaded}
use lbe_ci_validation.Registry.Store.{State, blank_receipt}
use lbe_ci_validation.Registry.Methods.{idle_at, new_record, now, on_idle, on_loaded, register}
use lbe_ci_validation.Registry.Invariant.{IsCoherent}
use lbe_ci_validation.Registry.Lifecycle.{
  IsWellFormed, now-IsWellFormed, publish-IsWellFormed, put_record-IsWellFormed, quiet_rules,
  raise_not_loaded-IsWellFormed, stamp_and_apply-IsWellFormed,
}
use lbe_ci_validation.Registry.Watcher.{of_declaration}

-- A new record is coherent.
new-IsCoherent :
    (limit : ℕ) (d : ModuleDeclaration) (t : String) → IsCoherent limit (new_record d t)
unfolding new_record
new-IsCoherent limit d t = ground arith

inserted-IsWellFormed :
    {W : Type 0} (s : State W) (d : ModuleDeclaration) (t : String) (w : W)
    → lookup d.id s.0.declarations ≡ none
    → IsWellFormed s
    → IsWellFormed {W = W} (
      record s.0 {
        declarations = insert d.id d s.0.declarations;
        records = insert d.id (new_record d t) s.0.records;
      },
      w,
    )
inserted-IsWellFormed s d t w new v = record {
  coherent = λ k q h. ground (
    arith,
    lookup-insert d.id k (new_record d t) s.0.records,
    v.coherent k q,
    new-IsCoherent s.0.activity_limit d t,
  );
  declared = λ k q h.
      unfold new_record in
      ground (
        arith,
        lookup-insert d.id k (new_record d t) s.0.records,
        lookup-insert d.id k d s.0.declarations,
        eq_iff d.id k,
        v.declared k q,
      );
}

-- The two branches of a test.
if-IsWellFormed :
    {W A : Type 0} (b : Bool) (m n : Exec (State W) A) (s : State W)
    → IsWellFormed (m s).1
    → (b ≡ false → IsWellFormed (n s).1)
    → IsWellFormed ((if b then m else n) s).1
if-IsWellFormed true m n s p q = p
if-IsWellFormed false m n s p q = q refl

idle-IsCoherent :
    (limit : ℕ) (r : LiveModuleRecord) (t : String)
    → IsCoherent limit r
    → r.loaded ≡ true
    → IsCoherent limit (record r { running = false; state = idle; updated_at = some t })
idle-IsCoherent limit r t c h = ground arith

module _ {W : Type 0} (clock : W → String × W) where
  pub register-IsWellFormed : (d : ModuleDeclaration) → Preserves IsWellFormed (register clock d)
  unfolding register
  register-IsWellFormed d = record {
    step = λ s v. elim (Option-cases (lookup d.id s.0.declarations)) [
      | inl e ↦
          rw (e, register)
            ((Preserves-bind (publish-IsWellFormed ReceiptType.registered d.id (of_declaration d))
                (λ _. Preserves-pure _)).step
              _ (inserted-IsWellFormed s d _ _ e v))
      | inr (old, e) ↦ rw (e, register) v
    ];
  }

  idle_unknown-IsWellFormed : (id : String) → Preserves IsWellFormed (idle_at clock id none)
  unfolding idle_at
  idle_unknown-IsWellFormed id = search (quiet_rules, now-IsWellFormed)

  idle_at-IsWellFormed :
      (id : String) (o : Option LiveModuleRecord) (s : State W)
      → lookup id s.0.records ≡ o
      → IsWellFormed s
      → IsWellFormed (idle_at clock id o s).1
  unfolding idle_at now
  idle_at-IsWellFormed id none s e v = (idle_unknown-IsWellFormed id).step s v
  idle_at-IsWellFormed id (some r) s e v =
      if-IsWellFormed (not r.loaded) _ _ s
        ((raise_not_loaded-IsWellFormed clock id "idle-before-loaded").step s v)
        (λ h.
          put_record-IsWellFormed _ id _
            (idle-IsCoherent s.0.activity_limit r _ (v.coherent id r e) (ground (arith, h)))
            (v.declared id r e).0 (v.declared id r e).1
            (record { coherent = v.coherent; declared = v.declared }))

  pub on_loaded-IsWellFormed :
      (id instance_id : String) → Preserves IsWellFormed (on_loaded clock id instance_id)
  unfolding on_loaded
  on_loaded-IsWellFormed id instance_id =
      stamp_and_apply-IsWellFormed clock
        (λ t. record (blank_receipt id loaded t) { instance_id = some instance_id })

  pub on_idle-IsWellFormed : (id : String) → Preserves IsWellFormed (on_idle clock id)
  unfolding on_idle
  on_idle-IsWellFormed id = record {
    step = λ s v. idle_at-IsWellFormed id (lookup id s.0.records) s refl v;
  }

  register_unless_known-IsWellFormed :
      (d : ModuleDeclaration) → Preserves IsWellFormed (register_unless_known clock d)
  unfolding register_unless_known
  register_unless_known-IsWellFormed d =
      search (preserves_rules, Preserves-if, register-IsWellFormed)

  load_unless_loaded-IsWellFormed :
      (id instance_id : String) → Preserves IsWellFormed (load_unless_loaded clock id instance_id)
  unfolding load_unless_loaded
  load_unless_loaded-IsWellFormed id instance_id =
      search (preserves_rules, Preserves-if, on_loaded-IsWellFormed)

  pub layer-IsWellFormed :
      (with_load : Bool) → Preserves IsWellFormed (register_registry_layer clock with_load)
  unfolding register_registry_layer
  layer-IsWellFormed with_load =
      search
        (
          preserves_rules, Preserves-if, register_unless_known-IsWellFormed,
          load_unless_loaded-IsWellFormed,
        )
        depth 9
