-- ===== src/Registry/Invariant.antt =====
-- What holds of every record of the registry, between any two receipts.
use lbe_ci_validation.Base.{
  Bool, List, Option, Result, String, [], arith, err, false, if◌then◌else◌, is_empty, is_some,
  length, length-last_items, none, not, ok, refl, some, true, ℕ, ◌++◌, ◌∷◌, ◌≡◌, ◌≤◌, ◌⊎◌,
}
use lbe_ci_validation.Registry.{
  LifecycleReceipt, LiveModuleRecord, ModuleActivity, ModuleState, ReceiptType, activity, failed,
  loaded, registered, started, stopped,
}
use lbe_ci_validation.Registry.Store.{
  Transition, add_activity, add_instance, before_loaded, load, next, transition,
}

-- A record is coherent: it runs only if it was loaded, runs if its state says so, has instances
-- exactly if it was loaded, is unhealthy exactly if it has an error, and keeps at most `limit` activities.
pub record IsCoherent (limit : ℕ) (r : LiveModuleRecord) : Type 0 where
  pub running_loaded : r.running ≡ true → r.loaded ≡ true
  pub running_state : r.state ≡ ModuleState.running → r.running ≡ true
  pub running_states :
      r.running ≡ true → (r.state ≡ ModuleState.running) ⊎ (r.state ≡ ModuleState.loaded)
  pub loaded_instances : is_empty r.instances ≡ not r.loaded
  pub loaded_time : is_some r.loaded_at ≡ r.loaded
  pub healthy_error : r.healthy ≡ not (is_some r.last_error)
  pub failed_error : r.state ≡ ModuleState.failed → is_some r.last_error ≡ true
  pub bounded : length r.recent_activity ≤ limit

append-not_empty : {A : Type 0} (xs : List A) (x : A) → is_empty (xs ++ x ∷ []) ≡ false
append-not_empty [] x = refl
append-not_empty (y ∷ xs) x = refl

add_instance-not_empty : (id : String) (ids : List String) → is_empty (add_instance id ids) ≡ false
add_instance-not_empty id [] = refl
add_instance-not_empty id (x ∷ xs) = ground arith

load-IsCoherent :
    (limit : ℕ) (timestamp : String) (instance_id : Option String) (r r' : LiveModuleRecord)
    → IsCoherent limit r
    → load r timestamp instance_id ≡ next r'
    → IsCoherent limit r' × (r'.declaration ≡ r.declaration)
unfolding load
load-IsCoherent limit timestamp none r r' c e = cc
load-IsCoherent limit timestamp (some id) r r' c e =
    ground (arith, add_instance-not_empty id r.instances)

add_activity-IsCoherent :
    (limit : ℕ) (made : Result ModuleActivity) (r r' : LiveModuleRecord)
    → IsCoherent limit r
    → r.loaded ≡ true
    → add_activity limit r made ≡ next r'
    → IsCoherent limit r' × (r'.declaration ≡ r.declaration)
unfolding add_activity
add_activity-IsCoherent limit (err x) r r' c l e = cc
add_activity-IsCoherent limit (ok a) r r' c l e =
    ground (arith, length-last_items limit (r.recent_activity ++ a ∷ []))

guarded :
    (b : Bool) (t : Transition) (detail : String) {r' : LiveModuleRecord}
    → (if not b then before_loaded detail else t) ≡ next r'
    → (b ≡ true) × (t ≡ next r')
guarded true t detail e = (refl, e)
guarded false t detail e = absurd (cc e)

-- Every receipt that changes a record keeps it coherent, and leaves its declaration alone.
pub transition-IsCoherent :
    (type : ReceiptType) (limit : ℕ) (receipt : LifecycleReceipt) (r r' : LiveModuleRecord)
    → IsCoherent limit r
    → transition type limit receipt r ≡ next r'
    → IsCoherent limit r' × (r'.declaration ≡ r.declaration)
unfolding transition
transition-IsCoherent loaded limit receipt r r' c e =
    load-IsCoherent limit receipt.timestamp receipt.instance_id r r' c e
transition-IsCoherent started limit receipt r r' c e = ground arith
transition-IsCoherent activity limit receipt r r' c e =
    let (l, made) = guarded r.loaded _ "activity-before-loaded" e in
    add_activity-IsCoherent limit _ r r' c l made
transition-IsCoherent stopped limit receipt r r' c e = ground arith
transition-IsCoherent failed limit receipt r r' c e = ground arith
transition-IsCoherent registered limit receipt r r' c e = ground arith
