-- ===== src/Registry/Traces.antt =====
-- The registry after any calls of its methods, whether they return or raise.
use lbe_ci_validation.Base.Exec.{Exec, pure, ◌>>=◌, ◌>>◌}
use lbe_ci_validation.Base.Exec.Preserves.{Preserves, Preserves-bind, Preserves-pure}
use lbe_ci_validation.Registry.Layer.{register_registry_layer}
use lbe_ci_validation.Base.{
  Bool, List, Option, String, [], arith, lookup, none, ok, some, ℕ, ◌∷◌, ◌≡◌,
}
use lbe_ci_validation.Registry.{
  LiveModuleRecord, ModuleDeclaration, activity, failed, started, stopped,
}
use lbe_ci_validation.Registry.Store.{ModuleRegistry, State, blank_receipt, make_registry}
use lbe_ci_validation.Registry.Methods.{
  on_activity, on_failed, on_idle, on_loaded, on_started, on_stopped, register,
}
use lbe_ci_validation.Registry.Lifecycle.{IsWellFormed, stamp_and_apply-IsWellFormed}
use lbe_ci_validation.Registry.Watcher.{ModuleWatcher}
use lbe_ci_validation.Registry.Registration.{
  layer-IsWellFormed, on_idle-IsWellFormed, on_loaded-IsWellFormed, register-IsWellFormed,
}

-- A new registry is well formed.
pub make_registry-IsWellFormed :
    {W : Type 0} (profile : String) (limit : ℕ) (watcher : Option (ModuleWatcher W))
    (made : ModuleRegistry W) (w : W)
    → make_registry profile limit watcher ≡ ok made
    → IsWellFormed (made, w)
unfolding make_registry lookup
make_registry-IsWellFormed profile limit watcher made w e = record {
  coherent = λ id r h. ground (arith, e, h);
  declared = λ id r h. ground (arith, e, h);
}

-- A call from outside.
pub data Call : Type 0 where
  call_register : ModuleDeclaration → Call
  call_loaded : String → String → Call
  call_started : String → Call
  call_activity : String → String → String → Call
  call_idle : String → Call
  call_stopped : String → String → Call
  call_failed : String → String → String → Call
  call_layer : Bool → Call

module _ {W : Type 0} (clock : W → String × W) where
  abbrev pub run_call : Call → Exec (State W) (Option LiveModuleRecord)
  run_call (call_register d) = do r ← register clock d; pure (some r)
  run_call (call_loaded id instance_id) = do r ← on_loaded clock id instance_id; pure (some r)
  run_call (call_started id) = do r ← on_started clock id; pure (some r)
  run_call (call_activity id action detail) = do
    r ← on_activity clock id action detail
    pure (some r)
  run_call (call_idle id) = do r ← on_idle clock id; pure (some r)
  run_call (call_stopped id reason) = do r ← on_stopped clock id reason; pure (some r)
  run_call (call_failed id code error) = do r ← on_failed clock id code error; pure (some r)
  run_call (call_layer with_load) = do register_registry_layer clock with_load; pure none

  -- The state after the calls, in order; the caller may catch what they raise.
  unfoldable pub run_calls : List Call → State W → State W
  run_calls [] s = s
  run_calls (c ∷ cs) s = run_calls cs (run_call c s).1

  then_some :
      {m : Exec (State W) LiveModuleRecord}
      → Preserves IsWellFormed m
      → Preserves IsWellFormed (m >>= λ r. pure (some r))
  then_some p = Preserves-bind p λ r. Preserves-pure (some r)

  run_call-IsWellFormed : (c : Call) → Preserves IsWellFormed (run_call c)
  unfolding on_started on_activity on_stopped on_failed
  run_call-IsWellFormed (call_register d) = then_some (register-IsWellFormed clock d)
  run_call-IsWellFormed (call_idle id) = then_some (on_idle-IsWellFormed clock id)
  run_call-IsWellFormed (call_loaded id instance_id) =
      then_some (on_loaded-IsWellFormed clock id instance_id)
  run_call-IsWellFormed (call_started id) =
      then_some (stamp_and_apply-IsWellFormed clock (λ t. blank_receipt id started t))
  run_call-IsWellFormed (call_activity id action detail) = then_some (
      stamp_and_apply-IsWellFormed clock
        (λ t. record (blank_receipt id activity t) { action = some action; detail = some detail }))
  run_call-IsWellFormed (call_stopped id reason) = then_some (
      stamp_and_apply-IsWellFormed clock
        (λ t. record (blank_receipt id stopped t) { reason = some reason }))
  run_call-IsWellFormed (call_failed id code error) = then_some (
      stamp_and_apply-IsWellFormed clock
        (λ t. record (blank_receipt id failed t) { code = some code; error = some error }))
  run_call-IsWellFormed (call_layer with_load) =
      Preserves-bind (layer-IsWellFormed clock with_load) λ done. Preserves-pure none

  -- After any calls, in any order, from a well-formed registry, every record is coherent and stands
  -- under the identifier of its declaration, which is declared.
  pub run_calls-IsWellFormed :
      (calls : List Call) (s : State W) → IsWellFormed s → IsWellFormed (run_calls calls s)
  unfolding run_calls
  run_calls-IsWellFormed [] s v = v
  run_calls-IsWellFormed (c ∷ cs) s v =
      run_calls-IsWellFormed cs _ ((run_call-IsWellFormed c).step s v)
