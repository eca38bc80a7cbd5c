-- ===== src/Session/Kept.antt =====
-- The completion contract of a task stays (runtime/completion_runtime.py).
use lbe_ci_validation.Base.Exec.Preserves.{Preserves-bind, Preserves-lift}
use lbe_ci_validation.Memory.Completion.{CompletionTables, StoredContract, find_contract}
use lbe_ci_validation.Memory.Completion.Stable.{save_contract-Preserves}
use lbe_ci_validation.Runtime.Completion.{TaskCompletionContract}
use lbe_ci_validation.Session.{Bridge}
use lbe_ci_validation.Session.Contract.{contract_of, requirement_to_store}
use lbe_ci_validation.Session.Completion.{persist_contract}
use lbe_ci_validation.Base.{String, map, some, ◌≡◌}

-- Whatever contract is persisted for whatever task, and whether that returns or raises, a task of a
-- session that has a contract has the same one after it.
pub persist_contract-keeps :
    {V D : Type 0} (resolve : String → String) (bridge : Bridge) (now task_id : String)
    (contract : TaskCompletionContract) (session task : String) (c : StoredContract)
    (w : CompletionTables V D)
    → find_contract session task w.contracts ≡ some c
    → find_contract session task
        (persist_contract resolve bridge now task_id contract w).1.contracts
      ≡ some c
unfolding persist_contract
persist_contract-keeps resolve bridge now task_id contract session task c w h =
    (Preserves-bind
        (save_contract-Preserves session task c resolve now bridge.session_id task_id
          bridge.project_workspace_id bridge.workspace_root
          (map requirement_to_store contract.requirements))
        (λ stored. Preserves-lift (contract_of stored))).step
      w h
