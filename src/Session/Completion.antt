-- ===== src/Session/Completion.antt =====
-- The completion contract and the evidence of a task (runtime/completion_runtime.py), on the tables of
-- memory/completion_contracts.py and memory/completion_evidence.py. `as_dict` gives the details of a
-- piece of evidence as a dict.
use lbe_ci_validation.Base.Exec.{Exec, lift, ◌>>=◌}
use lbe_ci_validation.Memory.Completion.{CompletionTables, load_contract}
use lbe_ci_validation.Memory.Completion.Contracts.{save_contract}
use lbe_ci_validation.Memory.Completion.Evidence.{load_evidence}
use lbe_ci_validation.Session.{Bridge}
use lbe_ci_validation.Session.Contract.{
  contract_of, own_contract, own_evidence, requirement_to_store,
}
use lbe_ci_validation.Runtime.Completion.{CompletionEvidence, TaskCompletionContract}
use lbe_ci_validation.Base.{Dict, List, Option, String, Value, map, traverse}

module _ {V D : Type 0} (resolve : String → String) (bridge : Bridge) where
  -- `CodingCompletionRuntime.persist_contract`
  unfoldable pub persist_contract :
      String → String → TaskCompletionContract → Exec (CompletionTables V D) TaskCompletionContract
  unfolding save_contract contract_of
  persist_contract now task_id contract = do
    stored ←
        save_contract resolve now bridge.session_id task_id bridge.project_workspace_id
          bridge.workspace_root (map requirement_to_store contract.requirements)
    lift (contract_of stored)

  -- `CodingCompletionRuntime.load_contract`
  unfoldable pub load_task_contract :
      String → Exec (CompletionTables V D) (Option TaskCompletionContract)
  unfolding load_contract own_contract
  load_task_contract task_id = do
    stored ← λ w. (load_contract resolve bridge.session_id task_id bridge.project_workspace_id w, w)
    lift (own_contract bridge stored)

  -- `CodingCompletionRuntime.load_evidence`
  unfoldable pub load_task_evidence :
      (D → Dict Value) → String → Exec (CompletionTables V D) (List CompletionEvidence)
  unfolding load_evidence own_evidence
  load_task_evidence as_dict task_id = do
    stored ← load_evidence resolve bridge.session_id task_id bridge.project_workspace_id
    lift (traverse (own_evidence bridge as_dict) stored)
