-- ===== src/Memory/Completion/Stable.antt =====
-- A completion contract is not replaced (memory/completion_contracts.py).
use lbe_ci_validation.Base.Exec.Preserves.{Preserves, Preserves-if, Preserves-read, preserves_rules}
use lbe_ci_validation.Memory.Completion.{
  CompletionTables, StoredContract, StoredRequirement, find_contract,
}
use lbe_ci_validation.Memory.Completion.Contracts.{insert_contract, keep_contract, save_contract}
use lbe_ci_validation.Base.{
  Bool-cases, List, Option, String, [], inl, inr, is_some, none, some, ◌&&◌, ◌++◌, ◌==◌, ◌∷◌, ◌≡◌,
}

find_contract-append :
    (session task : String) (c d : StoredContract) (cs : List StoredContract)
    → find_contract session task cs ≡ some c
    → find_contract session task (cs ++ d ∷ []) ≡ some c
unfolding find_contract
find_contract-append session task c d [] h = absurd (cc h)
find_contract-append session task c d (e ∷ es) h =
    elim (Bool-cases (e.session_id == session && e.task_id == task)) [
      | inl t ↦ rw t (rw t at h)
      | inr t ↦ rw t (find_contract-append session task c d es (rw t at h))
    ]

module _ {V D : Type 0} (session task : String) (c : StoredContract) where
  -- The task has the contract.
  abbrev pub HasContract : CompletionTables V D → Type 0
  HasContract w = find_contract session task w.contracts ≡ some c

  insert_contract-Preserves : (d : StoredContract) → Preserves HasContract (insert_contract d)
  unfolding insert_contract
  insert_contract-Preserves d = record {
    step = λ w h. elim (Bool-cases (is_some (find_contract d.session_id d.task_id w.contracts))) [
      | inl e ↦ rw e h
      | inr e ↦ rw e (find_contract-append session task c d w.contracts h)
    ];
  }

  keep_contract-Preserves :
      (d : StoredContract) (o : Option StoredContract) → Preserves HasContract (keep_contract d o)
  unfolding keep_contract
  keep_contract-Preserves d none = insert_contract-Preserves d
  keep_contract-Preserves d (some e) = search (preserves_rules, Preserves-if)

  -- Whatever `save` is given, and whether it returns or raises, a task that has a contract has the same
  -- one after it.
  pub save_contract-Preserves :
      (resolve : String → String) (now session_id task_id project root : String)
      (requirements : List StoredRequirement)
      → Preserves HasContract
          (save_contract {V = V} {D = D} resolve now session_id task_id project root requirements)
  unfolding save_contract
  save_contract-Preserves resolve now session_id task_id project root requirements =
      search (preserves_rules, keep_contract-Preserves, Preserves-read) depth 12
