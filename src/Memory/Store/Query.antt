-- ===== src/Memory/Store/Query.antt =====
-- `query` of the memory store (memory/store.py). A limit below 1 counts as 0; of rows that the order
-- does not tell apart the database chooses, here the earlier one comes first.
pub mod Order
pub mod Whole
use lbe_ci_validation.Memory.{MemoryRecord, MemoryType, ValidationStatus, make_record}
use lbe_ci_validation.Memory.Store.{Tables}
use lbe_ci_validation.Memory.Store.Records.{status_text, type_text}
use lbe_ci_validation.Base.{
  Bool, List, Option, Result, String, [], any, false, filter, if◌then◌else◌, is_empty, is_later,
  ltb, nat_eq, none, ok, some, suc, traverse, true, zero, ℕ, ◌&&◌, ◌==◌, ◌||◌, ◌∷◌,
}

-- The arguments of `query`.
pub record Query : Type 0 where
  pub project : String
  pub statuses : List ValidationStatus
  pub task : Option String
  pub rule : Option String
  pub types : Option (List MemoryType)
  pub path : Option String
  pub limit : ℕ

-- `column = ?`, which no row without the column meets.
abbrev pub has_text : Option String → String → Bool
has_text none t = false
has_text (some s) t = s == t

-- A clause that is there only if its argument is.
abbrev pub if_given : Option String → Option String → Bool
if_given none column = true
if_given (some t) column = has_text column t

abbrev pub has_type : Option (List MemoryType) → MemoryType → Bool
has_type none t = true
has_type (some types) t = any (λ u. type_text u == type_text t) types

abbrev pub no_types : Option (List MemoryType) → Bool
no_types none = false
no_types (some types) = is_empty types

abbrev pub take {ℓ} : {A : Type ℓ} → ℕ → List A → List A
take zero xs = []
take (suc n) [] = []
take (suc n) (x ∷ xs) = x ∷ take n xs

-- `max(1, min(int(limit), 1000))`
unfoldable pub row_limit : ℕ → ℕ
row_limit n = if ltb n 1 then 1 else if ltb 1000 n then 1000 else n

module _ {V : Type 0} where
  abbrev pub matches : Query → MemoryRecord V → Bool
  matches a q =
      q.project_workspace_id == a.project
      && any (λ s. status_text s == status_text q.validation_status) a.statuses
      && if_given a.task q.task_id
      && if_given a.rule q.rule_id
      && if_given a.path q.source_path
      && has_type a.types q.memory_type

  -- ORDER BY authority DESC, confidence DESC, updated_at DESC
  abbrev pub comes_later : MemoryRecord V → MemoryRecord V → Bool
  comes_later r q =
      ltb r.authority q.authority
      || (nat_eq r.authority q.authority && ltb r.confidence q.confidence)
      || (nat_eq r.authority q.authority
          && nat_eq r.confidence q.confidence
          && is_later q.updated_at r.updated_at)

  unfoldable pub insert_row : MemoryRecord V → List (MemoryRecord V) → List (MemoryRecord V)
  insert_row r [] = r ∷ []
  insert_row r (q ∷ qs) =
      let rest = insert_row r qs in if comes_later r q then q ∷ rest else r ∷ q ∷ qs

  unfoldable pub ordered_rows : List (MemoryRecord V) → List (MemoryRecord V)
  unfolding insert_row
  ordered_rows [] = []
  ordered_rows (r ∷ rs) = insert_row r (ordered_rows rs)

  unfoldable pub select_rows : Query → List (MemoryRecord V) → List (MemoryRecord V)
  unfolding row_limit ordered_rows
  select_rows a qs = take (row_limit a.limit) (ordered_rows (filter (matches a) qs))

  unfoldable pub query :
      (String → String) → String → Query → Tables V → Result (List (MemoryRecord V))
  unfolding select_rows
  query resolve now a w =
      if is_empty a.statuses
      then ok []
      else if no_types a.types
      then ok []
      else traverse (make_record resolve now) (select_rows a w.memories)
