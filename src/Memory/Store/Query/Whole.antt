-- ===== src/Memory/Store/Query/Whole.antt =====
-- A query of the memory store whose limit is not reached (memory/store.py).
use lbe_ci_validation.Memory.{MemoryRecord, make_record}
use lbe_ci_validation.Memory.Store.{Tables}
use lbe_ci_validation.Memory.Store.Query.{
  Query, comes_later, insert_row, matches, no_types, ordered_rows, query, row_limit, select_rows,
  take,
}
use lbe_ci_validation.Memory.Store.Query.Order.{All-ordered_rows, In, here, there}
use lbe_ci_validation.Base.{
  All, Bool, Bool-cases, List, Result, String, [], ap, arith, false, filter, inl, inr, is_empty,
  length, ok, refl, suc, traverse, true, zero, ℕ, ◌∙◌, ◌∷◌, ◌≡◌, ◌≤◌,
}

module _ {A : Type 0} where
  take-all : (n : ℕ) (xs : List A) → length xs ≤ n → take n xs ≡ xs
  take-all zero [] h = refl
  take-all zero (x ∷ xs) h = absurd (omega (arith, h))
  take-all (suc n) [] h = refl
  take-all (suc n) (x ∷ xs) h = ap (λ ys. x ∷ ys) (take-all n xs (omega (arith, h)))

  All-found :
      (p : A → Bool) (ys xs : List A)
      → ((a : A) → In a xs → In a ys)
      → All (λ a. In a ys × (p a ≡ true)) (filter p xs)
  All-found p ys [] f = tt
  All-found p ys (x ∷ xs) f =
      let rest = All-found p ys xs (λ a i. f a (there i)) in
      elim (Bool-cases (p x)) [ inl e ↦ rw e ((f x here, e), rest) | inr e ↦ rw e rest ]

  pub All-map : {P Q : A → Type 0} (xs : List A) → ((a : A) → P a → Q a) → All P xs → All Q xs
  All-map [] f h = tt
  All-map (x ∷ xs) f h = (f x h.0, All-map xs f h.1)

  traverse-same :
      (f : A → Result A) (xs : List A) → All (λ a. f a ≡ ok a) xs → traverse f xs ≡ ok xs
  traverse-same f [] h = refl
  traverse-same f (x ∷ xs) h = rw (h.0, traverse-same f xs h.1) refl

module _ {V : Type 0} where
  length-insert_row :
      (r : MemoryRecord V) (qs : List (MemoryRecord V)) → length (insert_row r qs) ≡ suc (length qs)
  unfolding insert_row
  length-insert_row r [] = refl
  length-insert_row r (q ∷ qs) = elim (Bool-cases (comes_later r q)) [
    | inl e ↦ rw e (ap suc (length-insert_row r qs))
    | inr e ↦ rw e refl
  ]

  length-ordered_rows : (qs : List (MemoryRecord V)) → length (ordered_rows qs) ≡ length qs
  unfolding ordered_rows
  length-ordered_rows [] = refl
  length-ordered_rows (q ∷ qs) =
      length-insert_row q (ordered_rows qs) ∙ ap suc (length-ordered_rows qs)

  -- The rows that match, in their order.
  abbrev pub found_rows : Query → Tables V → List (MemoryRecord V)
  found_rows a w = ordered_rows (filter (matches a) w.memories)

  pub All-found_rows :
      (a : Query) (w : Tables V)
      → All (λ q. In q w.memories × (matches a q ≡ true)) (found_rows a w)
  All-found_rows a w =
      All-ordered_rows _ (filter (matches a) w.memories)
        (All-found (matches a) w.memories w.memories (λ q i. i))

  pub query-found_rows :
      (resolve : String → String) (now : String) (a : Query) (w : Tables V)
      → is_empty a.statuses ≡ false
      → no_types a.types ≡ false
      → length (filter (matches a) w.memories) ≤ row_limit a.limit
      → ((q : MemoryRecord V)
          → In q w.memories
          → matches a q ≡ true
          → make_record resolve now q ≡ ok q)
      → query resolve now a w ≡ ok (found_rows a w)
  unfolding query select_rows
  query-found_rows resolve now a w statuses types few valid =
      let rows = found_rows a w in
      let whole =
        take-all (row_limit a.limit) rows
          (omega (arith, few, length-ordered_rows (filter (matches a) w.memories))) in
      rw (statuses, types)
        (ap (traverse (make_record resolve now)) whole
          ∙ traverse-same (make_record resolve now) rows
              (All-map rows (λ q h. valid q h.0 h.1) (All-found_rows a w)))
