-- ===== src/Memory/Store/Query/Order.antt =====
-- The rows that a query selects, and those that it leaves out (memory/store.py).
use lbe_ci_validation.Memory.{MemoryRecord, make_record}
use lbe_ci_validation.Memory.Store.{Tables}
use lbe_ci_validation.Memory.Store.Query.{
  Query, comes_later, insert_row, matches, no_types, ordered_rows, query, row_limit, select_rows,
  take,
}
use lbe_ci_validation.Base.{
  All, All-filter, Bool, Bool-cases, List, String, [], ap, arith, false, filter, inl, inr, is_empty,
  length, max, min, refl, subst, suc, traverse, true, zero, ℕ, ◌∷◌, ◌≡◌, ◌≤◌, ◌⊎◌,
}

pub data In {A : Type 0} (a : A) : List A → Type 0 where
  here : {xs : List A} → In a (a ∷ xs)
  there : {x : A} {xs : List A} → In a xs → In a (x ∷ xs)

module _ {A : Type 0} where
  pub In-filter : (p : A → Bool) (a : A) (xs : List A) → In a xs → p a ≡ true → In a (filter p xs)
  In-filter p a [] i h = elim i [ ]
  In-filter p a (_ ∷ xs) here h = rw h here
  In-filter p a (x ∷ xs) (there i) h = elim (Bool-cases (p x)) [
    | inl e ↦ rw e (there (In-filter p a xs i h))
    | inr e ↦ rw e (In-filter p a xs i h)
  ]

  All-In-filter :
      (p : A → Bool) (ys xs : List A)
      → ((a : A) → In a xs → In a ys)
      → All (λ a. In a ys) (filter p xs)
  All-In-filter p ys [] f = tt
  All-In-filter p ys (x ∷ xs) f =
      let rest = All-In-filter p ys xs (λ a i. f a (there i)) in
      elim (Bool-cases (p x)) [ inl e ↦ rw e (f x here, rest) | inr e ↦ rw e rest ]

  length-take : (n : ℕ) (xs : List A) → length (take n xs) ≤ n
  length-take zero xs = omega arith
  length-take (suc n) [] = omega arith
  length-take (suc n) (x ∷ xs) = omega (arith, length-take n xs)

  All-take : (P : A → Type 0) (n : ℕ) (xs : List A) → All P xs → All P (take n xs)
  All-take P zero xs h = tt
  All-take P (suc n) [] h = tt
  All-take P (suc n) (x ∷ xs) h = (h.0, All-take P n xs h.1)

  All-In : (P : A → Type 0) (a : A) (xs : List A) → All P xs → In a xs → P a
  All-In P a [] h i = elim i [ ]
  All-In P a (_ ∷ xs) h here = h.0
  All-In P a (x ∷ xs) h (there i) = All-In P a xs h.1 i

row_limit_lem : (n : ℕ) → row_limit n ≡ max 1 (min n 1000)
unfolding row_limit
row_limit_lem n = ground arith

module _ {V : Type 0} where
  -- The authority of no row is above that of `q`.
  abbrev pub IsAbove : MemoryRecord V → List (MemoryRecord V) → Type 0
  IsAbove q = All (λ r. r.authority ≤ q.authority)

  abbrev IsOrdered : List (MemoryRecord V) → Type 0
  IsOrdered [] = Unit
  IsOrdered (q ∷ qs) = IsAbove q qs × IsOrdered qs

  All-insert_row :
      (P : MemoryRecord V → Type 0) (r : MemoryRecord V) (qs : List (MemoryRecord V))
      → P r
      → All P qs
      → All P (insert_row r qs)
  unfolding insert_row
  All-insert_row P r [] p h = (p, tt)
  All-insert_row P r (q ∷ qs) p h = elim (Bool-cases (comes_later r q)) [
    | inl e ↦ rw e (h.0, All-insert_row P r qs p h.1)
    | inr e ↦ rw e (p, h)
  ]

  pub All-ordered_rows :
      (P : MemoryRecord V → Type 0) (qs : List (MemoryRecord V))
      → All P qs
      → All P (ordered_rows qs)
  unfolding ordered_rows
  All-ordered_rows P [] h = tt
  All-ordered_rows P (q ∷ qs) h =
      All-insert_row P q (ordered_rows qs) h.0 (All-ordered_rows P qs h.1)

  IsAbove-lower :
      (r q : MemoryRecord V) (qs : List (MemoryRecord V))
      → q.authority ≤ r.authority
      → IsAbove q qs
      → IsAbove r qs
  IsAbove-lower r q [] le h = tt
  IsAbove-lower r q (s ∷ ss) le h = (let a = h.0 in omega arith, IsAbove-lower r q ss le h.1)

  IsOrdered-insert_row :
      (r : MemoryRecord V) (qs : List (MemoryRecord V)) → IsOrdered qs → IsOrdered (insert_row r qs)
  unfolding insert_row
  IsOrdered-insert_row r [] h = (tt, tt)
  IsOrdered-insert_row r (q ∷ qs) h = elim (Bool-cases (comes_later r q)) [
    | inl e ↦ rw e (
      All-insert_row (λ s. s.authority ≤ q.authority) r qs (ground (arith, e)) h.0,
      IsOrdered-insert_row r qs h.1,
    )
    | inr e ↦ rw e ((ground (arith, e), IsAbove-lower r q qs (ground (arith, e)) h.0), h)
  ]

  IsOrdered-ordered_rows : (qs : List (MemoryRecord V)) → IsOrdered (ordered_rows qs)
  unfolding ordered_rows
  IsOrdered-ordered_rows [] = tt
  IsOrdered-ordered_rows (q ∷ qs) =
      IsOrdered-insert_row q (ordered_rows qs) (IsOrdered-ordered_rows qs)

  In-swap :
      (a r q : MemoryRecord V) (rows qs : List (MemoryRecord V))
      → (In a (r ∷ qs) → In a rows)
      → In a (r ∷ q ∷ qs)
      → In a (q ∷ rows)
  In-swap a r q rows qs f here = there (f here)
  In-swap a r q rows qs f (there here) = here
  In-swap a r q rows qs f (there (there i)) = there (f (there i))

  In-insert_row :
      (a r : MemoryRecord V) (qs : List (MemoryRecord V)) → In a (r ∷ qs) → In a (insert_row r qs)
  unfolding insert_row
  In-insert_row a r [] i = i
  In-insert_row a r (q ∷ qs) i = elim (Bool-cases (comes_later r q)) [
    | inr e ↦ rw e i
    | inl e ↦ rw e (In-swap a r q (insert_row r qs) qs (In-insert_row a r qs) i)
  ]

  pub In-ordered_rows :
      (a : MemoryRecord V) (qs : List (MemoryRecord V)) → In a qs → In a (ordered_rows qs)
  unfolding ordered_rows
  In-ordered_rows a [] i = elim i [ ]
  In-ordered_rows a (_ ∷ qs) here = In-insert_row a a (ordered_rows qs) here
  In-ordered_rows a (q ∷ qs) (there i) =
      In-insert_row a q (ordered_rows qs) (there (In-ordered_rows a qs i))

  -- The first n rows have the row, or they are n rows of no less authority.
  abbrev pub Covers : ℕ → MemoryRecord V → List (MemoryRecord V) → Type 0
  Covers n q rows = In q rows ⊎ ((length rows ≡ n) × All (λ r. q.authority ≤ r.authority) rows)

  take-Covers :
      (n : ℕ) (q : MemoryRecord V) (qs : List (MemoryRecord V))
      → IsOrdered qs
      → In q qs
      → Covers n q (take n qs)
  take-Covers zero q qs h i = inr (refl, tt)
  take-Covers (suc n) q [] h i = elim i [ ]
  take-Covers (suc n) q (_ ∷ qs) h here = inl here
  take-Covers (suc n) q (r ∷ qs) h (there i) = elim (take-Covers n q qs h.1 i) [
    | inl j ↦ inl (there j)
    | inr (len, low) ↦ inr (ap suc len, (All-In (λ s. s.authority ≤ r.authority) q qs h.0 i, low))
  ]

  select_rows-All :
      (P : MemoryRecord V → Type 0) (a : Query) (qs : List (MemoryRecord V))
      → All P (filter (matches a) qs)
      → All P (select_rows a qs)
  unfolding select_rows
  select_rows-All P a qs h =
      All-take P (row_limit a.limit) (ordered_rows (filter (matches a) qs))
        (All-ordered_rows P (filter (matches a) qs) h)

  -- A query whose statuses and types are not empty returns the records built from at most
  -- max(1, min(limit, 1000)) rows, each of which is stored and matches it. A stored row that matches is
  -- one of these, or they are max(1, min(limit, 1000)) and none of them has a lower authority than it.
  pub query-selects :
      (resolve : String → String) (now : String) (a : Query) (w : Tables V)
      → is_empty a.statuses ≡ false
      → no_types a.types ≡ false
      → (rows : List (MemoryRecord V)) × (query resolve now a w
          ≡ traverse (make_record resolve now) rows)
        × All (λ r. In r w.memories) rows
        × All (λ r. matches a r ≡ true) rows
        × (length rows ≤ max 1 (min a.limit 1000))
        × ((q : MemoryRecord V)
            → In q w.memories
            → matches a q ≡ true
            → Covers (max 1 (min a.limit 1000)) q rows)
  unfolding query select_rows
  query-selects resolve now a w statuses types =
      let n = row_limit a.limit in
      let found = filter (matches a) w.memories in
      (
        select_rows a w.memories,
        rw (statuses, types) refl,
        select_rows-All (λ r. In r w.memories) a w.memories
            (All-In-filter (matches a) w.memories w.memories (λ q i. i)),
        select_rows-All (λ r. matches a r ≡ true) a w.memories (All-filter (matches a) w.memories),
        subst (λ m. length (select_rows a w.memories) ≤ m) (row_limit_lem a.limit)
            (length-take n (ordered_rows found)),
        λ q i m.
            subst (λ k. Covers k q (select_rows a w.memories)) (row_limit_lem a.limit)
              (take-Covers n q (ordered_rows found) (IsOrdered-ordered_rows found)
                (In-ordered_rows q found (In-filter (matches a) q w.memories i m))),
      )
