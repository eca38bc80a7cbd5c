-- ===== src/History/Rows.antt =====
-- The rows of a turn in their order (memory/operational_history.py).
use lbe_ci_validation.Base.{
  Bool, Bool-cases, List, Option, String, [], arith, if◌then◌else◌, inl, inr, leb, lookup, ltb,
  none, refl, some, sym, true, ℕ, ◌&&◌, ◌++◌, ◌∷◌, ◌≡◌,
}
use lbe_ci_validation.History.{
  EventRow, TurnStatus, insert_row, last_status, max_of, of_turn, or_status, replay_table,
  rows_of_turn,
}

insert_row-append :
    (r e : EventRow) (rows : List EventRow)
    → leb r.turn_sequence e.turn_sequence ≡ true
    → insert_row r (rows ++ e ∷ []) ≡ insert_row r rows ++ e ∷ []
unfolding insert_row
insert_row-append r e [] h = rw h refl
insert_row-append r e (q ∷ rows) h = elim (Bool-cases (leb r.turn_sequence q.turn_sequence)) [
  | inl t ↦ rw t refl
  | inr f ↦ rw (f, insert_row-append r e rows h) refl
]

above :
    (b : Bool) (k m n : ℕ)
    → leb (if b && ltb m k then k else m) n ≡ true
    → (leb m n ≡ true) × (b ≡ true → leb k n ≡ true)
above b k m n h = ground arith

-- A row whose sequence number is above those of its turn is the last of the turn.
pub rows_of_turn-append :
    (id : String) (e : EventRow) (rows : List EventRow)
    → of_turn id e ≡ true
    → leb (max_of (of_turn id) (λ r. r.turn_sequence) rows) e.turn_sequence ≡ true
    → rows_of_turn id (rows ++ e ∷ []) ≡ rows_of_turn id rows ++ e ∷ []
unfolding rows_of_turn max_of insert_row
rows_of_turn-append id e [] own h = rw own refl
rows_of_turn-append id e (r ∷ rows) own h = elim (Bool-cases (of_turn id r)) [
  | inl t ↦
      rw (t, rows_of_turn-append id e rows own (above (of_turn id r) _ _ _ h).0)
        (insert_row-append r e (rows_of_turn id rows) ((above (of_turn id r) _ _ _ h).1 t))
  | inr f ↦ rw (f, rows_of_turn-append id e rows own (above (of_turn id r) _ _ _ h).0) refl
]

or_status-none : (o : Option TurnStatus) → or_status o none ≡ o
or_status-none none = refl
or_status-none (some s) = refl

or_status_assoc :
    (a b c : Option TurnStatus) → or_status (or_status a b) c ≡ or_status a (or_status b c)
or_status_assoc none b c = refl
or_status_assoc (some s) b c = refl

pub last_status-append :
    (e : EventRow) (rows : List EventRow)
    → last_status (rows ++ e ∷ [])
      ≡ or_status (lookup e.event.event_type replay_table) (last_status rows)
unfolding last_status
last_status-append e [] = sym (or_status-none _)
last_status-append e (r ∷ rows) =
    rw (last_status-append e rows)
      (or_status_assoc (lookup e.event.event_type replay_table) (last_status rows) _)
