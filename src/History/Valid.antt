-- ===== src/History/Valid.antt =====
-- One running turn of a session, one row of a turn (memory/operational_history.py): what starts,
-- closes and adds to turns keeps this.
use lbe_ci_validation.Base.Exec.Preserves.{Preserves}
use lbe_ci_validation.History.{
  History, OperationalEvent, OperationalTurn, TurnStatus, append_event, close_turns, count_running,
  finalize_turn, find_turn, is_found, is_running, start_turn,
}
use lbe_ci_validation.History.Items.{latest_of}
use lbe_ci_validation.Base.{
  Bool, Bool-cases, List, Option-cases, String, [], arith, eq_iff, false, filter, if◌then◌else◌,
  inl, inr, is_some, nat_eq, not, refl, true, ℕ, ◌&&◌, ◌++◌, ◌+◌, ◌==◌, ◌∷◌, ◌≡◌, ◌≤◌, ◌⊎◌,
}

-- How many turns of a session run, and how many have an identifier.
unfoldable pub running_in : String → List OperationalTurn → ℕ
running_in id [] = 0
running_in id (t ∷ ts) =
    let rest = running_in id ts in
    if t.session_id == id && is_running t.status then rest + 1 else rest

unfoldable pub count_id : String → List OperationalTurn → ℕ
count_id id [] = 0
count_id id (t ∷ ts) = let rest = count_id id ts in if t.turn_id == id then rest + 1 else rest

-- Every session has at most one running turn, and every identifier is that of at most one turn.
pub record IsValid (h : History) : Type 0 where
  pub one_running : (session : String) → running_in session h.turns ≤ 1
  pub keyed : (id : String) → count_id id h.turns ≤ 1

running_in-append :
    (id : String) (t : OperationalTurn) (ts : List OperationalTurn)
    → running_in id (ts ++ t ∷ [])
      ≡ running_in id ts + (if t.session_id == id && is_running t.status then 1 else 0)
unfolding running_in
running_in-append id t [] = ground arith
running_in-append id t (u ∷ ts) = ground (arith, running_in-append id t ts)

count_id-append :
    (id : String) (t : OperationalTurn) (ts : List OperationalTurn)
    → count_id id (ts ++ t ∷ []) ≡ count_id id ts + (if t.turn_id == id then 1 else 0)
unfolding count_id
count_id-append id t [] = ground arith
count_id-append id t (u ∷ ts) = ground (arith, count_id-append id t ts)

-- No turn is found exactly if none has the identifier.
count_id-not_found :
    (id : String) (ts : List OperationalTurn)
    → is_found (find_turn id ts) ≡ false
    → count_id id ts ≡ 0
unfolding count_id find_turn
count_id-not_found id [] h = refl
count_id-not_found id (t ∷ ts) h = ground (arith, count_id-not_found id ts)

is_some-latest_of :
    (t : OperationalTurn) (ts : List OperationalTurn) → is_some (latest_of (t ∷ ts)) ≡ true
unfolding latest_of
is_some-latest_of t ts = elim (Option-cases (latest_of ts)) [
  | inl e ↦ rw e refl
  | inr (u, e) ↦ rw e (ground arith)
]

pub running_in-latest :
    (id : String) (ts : List OperationalTurn)
    → is_some (latest_of (filter (λ t. t.session_id == id && is_running t.status) ts)) ≡ false
    → running_in id ts ≡ 0
unfolding running_in latest_of
running_in-latest id [] h = refl
running_in-latest id (t ∷ ts) h = elim (Bool-cases (t.session_id == id && is_running t.status)) [
  | inl e ↦ absurd (
      cc (
        rw e at h,
        is_some-latest_of t (filter (λ u. u.session_id == id && is_running u.status) ts),
      ))
  | inr e ↦ rw e (running_in-latest id ts (rw e at h))
]

close_turns-le :
    (id session : String) (status : TurnStatus) (now : String) (ts : List OperationalTurn)
    → running_in session (close_turns id status now ts) ≤ running_in session ts
unfolding running_in close_turns
close_turns-le id session status now [] = omega arith
close_turns-le id session status now (t ∷ ts) =
    ground (arith, close_turns-le id session status now ts)

close_turns-count :
    (id key : String) (status : TurnStatus) (now : String) (ts : List OperationalTurn)
    → count_id key (close_turns id status now ts) ≡ count_id key ts
unfolding count_id close_turns
close_turns-count id key status now [] = refl
close_turns-count id key status now (t ∷ ts) =
    ground (arith, close_turns-count id key status now ts)

pub append_event-turns : (e : OperationalEvent) (h : History) → (append_event e h).1.turns ≡ h.turns
unfolding append_event
append_event-turns e h = ground arith

pub append_event-IsValid : (e : OperationalEvent) → Preserves IsValid (append_event e)
append_event-IsValid e = record {
  step = λ h v. record {
    one_running = λ session. rw (append_event-turns e h) (v.one_running session);
    keyed = λ id. rw (append_event-turns e h) (v.keyed id);
  };
}

finalize_turn-cases :
    (id : String) (status : TurnStatus) (now : String) (h : History)
    → ((finalize_turn id status now h).1.turns ≡ h.turns)
      ⊎ ((finalize_turn id status now h).1.turns ≡ close_turns id status now h.turns)
unfolding finalize_turn
finalize_turn-cases id status now h = elim (Bool-cases (nat_eq (count_running id h.turns) 1)) [
  | inr e ↦ rw e (inl refl)
  | inl e ↦ elim (Option-cases (find_turn id (close_turns id status now h.turns))) [
    | inl f ↦ rw (e, f) (inl refl)
    | inr (t, f) ↦ rw (e, f) (inr refl)
  ]
]

pub finalize_turn-IsValid :
    (id : String) (status : TurnStatus) (now : String)
    → Preserves IsValid (finalize_turn id status now)
finalize_turn-IsValid id status now = record {
  step = λ h v. elim (finalize_turn-cases id status now h) [
    | inl same ↦ record {
      one_running = λ session. rw same (v.one_running session);
      keyed = λ key. rw same (v.keyed key);
    }
    | inr closed ↦ record {
      one_running = λ session.
          rw closed
            (omega (arith, v.one_running session, close_turns-le id session status now h.turns));
      keyed = λ key. rw (closed, close_turns-count id key status now h.turns) (v.keyed key);
    }
  ];
}

-- A started turn is the last of the table.
start_turn-cases :
    (known : Bool) (turn_id session_id now : String) (h : History)
    → ((start_turn known turn_id session_id now h).1 ≡ h)
      ⊎ ((t : OperationalTurn) × (t.turn_id ≡ turn_id)
          × (t.session_id ≡ session_id)
          × (is_found (find_turn turn_id h.turns) ≡ false)
          × ((start_turn known turn_id session_id now h).1.turns ≡ h.turns ++ t ∷ []))
unfolding start_turn
start_turn-cases known turn_id session_id now h = elim (Bool-cases (not known)) [
  | inl e ↦ rw e (inl refl)
  | inr e ↦ elim (Bool-cases (is_found (find_turn turn_id h.turns))) [
    | inl f ↦ rw (e, f) (inl refl)
    | inr f ↦ rw (e, f) (inr (_, refl, refl, refl, refl))
  ]
]

pub start_turn-IsValid :
    (known : Bool) (turn_id session_id now : String) (h : History)
    → IsValid h × (running_in session_id h.turns ≡ 0)
    → IsValid (start_turn known turn_id session_id now h).1
start_turn-IsValid known turn_id session_id now h (v, idle) =
    elim (start_turn-cases known turn_id session_id now h) [
      | inl same ↦ rw same v
      | inr (t, id, session, free, added) ↦ record {
        one_running = λ other.
            rw (added, running_in-append other t h.turns)
              (ground (arith, v.one_running other, idle, session, eq_iff t.session_id other));
        keyed = λ key.
            rw (added, count_id-append key t h.turns)
              (ground (
                arith,
                v.keyed key,
                id,
                count_id-not_found turn_id h.turns free,
                eq_iff t.turn_id key,
              ));
      }
    ]
