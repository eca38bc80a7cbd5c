-- ===== src/Guards/Select.antt =====
-- The guard that is selected (reasoning_guard_planner.py).
use lbe_ci_validation.Guards.{
  GuardCandidate, eligible, first_places, guard_ids, is_complete, pool_of, profile_guard_ids,
  rejected, select, the_only,
}
use lbe_ci_validation.Base.{
  Bool, Bool-cases, Dict, List, String, Value, [], all, any, ap, arith, contains, eq_iff, eq_refl,
  false, filter, inl, inr, is_empty, not, refl, some, some-inj, subst, true, ◌&&◌, ◌==◌, ◌∙◌, ◌∷◌,
  ◌≡◌,
}

-- What holds of a text and of the others holds of all of them.
all-without :
    (p : String → Bool) (s : String) (ts : List String)
    → p s ≡ true
    → all p (filter (λ t. not (t == s)) ts) ≡ true
    → all p ts ≡ true
all-without p s [] hs h = refl
all-without p s (t ∷ ts) hs h = elim (Bool-cases (t == s)) [
  | inl e ↦
      let same : p t ≡ true = ap p ((eq_iff t s).0 e) ∙ hs in
      let rest = all-without p s ts hs (rw e at h) in ground (arith, same, rest)
  | inr e ↦
      let both = rw e at h in
      let rest = all-without p s ts hs (ground (arith, both)) in ground (arith, both, rest)
]

all-first_places :
    (p : String → Bool) (ts : List String) → all p (first_places ts) ≡ true → all p ts ≡ true
unfolding first_places
all-first_places p [] h = refl
all-first_places p (t ∷ ts) h =
    let rest = all-without p t (first_places ts) (ground (arith, h)) (ground (arith, h)) in
    let more = all-first_places p ts rest in ground (arith, h, more)

-- A single text among the first places is each of them.
the_only-all :
    (g : String) (ts : List String)
    → (the_only (first_places ts)).selected_guard_id ≡ some g
    → all (λ t. t == g) ts ≡ true
unfolding the_only
the_only-all g ts h = all-first_places (λ t. t == g) ts (by_list (first_places ts) h)
  where
    by_list :
        (ss : List String) → (the_only ss).selected_guard_id ≡ some g → all (λ t. t == g) ss ≡ true
    by_list [] h' = absurd (cc h')
    by_list (s ∷ []) h' =
        subst (λ x. all (λ t. t == x) (s ∷ []) ≡ true) (some-inj h') (ground (arith, eq_refl s))
    by_list (s ∷ t ∷ ss) h' = absurd (cc h')

all-guard_ids :
    (g : String) (cs : List GuardCandidate)
    → all (λ t. t == g) (guard_ids cs) ≡ true
    → all (λ c. c.guard_id == g) cs ≡ true
all-guard_ids g [] h = refl
all-guard_ids g (c ∷ cs) h = ground (arith, h, all-guard_ids g cs)

all-not_rejected :
    (approved : List String) (cs : List GuardCandidate)
    → is_empty (rejected approved cs) ≡ true
    → all (λ c. contains c.guard_id approved) cs ≡ true
unfolding rejected first_places
all-not_rejected approved [] h = refl
all-not_rejected approved (c ∷ cs) h = elim (Bool-cases (contains c.guard_id approved)) [
  | inl e ↦ rw e (all-not_rejected approved cs (rw e at h))
  | inr e ↦ absurd (cc (rw e at h))
]

all-filter :
    (p q : GuardCandidate → Bool) (cs : List GuardCandidate)
    → all p cs ≡ true
    → all p (filter q cs) ≡ true
all-filter p q [] h = refl
all-filter p q (c ∷ cs) h = ground (arith, h, all-filter p q cs)

same_guard :
    (s g : String) (approved : List String)
    → (s == g) ≡ true
    → contains s approved ≡ contains g approved
same_guard s g approved h = ap (λ t. contains t approved) ((eq_iff s g).0 h)

all-other :
    (approved : List String) (g : String) (cs : List GuardCandidate)
    → any (λ c. c.guard_id == g && contains g approved && is_complete c.evidence_plan) cs ≡ false
    → all (λ c. not (c.guard_id == g)) (eligible approved cs) ≡ true
unfolding eligible
all-other approved g [] h = refl
all-other approved g (c ∷ cs) h =
    ground (arith, h, all-other approved g cs, same_guard c.guard_id g approved)

not_both :
    (p : GuardCandidate → Bool) (cs : List GuardCandidate)
    → all p cs ≡ true
    → all (λ c. not (p c)) cs ≡ true
    → is_empty cs ≡ true
not_both p [] h k = refl
not_both p (c ∷ cs) h k = absurd (ground (arith, h, k))

is_empty-pool :
    (enabled : List String) (cs : List GuardCandidate)
    → is_empty (pool_of enabled cs) ≡ true
    → is_empty cs ≡ true
unfolding pool_of
is_empty-pool enabled cs h =
    elim (Bool-cases (is_empty (filter (λ c. contains c.guard_id enabled) cs))) [
      | inl e ↦ rw e at h
      | inr e ↦ absurd (cc (e, rw e at h))
    ]

all-pool :
    (p : GuardCandidate → Bool) (enabled : List String) (cs : List GuardCandidate)
    → all p cs ≡ true
    → all p (pool_of enabled cs) ≡ true
unfolding pool_of
all-pool p enabled cs h =
    elim (Bool-cases (is_empty (filter (λ c. contains c.guard_id enabled) cs))) [
      | inl e ↦ rw e h
      | inr e ↦ rw e (all-filter p (λ c. contains c.guard_id enabled) cs h)
    ]

any-pool :
    (approved enabled : List String) (g : String) (cs : List GuardCandidate)
    → is_empty (eligible approved cs) ≡ false
    → all (λ c. c.guard_id == g) (pool_of enabled (eligible approved cs)) ≡ true
    → any (λ c. c.guard_id == g && contains g approved && is_complete c.evidence_plan) cs ≡ true
any-pool approved enabled g cs h k =
    elim (Bool-cases
      (any (λ c. c.guard_id == g && contains g approved && is_complete c.evidence_plan) cs)) [
        | inl e ↦ e
        | inr e ↦
            let others =
              all-pool (λ c. not (c.guard_id == g)) enabled (eligible approved cs)
                (all-other approved g cs e) in
            let none_left =
              is_empty-pool enabled (eligible approved cs) (
                not_both (λ c. c.guard_id == g) (pool_of enabled (eligible approved cs)) k
                  others) in
            absurd (cc (h, none_left))
      ]

-- A guard is selected only if every candidate is approved, and there is a candidate for it whose
-- evidence plan is complete; it is then the only guard among the approved candidates of a complete
-- plan, or, where the profile enables some of these, the only one among those enabled.
pub select-selected :
    (candidates : List GuardCandidate) (approved : List String) (profile : Dict Value) (g : String)
    → (select candidates approved profile).selected_guard_id ≡ some g
    → (all (λ c. contains c.guard_id approved) candidates ≡ true)
      × (any (λ c. c.guard_id == g && contains g approved && is_complete c.evidence_plan) candidates
          ≡ true)
      × (all
            (λ c. c.guard_id == g)
            (pool_of (profile_guard_ids profile) (eligible approved candidates))
          ≡ true)
unfolding select
select-selected candidates approved profile g h =
    elim (Bool-cases (is_empty (rejected approved candidates))) [
      | inr bad ↦ absurd (cc (rw bad at h))
      | inl good ↦ elim (Bool-cases (is_empty candidates)) [
        | inl e ↦ absurd (cc (rw (good, e) at h))
        | inr e ↦ elim (Bool-cases (is_empty (eligible approved candidates))) [
          | inl n ↦ absurd (cc (rw (good, e, n) at h))
          | inr n ↦
              let ids =
                guard_ids (pool_of (profile_guard_ids profile) (eligible approved candidates)) in
              let same = all-guard_ids g _ (the_only-all g ids (rw (good, e, n) at h)) in
              (
                all-not_rejected approved candidates good,
                any-pool approved (profile_guard_ids profile) g candidates n same,
                same,
              )
        ]
      ]
    ]
