-- ===== src/Runtime/Mode/Decisions.antt =====
-- Which mode a request resolves to, and what the decision may hold.
use lbe_ci_validation.Base.{
  All, All-filter, Bool, List, String, [], ap, arith, by_keys, contains, lookup, not, ok, refl,
  subst, true, ◌&&◌, ◌++◌, ◌==◌, ◌||◌, ◌∙◌, ◌∷◌, ◌≡◌,
}
use lbe_ci_validation.Behavior.{get_behaviors_for_mode, validate_mode_behavior}
use lbe_ci_validation.Runtime.Mode.Capabilities.{contains-resolve_capabilities, granted}
use lbe_ci_validation.Runtime.Mode.{
  ModeDecision, ModeRequest, RuntimeMode, audit, audit_intents, base_of, behavior_mode, coding,
  investigation, investigation_intents, is_coding, permission_mode, resolve_base, resolve_behaviors,
  resolve_capabilities, resolve_mode, resolve_mode_of, write_capabilities,
}

-- The condition for coding mode, in one formula.
abbrev pub may_code : String → String → String → Bool
may_code intent permission runtime_policy =
    "development" == runtime_policy
    || (not (contains runtime_policy ("audit" ∷ "strict" ∷ []))
        && contains permission ("write_allowed" ∷ "elevated" ∷ [])
        && not (contains intent (investigation_intents ++ audit_intents)))

is_coding-resolve_base :
    (intent permission : String) (base : RuntimeMode)
    → is_coding (resolve_base intent permission base).0
      ≡ (is_coding base && not (contains intent (investigation_intents ++ audit_intents)))
unfolding resolve_base
is_coding-resolve_base intent permission coding = ground arith
is_coding-resolve_base intent permission audit = ground arith
is_coding-resolve_base intent permission investigation = ground arith

-- The permission table at every text.
is_coding-base_of :
    (permission : String)
    → is_coding (base_of (lookup permission permission_mode))
      ≡ contains permission ("write_allowed" ∷ "elevated" ∷ [])
unfolding base_of lookup
is_coding-base_of =
    by_keys _ ("read_only" ∷ "audit_only" ∷ "write_allowed" ∷ "elevated" ∷ [])
      (refl, (refl, (refl, (refl, tt)))) (λ name h. ground arith)

abbrev Agree : String → String → String → Type 0
Agree intent permission runtime_policy =
    is_coding (resolve_mode_of intent permission runtime_policy).0
    ≡ may_code intent permission runtime_policy

is_coding-resolve_mode_of :
    (intent permission runtime_policy : String)
    → is_coding (resolve_mode_of intent permission runtime_policy).0
      ≡ may_code intent permission runtime_policy
unfolding resolve_mode_of
is_coding-resolve_mode_of intent permission =
    by_keys (Agree intent permission) ("audit" ∷ "development" ∷ "strict" ∷ "permissive" ∷ [])
      (
        refl,
        (
          refl,
          (
            refl,
            (
              ground (
                arith,
                is_coding-resolve_base intent permission
                    (base_of (lookup permission permission_mode)),
                is_coding-base_of permission,
              ),
              tt,
            ),
          ),
        ),
      )
      (λ policy h. ground (
        arith,
        is_coding-resolve_base intent permission (base_of (lookup permission permission_mode)),
        is_coding-base_of permission,
      ))

-- What `resolve_behaviors` returns, whatever the behaviors of the intent.
record IsBounded (mode : RuntimeMode) (d : ModeDecision) : Type 0 where
  same_mode : d.mode ≡ mode
  derived : d.capabilities ≡ resolve_capabilities mode d.allowed_behaviors
  permitted :
      All (λ name. validate_mode_behavior (behavior_mode mode) name ≡ true) d.allowed_behaviors

-- The defaults of a mode are among the behaviors of that mode.
defaults-IsBounded :
    (request : ModeRequest) (mode : RuntimeMode) (rationale : String)
    → (d : ModeDecision) × (resolve_behaviors request mode rationale [] ≡ ok d) × IsBounded mode d
unfolding resolve_behaviors get_behaviors_for_mode behavior_mode validate_mode_behavior
defaults-IsBounded request coding rationale = (
  _,
  refl,
  record {
    same_mode = refl;
    derived = refl;
    permitted = (refl, (refl, (refl, (refl, (refl, (refl, (refl, (refl, tt))))))));
  },
)
defaults-IsBounded request audit rationale = (
  _,
  refl,
  record {
    same_mode = refl;
    derived = refl;
    permitted = (refl, (refl, (refl, (refl, (refl, (refl, (refl, tt)))))));
  },
)
defaults-IsBounded request investigation rationale = (
  _,
  refl,
  record {
    same_mode = refl;
    derived = refl;
    permitted = (refl, (refl, (refl, (refl, (refl, (refl, (refl, tt)))))));
  },
)

resolve_behaviors-IsBounded :
    (request : ModeRequest) (mode : RuntimeMode) (rationale : String) (behaviors : List String)
    → (d : ModeDecision) × (resolve_behaviors request mode rationale behaviors ≡ ok d)
      × IsBounded mode d
unfolding resolve_behaviors
resolve_behaviors-IsBounded request mode rationale [] = defaults-IsBounded request mode rationale
resolve_behaviors-IsBounded request mode rationale (b ∷ bs) = (
  _,
  refl,
  record {
    same_mode = refl;
    derived = refl;
    permitted = All-filter (λ x. validate_mode_behavior (behavior_mode mode) x) (b ∷ bs);
  },
)

-- Resolution never raises: every behavior of a mode has a contract.
resolve_mode-IsBounded :
    (request : ModeRequest)
    → let mode = (resolve_mode_of request.intent request.permission request.runtime_policy).0 in
      (d : ModeDecision) × (resolve_mode request ≡ ok d) × IsBounded mode d
unfolding resolve_mode
resolve_mode-IsBounded request = resolve_behaviors-IsBounded request _ _ _

-- For every request, whatever its texts, resolution returns a decision; its mode is coding exactly
-- if the policy is `development`, or the policy forces no mode, the permission is one of the two
-- that map to coding and the intent is no investigation or audit intent.
pub resolve_mode_coding :
    (request : ModeRequest)
    → (d : ModeDecision) × (resolve_mode request ≡ ok d)
      × (is_coding d.mode ≡ may_code request.intent request.permission request.runtime_policy)
resolve_mode_coding request =
    let (d, e, b) = resolve_mode-IsBounded request in
    (d, e, rw b.same_mode (is_coding-resolve_mode_of _ _ _))

decision-IsBounded :
    (request : ModeRequest) (d : ModeDecision) → resolve_mode request ≡ ok d → IsBounded d.mode d
decision-IsBounded request d e =
    let (d', e', b) = resolve_mode-IsBounded request in
    let same : d' ≡ d = cc (e, e') in subst (λ x. IsBounded x.mode x) same (rw b.same_mode b)

-- A decision allows only behaviors that the public table lists for its mode. It holds a capability
-- exactly if an allowed behavior grants it and, outside coding mode, it is no write capability.
pub decision_bounds :
    (request : ModeRequest) (d : ModeDecision) (cap : String)
    → resolve_mode request ≡ ok d
    → All (λ name. validate_mode_behavior (behavior_mode d.mode) name ≡ true) d.allowed_behaviors
      × (contains cap d.capabilities ≡ (
          granted cap d.allowed_behaviors
          && (is_coding d.mode || not (contains cap write_capabilities))))
decision_bounds request d cap e =
    let b = decision-IsBounded request d e in
    (b.permitted, ap (contains cap) b.derived ∙ contains-resolve_capabilities d.mode cap _)
