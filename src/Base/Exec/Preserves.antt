-- ===== src/Base/Exec/Preserves.antt =====
-- Invariants of methods: one rule for each way to build an action.
use lbe_ci_validation.Base.Exec.{Exec, continue, gets, lift, pure, raise, ◌>>=◌}
use lbe_ci_validation.Base.Tests.{if◌then◌else◌}
use lbe_ci_validation.Base.Outcomes.{Raised, Result, err, ok}
use mathlib.Core.Bool.{Bool, true, false}

-- Whatever the action returns or raises, `P` holds of the state that it leaves.
pub record Preserves {ℓ} {S A : Type ℓ} (P : S → Type ℓ) (m : Exec S A) : Type ℓ where
  pub step : (s : S) → P s → P (m s).1

module _ {ℓ} {S A : Type ℓ} {P : S → Type ℓ} where
  pub Preserves-pure : (a : A) → Preserves P (pure a)
  Preserves-pure a = record { step = λ s h. h }

  pub Preserves-raise : (e : Raised) → Preserves P (raise {A = A} e)
  Preserves-raise e = record { step = λ s h. h }

  pub Preserves-lift : (r : Result A) → Preserves P (lift r)
  Preserves-lift r = record { step = λ s h. h }

  pub Preserves-gets : (f : S → A) → Preserves P (gets f)
  Preserves-gets f = record { step = λ s h. h }

  pub Preserves-read : (f : S → Result A) → Preserves P (λ s. (f s, s))
  Preserves-read f = record { step = λ s h. h }

  pub Preserves-if :
      (b : Bool) {m n : Exec S A} → Preserves P m → Preserves P n → Preserves P (if b then m else n)
  Preserves-if true pm pn = pm
  Preserves-if false pm pn = pn

module _ {ℓ} {S A B : Type ℓ} {P : S → Type ℓ} where
  Preserves-continue :
      (r : Result A) {f : A → Exec S B} → ((a : A) → Preserves P (f a)) → Preserves P (continue f r)
  Preserves-continue (ok a) pf = pf a
  Preserves-continue (err e) pf = record { step = λ s h. h }

  pub Preserves-bind :
      {m : Exec S A} {f : A → Exec S B}
      → Preserves P m
      → ((a : A) → Preserves P (f a))
      → Preserves P (m >>= f)
  Preserves-bind {m} pm pf = record {
    step = λ s h. (Preserves-continue (m s).0 pf).step (m s).1 (pm.step s h);
  }

-- An action that needs more than `P` to keep `P`, and then others that keep it.
pub Preserves-after {ℓ} :
    {S A B : Type ℓ} {P Q : S → Type ℓ} (m : Exec S A) {f : A → Exec S B}
    → ((s : S) → Q s → P (m s).1)
    → ((a : A) → Preserves P (f a))
    → (s : S) → Q s
    → P ((m >>= f) s).1
Preserves-after m pm pf s q = (Preserves-continue (m s).0 pf).step (m s).1 (pm s q)

pub ruleset preserves_rules =
    (Preserves-pure, Preserves-raise, Preserves-lift, Preserves-gets, Preserves-bind)
