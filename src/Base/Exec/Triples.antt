-- ===== src/Base/Exec/Triples.antt =====
-- What holds after an action that returns, given what held before it.
use lbe_ci_validation.Base.Exec.{Exec, continue, lift, pure, raise, ◌>>=◌}
use lbe_ci_validation.Base.Outcomes.{Raised, Result, err, ok, ok-inj}
use lbe_ci_validation.Base.Tests.{if◌then◌else◌}
use mathlib.Core.Bool.{Bool, true, false}
use mathlib.Core.Path.{◌≡◌, refl, subst}

-- From a world with `Q`, if the action returns, then with `P`.
pub record Triple {W A : Type 0} (Q : W → Type 0) (m : Exec W A) (P : A → W → Type 0) : Type 0 where
  pub has : (w : W) → Q w → (a : A) → (m w).0 ≡ ok a → P a (m w).1

abbrev pub Anything : {A W : Type 0} → A → W → Type 0
Anything a w = Unit

module _ {W A : Type 0} {Q : W → Type 0} {P : A → W → Type 0} where
  pub Triple-raise : (e : Raised) → Triple Q (raise e) P
  Triple-raise e = record { has = λ w q a h. absurd (cc h) }

  pub Triple-pure : (a : A) → ((w : W) → Q w → P a w) → Triple Q (pure a) P
  Triple-pure a p = record { has = λ w q b h. subst (λ x. P x w) (ok-inj h) (p w q) }

  pub Triple-if :
      (b : Bool) {m n : Exec W A}
      → Triple Q m P
      → (b ≡ false → Triple Q n P)
      → Triple Q (if b then m else n) P
  Triple-if true p q = p
  Triple-if false p q = q refl

abbrev pub Anywhere : {W : Type 0} → W → Type 0
Anywhere w = Unit

-- A weaker statement about what is returned, from anywhere.
pub Triple-to :
    {W A : Type 0} {Q : W → Type 0} {m : Exec W A} {P R : A → W → Type 0}
    → Triple Anywhere m P
    → ((a : A) (w : W) → P a w → R a w)
    → Triple Q m R
Triple-to p weaker = record { has = λ w q a h. weaker a _ (p.has w tt a h) }

pub Triple-any : {W A : Type 0} {Q : W → Type 0} (m : Exec W A) → Triple Q m Anything
Triple-any m = record { has = λ w q a h. tt }

pub Triple-lift :
    {W A : Type 0} {Q : W → Type 0} (out : Result A)
    → Triple Q (lift out) (λ a w. (out ≡ ok a) × Q w)
Triple-lift out = record { has = λ w q a h. (h, q) }

-- A fact that does not change with the world.
pub Triple-given :
    {W A : Type 0} {E : Type 0} {Q : W → Type 0} {m : Exec W A} {P : A → W → Type 0}
    → (E → Triple Q m P)
    → Triple (λ w. E × Q w) m P
Triple-given p = record { has = λ w q a h. (p q.0).has w q.1 a h }

module _ {W A B : Type 0} {R : A → W → Type 0} {P : B → W → Type 0} where
  pub Triple-continue :
      (out : Result A) (w : W) (f : A → Exec W B)
      → ((a : A) → out ≡ ok a → R a w)
      → ((a : A) → Triple (R a) (f a) P)
      → (b : B) → (continue f out w).0 ≡ ok b
      → P b (continue f out w).1
  Triple-continue (ok a) w f r p = (p a).has w (r a refl)
  Triple-continue (err e) w f r p = λ b h. absurd (cc h)

  pub Triple-bind :
      {Q : W → Type 0} {m : Exec W A} {f : A → Exec W B}
      → Triple Q m R
      → ((a : A) → Triple (R a) (f a) P)
      → Triple Q (m >>= f) P
  Triple-bind {m} {f} q p = record {
    has = λ w v b h. Triple-continue (m w).0 (m w).1 f (q.has w v) p b h;
  }
