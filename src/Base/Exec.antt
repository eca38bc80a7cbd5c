-- ===== src/Base/Exec.antt =====
-- Methods that change an object and may raise. What was written before a raise stays written, so the
-- state comes back beside the exception too.
pub mod Preserves
pub mod Triples
pub mod Reads
use lbe_ci_validation.Base.Outcomes.{Raised, Result, err, is_ok, ok}
use mathlib.Core.Path.{◌≡◌, refl}
use mathlib.Core.Bool.{true}

abbrev pub Exec {ℓ} : Type ℓ → Type ℓ → Type ℓ
Exec S A = S → Result A × S

abbrev pub modify : {S : Type 0} → (S → S) → Exec S (Unit {0})
modify f s = (ok tt, f s)

abbrev pub gets {ℓ} : {S A : Type ℓ} → (S → A) → Exec S A
gets f s = (ok (f s), s)

abbrev pub lift {ℓ} : {S A : Type ℓ} → Result A → Exec S A
lift out s = (out, s)

abbrev pub raise {ℓ} : {S A : Type ℓ} → Raised → Exec S A
raise e = lift (err e)

abbrev pub pure {ℓ} : {S A : Type ℓ} → A → Exec S A
pure a = lift (ok a)

module _ {ℓ} {S A B : Type ℓ} where
  infixl 10 ◌>>=◌ ◌>>◌
  abbrev pub continue : (A → Exec S B) → Result A → Exec S B
  continue next (err e) = raise e
  continue next (ok a) = next a

  abbrev pub ◌>>=◌ : Exec S A → (A → Exec S B) → Exec S B
  ◌>>=◌ m next s = let (out, s') = m s in continue next out s'

  abbrev pub ◌>>◌ : Exec S A → Exec S B → Exec S B
  first >> second = first >>= λ done. second

module _ {ℓ} {S A B : Type ℓ} (m : Exec S A) (s : S) where
  -- After an action that returns, the next one runs.
  pub bind-ok : {a : A} (f : A → Exec S B) → (m s).0 ≡ ok a → (m >>= f) s ≡ f a (m s).1
  bind-ok f h = rw h refl

  pub bind-err : {e : Raised} (f : A → Exec S B) → (m s).0 ≡ err e → (m >>= f) s ≡ (err e, (m s).1)
  bind-err f h = rw h refl

  -- If the next one always returns, they return together.
  pub is_ok-bind :
      (f : A → Exec S B)
      → ((a : A) → (m s).0 ≡ ok a → is_ok (f a (m s).1).0 ≡ true)
      → is_ok ((m >>= f) s).0 ≡ is_ok (m s).0
  is_ok-bind f returns = by_result (m s).0 returns
    where
      by_result :
          (r : Result A)
          → ((a : A) → r ≡ ok a → is_ok (f a (m s).1).0 ≡ true)
          → is_ok (continue f r (m s).1).0 ≡ is_ok r
      by_result (err e) total = refl
      by_result (ok a) total = total a refl

  pub bind-pure_state : (f : A → B) → ((m >>= λ a. pure (f a)) s).1 ≡ (m s).1
  bind-pure_state f = by_result (m s).0
    where
      by_result : (r : Result A) → (continue (λ a. pure (f a)) r (m s).1).1 ≡ (m s).1
      by_result (err e) = refl
      by_result (ok a) = refl
