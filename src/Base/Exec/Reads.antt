-- ===== src/Base/Exec/Reads.antt =====
-- Actions that only read.
use lbe_ci_validation.Base.Exec.{Exec, continue, lift, ◌>>=◌}
use lbe_ci_validation.Base.Outcomes.{Result, err, ok}
use lbe_ci_validation.Base.Exec.Triples.{Triple}
use mathlib.Core.Path.{◌≡◌, refl, subst, ◌∙◌}

-- The action leaves the state as it was.
pub record Reads {S A : Type 0} (m : Exec S A) : Type 0 where
  pub same : (s : S) → (m s).1 ≡ s

module _ {S A : Type 0} where
  pub Reads-lift : (out : Result A) → Reads {S = S} (lift out)
  Reads-lift out = record { same = λ s. refl }

  pub Reads-read : (f : S → Result A) → Reads {S = S} (λ s. (f s, s))
  Reads-read f = record { same = λ s. refl }

module _ {S A B : Type 0} where
  Reads-continue :
      (out : Result A) (f : A → Exec S B)
      → ((a : A) → Reads (f a))
      → (s : S) → (continue f out s).1 ≡ s
  Reads-continue (err e) f q s = refl
  Reads-continue (ok a) f q s = (q a).same s

  pub Reads-bind :
      {m : Exec S A} {f : A → Exec S B} → Reads m → ((a : A) → Reads (f a)) → Reads (m >>= f)
  Reads-bind {m} {f} p q = record {
    same = λ s.
        subst (λ t. (continue f (m s).0 (m s).1).1 ≡ t) (p.same s)
          (Reads-continue (m s).0 f q (m s).1);
  }

-- What an action that only reads returns is what it returns from the state that it finds.
pub Triple-read :
    {S A : Type 0} {m : Exec S A} (s : S)
    → Reads m
    → Triple (λ t. t ≡ s) m (λ a t. ((m s).0 ≡ ok a) × (t ≡ s))
Triple-read {m} s p = record { has = λ t q a h. (subst (λ x. (m x).0 ≡ ok a) q h, p.same t ∙ q) }

pub ruleset reads_rules = (Reads-lift, Reads-bind)
