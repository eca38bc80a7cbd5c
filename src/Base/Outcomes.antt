-- ===== src/Base/Outcomes.antt =====
-- Python's exceptions: a call returns a value or raises.
use Prim.Native.String.{String}
use mathlib.Core.Path.{◌≡◌, refl, subst}
use mathlib.Core.Bool.{Bool, true, false, not, ◌&&◌}
use mathlib.Core.List.{List, [], ◌∷◌}

-- `exception` is a subclass of `Exception`, by its class name and its text; `interrupt` is any other
-- `BaseException`, such as `KeyboardInterrupt`, which `except Exception` does not catch.
pub data Raised : Type 0 where
  interrupt : String → Raised
  exception : String → String → Raised

pub data Result {ℓ} (A : Type ℓ) : Type ℓ where
  err : Raised → Result A
  ok : A → Result A

abbrev pub value_error : String → Raised
value_error = exception "ValueError"

abbrev pub key_error : String → Raised
key_error = exception "KeyError"

abbrev pub type_error : String → Raised
type_error = exception "TypeError"

-- `if bad: raise e`.
abbrev pub raise_if : Bool → Raised → Result (Unit {0})
raise_if true e = err e
raise_if false e = ok tt

abbrev pub is_ok {ℓ} : {A : Type ℓ} → Result A → Bool
is_ok (err e) = false
is_ok (ok a) = true

infixl 10 ◌>>=◌ ◌>>◌
abbrev pub ◌>>=◌ {ℓ κ} : {A : Type ℓ} {B : Type κ} → Result A → (A → Result B) → Result B
err e >>= next = err e
ok a >>= next = next a

abbrev pub ◌>>◌ {ℓ} : {B : Type ℓ} → Result (Unit {0}) → Result B → Result B
first >> second = first >>= λ done. second

-- A comprehension whose element may raise.
abbrev pub traverse {ℓ κ} : {A : Type ℓ} {B : Type κ} → (A → Result B) → List A → Result (List B)
traverse f [] = ok []
traverse f (x ∷ xs) = do b ← f x; bs ← traverse f xs; ok (b ∷ bs)

-- A chain of checks.
pub raise_if-ok {ℓ} :
    {B : Type ℓ} (bad : Bool) (e : Raised) (rest : Result B) {b : B}
    → (raise_if bad e >> rest) ≡ ok b
    → (bad ≡ false) × (rest ≡ ok b)
raise_if-ok true e rest h = absurd (cc h)
raise_if-ok false e rest h = (refl, h)

pub is_ok-raise_if {ℓ} :
    {B : Type ℓ} (bad : Bool) (e : Raised) (rest : Result B)
    → is_ok (raise_if bad e >> rest) ≡ (not bad && is_ok rest)
is_ok-raise_if true e rest = refl
is_ok-raise_if false e rest = refl

pub ok-inj {ℓ} : {A : Type ℓ} {a b : A} → ok a ≡ ok b → a ≡ b
ok-inj h = cc h

pub then-ok {ℓ} :
    {B : Type ℓ} (first : Result (Unit {0})) (second : Result B) {b : B}
    → (first >> second) ≡ ok b
    → (first ≡ ok tt) × (second ≡ ok b)
then-ok (err e) second h = absurd (cc h)
then-ok (ok done) second h = (refl, h)

pub of_is_ok {ℓ} : {A : Type ℓ} (r : Result A) → is_ok r ≡ true → (a : A) × (r ≡ ok a)
of_is_ok (err e) h = absurd (cc h)
of_is_ok (ok a) h = (a, refl)

-- What a call returns, if it returns, has the property.
pub record Returned {A : Type 0} (P : A → Type 0) (out : Result A) : Type 0 where
  pub has : (a : A) → out ≡ ok a → P a

module _ {A B : Type 0} {P : B → Type 0} where
  pub Returned-bind :
      {m : Result A} {f : A → Result B}
      → ((a : A) → m ≡ ok a → Returned P (f a))
      → Returned P (m >>= f)
  Returned-bind {m = err e} step = record { has = λ b h. absurd (cc h) }
  Returned-bind {m = ok a} step = step a refl

pub Returned-ok : {A : Type 0} {P : A → Type 0} (a : A) → P a → Returned P (ok a)
Returned-ok {P} a p = record { has = λ b h. subst P (ok-inj h) p }
