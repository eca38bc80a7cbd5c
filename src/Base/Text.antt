-- ===== src/Base/Text.antt =====
-- Python's `str`: whitespace, `strip`, membership in a sequence of texts, order.
use Prim.Native.Char.{Char, code}
use Prim.Native.String.{String, ◌++◌ as concat}
use mathlib.Core.Path.{◌≡◌, refl, sym, ap, subst, ◌∙◌}
use mathlib.Core.Logic.{inl, inr}
use mathlib.Core.Bool.{Bool, true, false, not, ◌&&◌, ◌||◌}
use mathlib.Core.List.{List, [], ◌∷◌}
use text.Mathlib.Text.{◌==◌}
use text.Mathlib.TextEquality.{eq_iff}
use text.Mathlib.TextPositions.{eq_refl}
use Prim.Native.String.append.{nil as concat_nil, cons as concat_cons}
use native.Mathlib.Omega.{arith}
use lbe_ci_validation.Base.Tests.{Bool-cases, if◌then◌else◌, leb, nat_eq}

-- `str.isspace` of one character.
unfoldable pub is_space : Char → Bool
is_space c =
    let n = code c in
    (leb 9 n && leb n 13)
    || (leb 28 n && leb n 32)
    || nat_eq n 0x85
    || nat_eq n 0xa0
    || nat_eq n 0x1680
    || (leb 0x2000 n && leb n 0x200a)
    || nat_eq n 0x2028
    || nat_eq n 0x2029
    || nat_eq n 0x202f
    || nat_eq n 0x205f
    || nat_eq n 0x3000

pub lstrip : String → String
lstrip String.[] = String.[]
lstrip (String.◌∷◌ c s) = if is_space c then lstrip s else String.◌∷◌ c s

-- A character is kept if it is no space or if something is kept behind it.
keep : Char → String → String
keep c String.[] = if is_space c then String.[] else String.◌∷◌ c String.[]
keep c (String.◌∷◌ d s) = String.◌∷◌ c (String.◌∷◌ d s)

pub rstrip : String → String
unfolding keep
rstrip String.[] = String.[]
rstrip (String.◌∷◌ c s) = keep c (rstrip s)

unfoldable pub strip : String → String
unfolding lstrip rstrip keep is_space
strip s = rstrip (lstrip s)

abbrev pub Each {ℓ} : (String → Type ℓ) → List String → Type ℓ
Each P [] = Unit
Each P (x ∷ xs) = P x × Each P xs

-- `not s.strip()`.
abbrev pub is_blank : String → Bool
is_blank s = strip s == ""

-- `name in values`.
abbrev pub contains : String → List String → Bool
contains name [] = false
contains name (x ∷ xs) = x == name || contains name xs

-- To prove a statement about every text from the texts of a table and one that is none of them.
pub by_keys {ℓ} :
    (P : String → Type ℓ) (keys : List String)
    → Each P keys
    → ((name : String) → Each (λ key. (key == name) ≡ false) keys → P name)
    → (name : String) → P name
by_keys P [] each other name = other name tt
by_keys P (key ∷ keys) each other name = elim (Bool-cases (key == name)) [
  | inl e ↦ subst P ((eq_iff key name).0 e) each.0
  | inr e ↦ by_keys P keys each.1 (λ n h. other' n h) name
]
  where
    other' : (n : String) → Each (λ k. (k == n) ≡ false) keys → P n
    other' n h = elim (Bool-cases (key == n)) [
      | inl e ↦ subst P ((eq_iff key n).0 e) each.0
      | inr e ↦ other n (e, h)
    ]

keep_kept : (c : Char) (t : String) → is_space c ≡ false → lstrip (keep c t) ≡ keep c t
unfolding lstrip keep
keep_kept c String.[] h = rw h (rw h)
keep_kept c (String.◌∷◌ d t) h = rw h

lstrip-strip : (s : String) → lstrip (rstrip (lstrip s)) ≡ rstrip (lstrip s)
unfolding lstrip rstrip
lstrip-strip String.[] = refl
lstrip-strip (String.◌∷◌ c s) = elim (Bool-cases (is_space c)) [
  | inl e ↦ rw e (lstrip-strip s)
  | inr e ↦ rw e (keep_kept c (rstrip s) e)
]

rstrip-keep : (c : Char) (t : String) → rstrip t ≡ t → rstrip (keep c t) ≡ keep c t
unfolding rstrip
rstrip-keep c String.[] h = elim (Bool-cases (is_space c)) [
  | inl e ↦ rw (e, keep)
  | inr e ↦ rw (e, keep) (rw (e, keep))
]
rstrip-keep c (String.◌∷◌ d t) h = ap (keep c) h

rstrip_idem : (s : String) → rstrip (rstrip s) ≡ rstrip s
unfolding rstrip
rstrip_idem String.[] = refl
rstrip_idem (String.◌∷◌ c s) = rstrip-keep c (rstrip s) (rstrip_idem s)

-- Stripping a stripped text changes nothing.
pub strip_idem : (s : String) → strip (strip s) ≡ strip s
unfolding strip
strip_idem s = ap rstrip (lstrip-strip s) ∙ rstrip_idem (lstrip s)

-- No character of the text is a space.
unfoldable pub is_solid : String → Bool
is_solid String.[] = true
is_solid (String.◌∷◌ c s) = not (is_space c) && is_solid s

both_true : (a b : Bool) → (not a && b) ≡ true → (a ≡ false) × (b ≡ true)
both_true a b h = ground (arith, h)

keep_solid : (c : Char) (t : String) → is_space c ≡ false → keep c t ≡ String.◌∷◌ c t
unfolding keep
keep_solid c String.[] h = rw h refl
keep_solid c (String.◌∷◌ d t) h = refl

nil-append : (t : String) → concat "" t ≡ t
nil-append t = λ i. concat_nil t i

cons-append : (c : Char) (s t : String) → concat (String.◌∷◌ c s) t ≡ String.◌∷◌ c (concat s t)
cons-append c s t = λ i. concat_cons c s t i

rstrip-concat : (p t : String) → is_solid p ≡ true → rstrip t ≡ t → rstrip (concat p t) ≡ concat p t
unfolding is_solid rstrip
rstrip-concat String.[] t solid h = ap rstrip (nil-append t) ∙ h ∙ sym (nil-append t)
rstrip-concat (String.◌∷◌ c p) t solid h =
    ap rstrip (cons-append c p t)
    ∙ ap (keep c) (rstrip-concat p t (both_true (is_space c) (is_solid p) solid).1 h)
    ∙ keep_solid c (concat p t) (both_true (is_space c) (is_solid p) solid).0
    ∙ sym (cons-append c p t)

-- A stripped text stays stripped behind a text without spaces.
pub strip-concat :
    (c : Char) (p t : String)
    → is_solid (String.◌∷◌ c p) ≡ true
    → strip t ≡ t
    → strip (concat (String.◌∷◌ c p) t) ≡ concat (String.◌∷◌ c p) t
unfolding strip lstrip is_solid
strip-concat c p t solid h =
    ap (λ u. rstrip (lstrip u)) (cons-append c p t)
    ∙ rw (both_true (is_space c) (is_solid p) solid).0 (
        subst (λ u. rstrip u ≡ u) (cons-append c p t)
          (rstrip-concat (String.◌∷◌ c p) t solid (ap rstrip (sym h) ∙ rstrip_idem (lstrip t) ∙ h)))
    ∙ sym (cons-append c p t)

abbrev slash : Char
slash = "/"

-- `.replace("\\", "/")`
unfoldable pub forward_slashes : String → String
forward_slashes String.[] = String.[]
forward_slashes (String.◌∷◌ c s) =
    String.◌∷◌ (if nat_eq (code c) 92 then slash else c) (forward_slashes s)

-- Equality of lists of texts.
unfoldable pub texts_eq : List String → List String → Bool
texts_eq [] [] = true
texts_eq (s ∷ ss) (t ∷ ts) = s == t && texts_eq ss ts
texts_eq _ _ = false

pub texts_eq-true : (ss ts : List String) → texts_eq ss ts ≡ true → ss ≡ ts
unfolding texts_eq
texts_eq-true [] [] h = refl
texts_eq-true (s ∷ ss) (t ∷ ts) h = ground (arith, h, eq_iff s t, texts_eq-true ss ts)
texts_eq-true [] (t ∷ ts) h = absurd (cc h)
texts_eq-true (s ∷ ss) [] h = absurd (cc h)

pub texts_eq_refl : (ss : List String) → texts_eq ss ss ≡ true
unfolding texts_eq
texts_eq_refl [] = refl
texts_eq_refl (s ∷ ss) = rw (eq_refl s) (texts_eq_refl ss)
