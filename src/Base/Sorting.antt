-- ===== src/Base/Sorting.antt =====
-- Python's `sorted` on texts: insertion sort by code points.
use Prim.Native.Nat.{Ordering}
use Prim.Native.String.{String, compare}
use mathlib.Core.Path.{◌≡◌, refl, ap, ◌∙◌}
use mathlib.Core.Bool.{Bool, true, false, ◌||◌}
use mathlib.Core.List.{List, [], ◌∷◌}
use native.Mathlib.Omega.{arith}
use text.Mathlib.Text.{◌==◌}
use lbe_ci_validation.Base.Tests.{if◌then◌else◌}
use lbe_ci_validation.Base.Text.{contains}

abbrev pub le_text : String → String → Bool
le_text s t = elim (compare s t) [ Ordering.gt ↦ false | _ ↦ true ]

-- `t < s` on texts
abbrev pub is_later : String → String → Bool
is_later s t = elim (compare s t) [ Ordering.gt ↦ true | _ ↦ false ]

insert_sorted : String → List String → List String
insert_sorted s [] = s ∷ []
insert_sorted s (t ∷ ts) = if le_text s t then s ∷ t ∷ ts else t ∷ insert_sorted s ts

unfoldable pub sorted : List String → List String
unfolding insert_sorted
sorted [] = []
sorted (s ∷ ss) = insert_sorted s (sorted ss)

contains-insert_sorted :
    (a s : String) (ts : List String) → contains a (insert_sorted s ts) ≡ (s == a || contains a ts)
unfolding insert_sorted
contains-insert_sorted a s [] = refl
contains-insert_sorted a s (t ∷ ts) = ground (arith, contains-insert_sorted a s ts)

pub contains-sorted : (a : String) (ss : List String) → contains a (sorted ss) ≡ contains a ss
unfolding sorted
contains-sorted a [] = refl
contains-sorted a (s ∷ ss) =
    contains-insert_sorted a s (sorted ss) ∙ ap (λ b. s == a || b) (contains-sorted a ss)
