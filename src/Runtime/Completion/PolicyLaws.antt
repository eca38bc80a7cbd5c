-- ===== src/Runtime/Completion/PolicyLaws.antt =====
-- A catalog that was built finds each of its policies under the policy's own mapping.

use lbe_ci_validation.Base.{
  Bool, List, String, [], any, append-nil, append_assoc, arith, eq_refl, false, ok, refl, some,
  strip, true, ◌++◌, ◌==◌, ◌∙◌, ◌∷◌, ◌≡◌,
}
use lbe_ci_validation.Runtime.Completion.Policy.{
  TaskCompletionPolicy, build, find_policy, first, make_catalog, maps, same_runtime_mode,
}
-- A policy that was accepted has a new identifier and a new mapping.
use lbe_ci_validation.Runtime.Mode.{RuntimeMode, audit, coding, investigation}

build-cons :
    (cat : List TaskCompletionPolicy) (p : TaskCompletionPolicy) (ps : List TaskCompletionPolicy)
    {out : List TaskCompletionPolicy}
    → build cat (p ∷ ps) ≡ ok out
    → (any (λ q. q.policy_id == p.policy_id) cat ≡ false)
      × (any (maps p.operation_id p.task_class p.applicable_mode) cat ≡ false)
      × (build (cat ++ p ∷ []) ps ≡ ok out)
unfolding build
build-cons cat p ps h = ground arith

build-eq :
    (cat ps : List TaskCompletionPolicy) {out : List TaskCompletionPolicy}
    → build cat ps ≡ ok out
    → out ≡ cat ++ ps
unfolding build
build-eq cat [] h = ground (arith, append-nil cat, h)
build-eq cat (p ∷ ps) h =
    build-eq (cat ++ p ∷ []) ps (build-cons cat p ps h).2 ∙ append_assoc cat (p ∷ []) ps

abbrev clashes : TaskCompletionPolicy → TaskCompletionPolicy → Bool
clashes p q = maps p.operation_id p.task_class p.applicable_mode q

build_checks :
    (before : List TaskCompletionPolicy) (p : TaskCompletionPolicy)
    (after cat : List TaskCompletionPolicy) {out : List TaskCompletionPolicy}
    → build cat (before ++ p ∷ after) ≡ ok out
    → any (clashes p) (cat ++ before) ≡ false
unfolding build
build_checks [] p after cat h = rw append-nil (build-cons cat p after h).1
build_checks (q ∷ before) p after cat h =
    rw (← append_assoc cat (q ∷ []) before)
      (build_checks before p after (cat ++ q ∷ []) (build-cons cat q (before ++ p ∷ after) h).2)

first-append :
    (test : TaskCompletionPolicy → Bool) (before : List TaskCompletionPolicy)
    (p : TaskCompletionPolicy) (after : List TaskCompletionPolicy)
    → any test before ≡ false
    → test p ≡ true
    → first test (before ++ p ∷ after) ≡ some p
unfolding first
first-append test [] p after none_before hit = rw hit
first-append test (q ∷ before) p after none_before hit =
    ground (arith, first-append test before p after)

same_runtime_mode_refl : (m : RuntimeMode) → same_runtime_mode m m ≡ true
unfolding maps
same_runtime_mode_refl coding = refl
same_runtime_mode_refl audit = refl
same_runtime_mode_refl investigation = refl

clashes_self : (p : TaskCompletionPolicy) → clashes p p ≡ true
unfolding maps
clashes_self p =
    ground (
      arith,
      eq_refl p.operation_id,
      eq_refl p.task_class,
      same_runtime_mode_refl p.applicable_mode,
    )

-- Every policy of a catalog that was built, wherever it stands, is found under its own mapping, and
-- the texts of a request are stripped first.
pub find-make_catalog :
    (before : List TaskCompletionPolicy) (p : TaskCompletionPolicy)
    (after catalog : List TaskCompletionPolicy) (operation_id task_class : String)
    → make_catalog (before ++ p ∷ after) ≡ ok catalog
    → strip operation_id ≡ p.operation_id
    → strip task_class ≡ p.task_class
    → find_policy operation_id task_class p.applicable_mode catalog ≡ some p
unfolding make_catalog find_policy
find-make_catalog before p after catalog operation_id task_class built e e' =
    let same : catalog ≡ before ++ p ∷ after = build-eq [] (before ++ p ∷ after) built in
    rw (same, e, e')
      (first-append (clashes p) before p after (build_checks before p after [] built)
        (clashes_self p))
