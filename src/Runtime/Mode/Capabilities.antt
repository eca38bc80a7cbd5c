-- ===== src/Runtime/Mode/Capabilities.antt =====
-- The capabilities that mode_controller.py derives from the allowed behaviors.
use lbe_ci_validation.Base.{
  Bool, Bool-cases, List, String, [], arith, contains, eq_iff, false, filter, inl, inr, not, refl,
  ◌&&◌, ◌++◌, ◌||◌, ◌∷◌, ◌≡◌,
}
use lbe_ci_validation.Runtime.Mode.{
  RuntimeMode, add_new, caps_of, coding, collect_capabilities, is_coding, resolve_capabilities,
  write_capabilities,
}

-- Some allowed behavior lists the capability in the table.
abbrev pub granted : String → List String → Bool
granted cap [] = false
granted cap (behavior ∷ rest) = contains cap (caps_of behavior) || granted cap rest

contains-append :
    (a : String) (xs ys : List String) → contains a (xs ++ ys) ≡ (contains a xs || contains a ys)
contains-append a [] ys = refl
contains-append a (x ∷ xs) ys = ground (arith, contains-append a xs ys)

contains-add_new :
    (cap : String) (acc caps : List String)
    → contains cap (add_new acc caps) ≡ (contains cap acc || contains cap caps)
unfolding add_new
contains-add_new cap acc [] = ground arith
contains-add_new cap acc (c ∷ caps) = elim (Bool-cases (contains c acc)) [
  | inl old ↦ rw old (ground (arith, contains-add_new cap acc caps, eq_iff c cap, old))
  | inr new ↦
      rw new (
        ground (arith, contains-add_new cap (acc ++ c ∷ []) caps, contains-append cap acc (c ∷ [])))
]

contains-collect :
    (cap : String) (acc behaviors : List String)
    → contains cap (collect_capabilities acc behaviors)
      ≡ (contains cap acc || granted cap behaviors)
unfolding collect_capabilities
contains-collect cap acc [] = ground arith
contains-collect cap acc (b ∷ bs) =
    ground (
      arith,
      contains-collect cap (add_new acc (caps_of b)) bs,
      contains-add_new cap acc (caps_of b),
    )

contains-filter :
    (p : String → Bool) (a : String) (xs : List String)
    → contains a (filter p xs) ≡ (contains a xs && p a)
contains-filter p a [] = refl
contains-filter p a (x ∷ xs) = ground (arith, contains-filter p a xs, eq_iff x a)

-- A capability is derived exactly if an allowed behavior grants it and, outside coding mode, it is
-- no write capability.
pub contains-resolve_capabilities :
    (mode : RuntimeMode) (cap : String) (behaviors : List String)
    → contains cap (resolve_capabilities mode behaviors)
      ≡ (granted cap behaviors && (is_coding mode || not (contains cap write_capabilities)))
unfolding resolve_capabilities
contains-resolve_capabilities coding cap bs = ground (arith, contains-collect cap [] bs)
contains-resolve_capabilities _ cap bs = ground (
  arith,
  contains-collect cap [] bs,
  contains-filter (λ c. not (contains c write_capabilities)) cap (collect_capabilities [] bs),
)
