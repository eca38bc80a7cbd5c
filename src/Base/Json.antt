-- ===== src/Base/Json.antt =====
-- The values that cross an interface as `Any`: those that JSON has. A number is a count.
use Prim.Native.Nat.{ℕ}
use Prim.Native.String.{String}
use mathlib.Core.Bool.{Bool}

mutual
  pub data Fields : Type 0 where
    no_fields : Fields
    with_field : String → Value → Fields → Fields

  pub data Items : Type 0 where
    no_items : Items
    with_item : Value → Items → Items

  pub data Value : Type 0 where
    obj : Fields → Value
    arr : Items → Value
    str : String → Value
    num : ℕ → Value
    flag : Bool → Value
    null : Value
