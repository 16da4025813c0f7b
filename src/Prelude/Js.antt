-- ===== src/Prelude/Js.antt =====
-- JavaScript values as JSON delivers them, with the reads that the program makes of them.
use Prim.Native.Nat.{ℕ, zero, suc}
use Prim.Native.String.{String}
use mathlib.Core.Bool.{Bool, true, false, not}
use text.Mathlib.Text.{◌==◌ as str_eq}
use agentunited.Prelude.Tests.{if◌then◌else◌}

-- Objects and arrays hold their parts in lists of their own.
mutual
  pub data Fields : Type 0 where
    no_fields : Fields
    field : String → Value → Fields → Fields

  pub data Items : Type 0 where
    empty_items : Items
    item : Value → Items → Items

  pub data Value : Type 0 where
    obj : Fields → Value
    arr : Items → Value
    str : String → Value
    num : ℕ → Value
    bool : Bool → Value
    undefined null : Value

-- "", 0, false, null and undefined are falsy.
abbrev pub truthy : Value → Bool
truthy undefined = false
truthy null = false
truthy (bool b) = b
truthy (num zero) = false
truthy (num (suc n)) = true
truthy (str s) = not (str_eq s "")
truthy (arr xs) = true
truthy (obj fs) = true

-- a || b.
infixr 30 ◌or_else◌
abbrev pub ◌or_else◌ : Value → Value → Value
a or_else b = if truthy a then a else b

abbrev pub field_of : String → Fields → Value
field_of k no_fields = undefined
field_of k (field j v fs) = if str_eq j k then v else field_of k fs

-- v?.k, and v.k where v is neither null nor undefined. A key that the value lacks is undefined.
abbrev pub get : String → Value → Value
get k (obj fs) = field_of k fs
get k _ = undefined

-- v === s for a text s.
abbrev pub is_text : String → Value → Bool
is_text s (str t) = str_eq t s
is_text s _ = false
