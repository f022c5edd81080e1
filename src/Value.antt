-- ===== src/Value.antt =====
-- crates/shapeport-core/src/value.rs: the document value tree. A Rust string that the program walks
-- is a `Text`; an `f64` is its 64-bit pattern. `Items` is the `Vec<Value>` of an array, `Fields` the
-- `IndexMap<String, Value>` of an object, in insertion order.
pub mod Decimal
pub mod Equality
use shapeport.Prelude.{ℕ, ℤ, Text, Bool, true, false, Option, none, some, List}

pub record DecimalValue : Type 0 where
  pub coefficient : Text
  pub scale : ℤ

mutual
  pub data Value : Type 0 where
    null : Value
    bool : Bool → Value
    int : ℤ → Value
    uint : ℕ → Value
    float : ℕ → Value
    decimal : DecimalValue → Value
    string : Text → Value
    binary : List ℕ → Value
    date : ℤ → Value
    timestamp_micros : ℤ → Value
    array : Items → Value
    object : Fields → Value

  pub data Fields : Type 0 where
    no_fields : Fields
    field : Text → Value → Fields → Fields

  pub data Items : Type 0 where
    no_items : Items
    item : Value → Items → Items

unfoldable pub is_null : Value → Bool
is_null Value.null = true
is_null _ = false

unfoldable pub as_object : Value → Option Fields
as_object (Value.object map) = some map
as_object _ = none

-- Null and false are false; all else is true.
unfoldable pub is_truthy : Value → Bool
is_truthy Value.null = false
is_truthy (Value.bool false) = false
is_truthy _ = true
