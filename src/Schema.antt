-- ===== src/Schema.antt =====
-- crates/shapeport-core/src/schema.rs: the type language. `FieldList` is the `Vec<Field>` of a
-- record and `Variants` the `Vec<Type>` of a union. The free-form `metadata` of a field is read by the
-- derived `==` only: it is a text that two maps share exactly when `==` takes them for equal, and the
-- empty text for the empty map. The metadata of a schema is left out, since nothing modelled reads it.
pub mod Names
pub mod Compatible
use shapeport.Prelude.{ℕ, ℤ, Text, String, Bool, Option, some, none, List}
use shapeport.Error
use shapeport.Error.{Result, ok, err}

pub data TimeUnit : Type 0 where
  second millisecond microsecond nanosecond : TimeUnit

mutual
  pub data DataType : Type 0 where
    null bool string binary date unknown any : DataType
    int : ℕ → Bool → DataType
    float : ℕ → DataType
    decimal : ℕ → ℤ → DataType
    time duration : TimeUnit → DataType
    timestamp : TimeUnit → Option Text → DataType
    record_of : FieldList → DataType
    list_of : DataType → Bool → DataType
    map_of : DataType → DataType → Bool → DataType
    union_of : Variants → DataType

  pub data FieldList : Type 0 where
    no_fields : FieldList
    -- name, type, nullable, aliases, semantic, metadata
    field : Text → DataType → Bool → List Text → Option Text → Text → FieldList → FieldList

  pub data Variants : Type 0 where
    no_variants : Variants
    variant : DataType → Variants → Variants

pub record Schema : Type 0 where
  pub root : DataType

unfoldable pub as_record_fields : DataType → Option FieldList
as_record_fields (DataType.record_of fields) = some fields
as_record_fields _ = none

unfoldable pub require_record_fields : Schema → Result FieldList
unfolding as_record_fields
require_record_fields schema = elim (as_record_fields schema.root) [
  | none ↦ err (Error.schema "not_a_record")
  | some fields ↦ ok fields
]
