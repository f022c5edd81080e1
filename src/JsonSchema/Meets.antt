-- ===== src/JsonSchema/Meets.antt =====
-- json_schema.rs: what the types of a schema mean, null being a value of a field or an element only if
-- it says so. Widths and signs of integers are left open.
use shapeport.Prelude.{◌≡◌, ◌⊎◌, Bool, true, none, some}
use shapeport.Host.{Host}
use shapeport.Value.{Value, Items, Fields, no_items, item}
use shapeport.Schema.{DataType, FieldList, Variants, no_fields, field, no_variants, variant}
use shapeport.JsonSchema.Conforms.{AllItems}

-- Null where that is allowed, or what the predicate holds of.
abbrev pub Allowed : Bool → Value → Type 0 → Type 0
Allowed nullable v P = ((nullable ≡ true) × (v ≡ Value.null)) ⊎ P

-- No null in a value.
unfoldable mutual
  pub NullFree : Value → Type 0
  NullFree Value.null = ⊥
  NullFree (Value.array items) = NullFreeItems items
  NullFree (Value.object map) = NullFreeFields map
  NullFree _ = Unit

  pub NullFreeItems : Items → Type 0
  NullFreeItems no_items = Unit
  NullFreeItems (item v rest) = NullFree v × NullFreeItems rest

  pub NullFreeFields : Fields → Type 0
  NullFreeFields Fields.no_fields = Unit
  NullFreeFields (Fields.field k v rest) = NullFree v × NullFreeFields rest

-- A null somewhere in a value.
unfoldable mutual
  pub HasNull : Value → Type 0
  HasNull Value.null = Unit
  HasNull (Value.array items) = HasNullItem items
  HasNull (Value.object map) = HasNullField map
  HasNull _ = ⊥

  pub HasNullItem : Items → Type 0
  HasNullItem no_items = ⊥
  HasNullItem (item v rest) = HasNull v ⊎ HasNullItem rest

  pub HasNullField : Fields → Type 0
  HasNullField Fields.no_fields = ⊥
  HasNullField (Fields.field k v rest) = HasNull v ⊎ HasNullField rest

module _ (host : Host) where
  unfoldable mutual
    -- What a type means: an object has every field that may not be null, a field that is there and an
    -- element of a list is null only where it may be, and a value of a union meets a variant. A float is
    -- any number, a decimal also its text, a string also a decimal. As in the code, nothing meets the
    -- types that a JSON value has no form for: binary, date, time, timestamp, duration and map.
    pub Meets : DataType → Value → Type 0
    Meets DataType.any v = Unit
    Meets DataType.unknown v = Unit
    Meets DataType.null Value.null = Unit
    Meets DataType.bool (Value.bool b) = Unit
    Meets (DataType.int bits signed) (Value.int n) = Unit
    Meets (DataType.int bits signed) (Value.uint n) = Unit
    Meets (DataType.float bits) (Value.float x) = Unit
    Meets (DataType.float bits) (Value.int n) = Unit
    Meets (DataType.float bits) (Value.uint n) = Unit
    Meets DataType.string (Value.string s) = Unit
    Meets DataType.string (Value.decimal d) = Unit
    Meets (DataType.decimal p s) (Value.string t) = Unit
    Meets (DataType.decimal p s) (Value.decimal d) = Unit
    Meets (DataType.record_of fs) (Value.object map) = MeetsFields fs map
    Meets (DataType.list_of element nullable) (Value.array items) =
        AllItems (λ v. Allowed nullable v (Meets element v)) items
    Meets (DataType.union_of vs) v = MeetsAny vs v
    Meets _ _ = ⊥

    pub MeetsFields : FieldList → Fields → Type 0
    MeetsFields no_fields map = Unit
    MeetsFields (field name ty nullable aliases semantic metadata rest) map =
        (elim (host.get name map) [
          | none ↦ nullable ≡ true
          | some v ↦ Allowed nullable v (Meets ty v)
        ])
        × MeetsFields rest map

    pub MeetsAny : Variants → Value → Type 0
    MeetsAny no_variants v = ⊥
    MeetsAny (variant ty rest) v = Meets ty v ⊎ MeetsAny rest v
