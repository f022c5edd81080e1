-- ===== src/JsonSchema/Validate.antt =====
-- json_schema.rs: `validate_value`. The path in an error is part of its message and left out.
use shapeport.Prelude.{Bool, true, false, none, some}
use shapeport.Error
use shapeport.Error.{Result, ok, err, ◌>>◌}
use shapeport.Host.{Host}
use shapeport.Value.{Value, Items, Fields, no_items, item}
use shapeport.Schema.{DataType, FieldList, Variants, Schema, no_fields, field, no_variants, variant}

-- The early return of `validate_type` for null.
abbrev pub unless_null : Value → Result (Unit {0}) → Result (Unit {0})
unless_null Value.null checked = ok tt
unless_null _ checked = checked

-- The loop of `validate_list`.
unfoldable pub validate_items : (Value → Result (Unit {0})) → Items → Result (Unit {0})
validate_items check no_items = ok tt
validate_items check (item v rest) = check v >> validate_items check rest

-- A field that the object lacks.
unfoldable pub missing_field : Bool → Result (Unit {0})
missing_field true = ok tt
missing_field false = err (Error.target "missing_field")

-- `is_ok` in the loop of `validate_union`: the first match ends it.
unfoldable pub or_else : Result (Unit {0}) → Result (Unit {0}) → Result (Unit {0})
or_else (ok u) later = ok tt
or_else (err e) later = later

module _ (host : Host) where
  unfoldable mutual
    unfolding validate_items missing_field or_else

    -- The match of `validate_type`.
    pub validate_present : DataType → Value → Result (Unit {0})
    validate_present DataType.any v = ok tt
    validate_present DataType.unknown v = ok tt
    validate_present DataType.bool (Value.bool b) = ok tt
    validate_present (DataType.int bits signed) (Value.int n) = ok tt
    validate_present (DataType.int bits signed) (Value.uint n) = ok tt
    validate_present (DataType.float bits) (Value.float x) = ok tt
    validate_present (DataType.float bits) (Value.int n) = ok tt
    validate_present (DataType.float bits) (Value.uint n) = ok tt
    validate_present DataType.string (Value.string s) = ok tt
    validate_present DataType.string (Value.decimal d) = ok tt
    validate_present (DataType.decimal p s) (Value.string t) = ok tt
    validate_present (DataType.decimal p s) (Value.decimal d) = ok tt
    validate_present (DataType.record_of fs) (Value.object map) = validate_object fs map
    validate_present (DataType.list_of element nullable) (Value.array items) =
        validate_items (λ v. unless_null v (validate_present element v)) items
    validate_present (DataType.union_of vs) v = validate_union vs v
    validate_present _ _ = err (Error.target "type_mismatch")

    pub validate_object : FieldList → Fields → Result (Unit {0})
    validate_object no_fields map = ok tt
    validate_object (field name ty nullable aliases semantic metadata rest) map =
        (elim (host.get name map) [
          | none ↦ missing_field nullable
          | some v ↦ unless_null v (validate_present ty v)
        ])
        >> validate_object rest map

    pub validate_union : Variants → Value → Result (Unit {0})
    validate_union no_variants v = err (Error.target "type_mismatch")
    validate_union (variant ty rest) v =
        or_else (unless_null v (validate_present ty v)) (validate_union rest v)

  unfoldable pub validate_type : DataType → Value → Result (Unit {0})
  unfolding validate_present
  validate_type ty v = unless_null v (validate_present ty v)

  unfoldable pub validate_value : Schema → Value → Result (Unit {0})
  unfolding validate_type
  validate_value schema v = validate_type schema.root v
