-- ===== src/Engine/Access.antt =====
-- engine.rs: reading and writing the fields of a record.
use shapeport.Prelude.{ℕ, zero, suc, Text, Option, none, some, List, [], ◌∷◌}
use shapeport.Error
use shapeport.Error.{Error, Result, ok, err, ◌>>=◌}
use shapeport.Host.{Host}
use shapeport.Paths.{PathSegment, FieldPath, field, index, simple_name}
use shapeport.Value.{Value, Items, no_items, item}

-- `items.get(i)`
unfoldable pub get_item : ℕ → Items → Option Value
get_item i no_items = none
get_item zero (item v rest) = some v
get_item (suc i) (item v rest) = get_item i rest

unfoldable pub value_or_null : Option Value → Value
value_or_null none = Value.null
value_or_null (some v) = v

module _ (host : Host) where
  -- One step of the loop of `read_path`; `none` is its early return.
  unfoldable pub read_segment : PathSegment → Value → Option Value
  unfolding get_item value_or_null
  read_segment (field name) (Value.object map) = some (value_or_null (host.get name map))
  read_segment (index i) (Value.array items) = some (value_or_null (get_item i items))
  read_segment _ _ = none

  unfoldable pub read_segments : Value → List PathSegment → Value
  unfolding read_segment
  read_segments current [] = current
  read_segments current (segment ∷ rest) = elim (read_segment segment current) [
    | none ↦ Value.null
    | some v ↦ read_segments v rest
  ]

  unfoldable pub read_path : Value → FieldPath → Result Value
  unfolding read_segments
  read_path record_value path = ok (read_segments record_value path.segments)

  unfoldable pub insert_field : Value → Text → Value → Result Value
  insert_field (Value.object map) name value = ok (Value.object (host.insert name value map))
  insert_field _ name value = err (Error.transform "not_an_object")

  unfoldable pub write_simple : Value → FieldPath → Value → Result Value
  unfolding simple_name
  write_simple record_value path value = elim (simple_name path) [
    | none ↦ err (Error.plan "cast_path")
    | some name ↦ insert_field record_value name value
  ]
