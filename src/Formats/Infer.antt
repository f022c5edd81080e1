-- ===== src/Formats/Infer.antt =====
-- formats.rs: `infer_schema`. The vector of fields that the source mutates is passed on.
use shapeport.Prelude.{
  pos, Text, text_eq, Bool, true, false, ◌||◌, Option, none, some, List, [], ◌∷◌, if◌then◌else◌,
}
use shapeport.Error
use shapeport.Error.{Result, ok, err, ◌>>=◌}
use shapeport.Host.{Host}
use shapeport.Value.{Value, Items, Fields, no_items, item, is_null}
use shapeport.Schema.{DataType, FieldList, Schema, no_fields, field, no_variants, variant}
use shapeport.Schema.Compatible.{type_eq, is_unknown}
use shapeport.Config.{InferMode}

-- `Field::new`, before other fields.
abbrev pub new_field : Text → DataType → Bool → FieldList → FieldList
new_field name ty nullable rest = field name ty nullable [] none [] rest

unfoldable mutual
  unfolding is_null

  pub type_of : Value → DataType
  type_of Value.null = DataType.unknown
  type_of (Value.bool b) = DataType.bool
  type_of (Value.int n) = DataType.int 64 true
  type_of (Value.uint n) = DataType.int 64 false
  type_of (Value.float x) = DataType.float 64
  type_of (Value.decimal d) = DataType.decimal 38 (pos 10)
  type_of (Value.array items) = DataType.list_of (first_type items) true
  type_of (Value.object map) = DataType.record_of (types_of map)
  type_of _ = DataType.string

  -- `items.first().map_or(Type::Any, type_of)`
  pub first_type : Items → DataType
  first_type no_items = DataType.any
  first_type (item v rest) = type_of v

  pub types_of : Fields → FieldList
  types_of Fields.no_fields = no_fields
  types_of (Fields.field name v rest) = new_field name (type_of v) (is_null v) (types_of rest)

unfoldable pub is_conservative : InferMode → Bool
is_conservative InferMode.conservative = true
is_conservative _ = false

unfoldable pub unify_types : DataType → DataType → InferMode → Result DataType
unfolding is_conservative
unify_types left right infer =
    if is_unknown left
    then ok right
    else if is_unknown right || type_eq left right
    then ok left
    else if is_conservative infer
    then err (Error.schema "type_conflict")
    else ok (DataType.union_of (variant left (variant right no_variants)))

-- Whether a field has that name.
unfoldable pub has_field : Text → FieldList → Bool
has_field name no_fields = false
has_field name (field n ty nullable aliases semantic metadata rest) =
    text_eq n name || has_field name rest

-- `fields.push` at the end.
unfoldable pub push_field : Text → DataType → FieldList → FieldList
push_field name ty no_fields = new_field name ty true no_fields
push_field name ty (field n t nullable aliases semantic metadata rest) =
    field n t nullable aliases semantic metadata (push_field name ty rest)

unfoldable pub append_new_fields : FieldList → Fields → FieldList
unfolding has_field push_field
append_new_fields fs Fields.no_fields = fs
append_new_fields fs (Fields.field name v rest) =
    append_new_fields (if has_field name fs then fs else push_field name (type_of v) fs) rest

module _ (host : Host) where
  -- The turn of `update_existing_fields` for one field.
  unfoldable pub update_field :
      DataType → Bool → Option Value → InferMode → Result (DataType × Bool)
  update_field ty nullable none infer = ok (ty, true)
  update_field ty nullable (some v) infer = do
    t ← unify_types ty (type_of v) infer
    ok (t, (if is_null v then true else nullable))

  unfoldable pub update_existing_fields : FieldList → Fields → InferMode → Result FieldList
  unfolding update_field
  update_existing_fields no_fields object infer = ok no_fields
  update_existing_fields (field name ty nullable aliases semantic metadata rest) object infer = do
    (t, b) ← update_field ty nullable (host.get name object) infer
    later ← update_existing_fields rest object infer
    ok (field name t b aliases semantic metadata later)

  -- The loop of `unify_fields`: a record that is no object is skipped.
  unfoldable pub unify_fields : FieldList → List Value → InferMode → Result FieldList
  unfolding update_existing_fields append_new_fields
  unify_fields fs [] infer = ok fs
  unify_fields fs (Value.object object ∷ rest) infer = do
    updated ← update_existing_fields fs object infer
    unify_fields (append_new_fields updated object) rest infer
  unify_fields fs (_ ∷ rest) infer = unify_fields fs rest infer

  unfoldable pub infer_schema : List Value → InferMode → Result Schema
  unfolding unify_fields types_of
  infer_schema (Value.object first ∷ rest) infer = do
    fs ← unify_fields (types_of first) rest infer
    ok (record { root = DataType.record_of fs })
  infer_schema _ infer = ok (record { root = DataType.record_of no_fields })
