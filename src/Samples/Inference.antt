-- ===== src/Samples/Inference.antt =====
-- Schemas found in concrete records, and records checked against them.
use shapeport.Prelude.{◌≡◌, refl, pos, text_eq, [], ◌∷◌, none, true, All}
use shapeport.Error.{ok}
use shapeport.Host.{find_entry}
use shapeport.Value.{Value, Fields}
use shapeport.Schema.{DataType, FieldList, Schema}
use shapeport.Schema.Compatible.{type_eq, is_unknown}
use shapeport.Config.{InferMode}
use shapeport.JsonSchema.Validate.{validate_value}
use shapeport.JsonSchema.Conforms.{Admits}
use shapeport.JsonSchema.Meets.{Meets}
use shapeport.Formats.Infer.{
  type_of, infer_schema, update_field, update_existing_fields, unify_types, push_field, has_field,
  append_new_fields, unify_fields,
}
use shapeport.Formats.Inferred.{infer_schema-validate_value}
use shapeport.Samples.Machine.{machine, get}
use shapeport.Samples.Data.{id, qty}

-- {"id": 1}
abbrev one : Value
one = Value.object (Fields.field id (Value.int (pos 1)) Fields.no_fields)

-- {"id": null, "qty": true}
abbrev two : Value
two =
    Value.object (Fields.field id Value.null (Fields.field qty (Value.bool true) Fields.no_fields))

abbrev found : Schema
found = record {
  root = DataType.record_of (
      FieldList.field id (DataType.int 64 true) true [] none []
        (FieldList.field qty DataType.bool true [] none [] FieldList.no_fields));
}

found_runs : infer_schema machine (one ∷ two ∷ []) InferMode.conservative ≡ ok found
unfolding infer_schema update_field update_existing_fields unify_types push_field has_field
    append_new_fields unify_fields type_of text_eq get type_eq is_unknown
found_runs = refl

infer_schema-validate_value_example :
    All (λ v. validate_value machine found v ≡ ok tt) (one ∷ two ∷ [])
unfolding Admits type_of find_entry text_eq
infer_schema-validate_value_example =
    infer_schema-validate_value machine (one ∷ two ∷ []) InferMode.conservative found found_runs
      ((tt, refl, tt), ((tt, refl, (tt, refl, tt)), tt))
