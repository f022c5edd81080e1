-- ===== src/JsonSchema/Emit.antt =====
-- json_schema.rs: `schema_to_json_schema`.
use shapeport.Prelude.{String, Text, codes, List, [], ◌∷◌, if◌then◌else◌}
use shapeport.Schema.{DataType, FieldList, Variants, Schema}
use shapeport.Json.{Json, Jsons, JsonMap, insert_json, text_array}

unfoldable pub json_type : String → Json
json_type name =
    Json.object (JsonMap.entry (codes "type") (Json.text (codes name)) JsonMap.no_entries)

-- The names of the fields that may not be null.
unfoldable pub required_fields : FieldList → List Text
required_fields FieldList.no_fields = []
required_fields (FieldList.field name ty nullable aliases semantic metadata rest) =
    let later = required_fields rest in if nullable then later else name ∷ later

abbrev pub required_entry : List Text → JsonMap
required_entry [] = JsonMap.no_entries
required_entry (name ∷ names) =
    JsonMap.entry (codes "required") (Json.array (text_array (name ∷ names))) JsonMap.no_entries

unfoldable mutual
  unfolding json_type required_fields text_array insert_json

  pub type_to_json_schema : DataType → Json
  type_to_json_schema DataType.null = json_type "null"
  type_to_json_schema DataType.bool = json_type "boolean"
  type_to_json_schema (DataType.int bits signed) = json_type "integer"
  type_to_json_schema (DataType.float bits) = json_type "number"
  type_to_json_schema (DataType.decimal precision scale) = json_type "string"
  type_to_json_schema DataType.string = json_type "string"
  type_to_json_schema DataType.date = json_type "string"
  type_to_json_schema (DataType.timestamp unit timezone) = json_type "string"
  type_to_json_schema DataType.binary = json_type "string"
  type_to_json_schema (DataType.record_of fields) = Json.object (
      JsonMap.entry (codes "type") (Json.text (codes "object")) (
        JsonMap.entry (codes "properties") (Json.object (properties_onto fields JsonMap.no_entries))
          (required_entry (required_fields fields))))
  type_to_json_schema (DataType.list_of element nullable) = Json.object (
      JsonMap.entry (codes "type") (Json.text (codes "array"))
        (JsonMap.entry (codes "items") (type_to_json_schema element) JsonMap.no_entries))
  type_to_json_schema (DataType.union_of variants) =
      Json.object
        (JsonMap.entry (codes "anyOf") (Json.array (variant_schemas variants)) JsonMap.no_entries)
  type_to_json_schema _ = json_type "object"

  -- The loop of `record_schema` over the properties.
  pub properties_onto : FieldList → JsonMap → JsonMap
  properties_onto FieldList.no_fields props = props
  properties_onto (FieldList.field name ty nullable aliases semantic metadata rest) props =
      properties_onto rest (insert_json name (type_to_json_schema ty) props)

  pub variant_schemas : Variants → Jsons
  variant_schemas Variants.no_variants = Jsons.no_jsons
  variant_schemas (Variants.variant ty rest) =
      Jsons.json (type_to_json_schema ty) (variant_schemas rest)

unfoldable pub schema_to_json_schema : Schema → Json
unfolding type_to_json_schema
schema_to_json_schema schema = type_to_json_schema schema.root
