-- ===== src/Fingerprint.antt =====
-- crates/shapeport-core/src/fingerprint.rs. The digest (`sha2`, `hex`) and the quoting of a string in
-- JSON are parameters.
use shapeport.Prelude.{
  String, pos, Text, text_eq, codes, true, false, Ordering, Option, none, some, List, [], ◌∷◌, ◌++◌,
}
use shapeport.Functions.Args.{int_to_text}
use shapeport.Sorting.{sort_by}
use shapeport.Engine.Order.{text_cmp}
use shapeport.Schema.{TimeUnit, DataType, FieldList, Variants, Schema}
use shapeport.Json.{Json, Jsons, JsonMap, insert_json, text_array}

-- `format!("{unit:?}").to_ascii_lowercase()`
unfoldable pub unit_text : TimeUnit → Text
unit_text TimeUnit.second = codes "second"
unit_text TimeUnit.millisecond = codes "millisecond"
unit_text TimeUnit.microsecond = codes "microsecond"
unit_text TimeUnit.nanosecond = codes "nanosecond"

unfoldable pub tagged : String → JsonMap → Json
unfolding insert_json text_eq
tagged kind map = Json.object (insert_json (codes "kind") (Json.text (codes kind)) map)

-- A map of one more entry, before others.
abbrev pub and_entry : String → Json → JsonMap → JsonMap
and_entry key value rest = JsonMap.entry (codes key) value rest

unfoldable pub unit_tag : String → TimeUnit → Json
unfolding tagged unit_text
unit_tag kind unit = tagged kind (and_entry "unit" (Json.text (unit_text unit)) JsonMap.no_entries)

abbrev pub timezone_entry : Option Text → JsonMap
timezone_entry none = JsonMap.no_entries
timezone_entry (some zone) = and_entry "timezone" (Json.text zone) JsonMap.no_entries

abbrev pub semantic_entry : Option Text → JsonMap
semantic_entry none = JsonMap.no_entries
semantic_entry (some semantic) = and_entry "semantic" (Json.text semantic) JsonMap.no_entries

-- The entries of a field after its type.
unfoldable pub field_extras : List Text → Option Text → JsonMap
unfolding text_array
field_extras [] semantic = semantic_entry semantic
field_extras (alias ∷ aliases) semantic =
    and_entry "aliases" (Json.array (text_array (alias ∷ aliases))) (semantic_entry semantic)

unfoldable mutual
  unfolding tagged unit_tag unit_text field_extras

  pub type_to_json : DataType → Json
  type_to_json DataType.null = tagged "null" JsonMap.no_entries
  type_to_json DataType.bool = tagged "bool" JsonMap.no_entries
  type_to_json (DataType.int bits signed) = tagged "int" (
      and_entry "bits" (Json.number (pos bits))
        (and_entry "signed" (Json.bool signed) JsonMap.no_entries))
  type_to_json (DataType.float bits) =
      tagged "float" (and_entry "bits" (Json.number (pos bits)) JsonMap.no_entries)
  type_to_json (DataType.decimal precision scale) = tagged "decimal" (
      and_entry "precision" (Json.number (pos precision))
        (and_entry "scale" (Json.number scale) JsonMap.no_entries))
  type_to_json DataType.string = tagged "string" JsonMap.no_entries
  type_to_json DataType.binary = tagged "binary" JsonMap.no_entries
  type_to_json DataType.date = tagged "date" JsonMap.no_entries
  type_to_json (DataType.time unit) = unit_tag "time" unit
  type_to_json (DataType.timestamp unit zone) =
      tagged "timestamp" (and_entry "unit" (Json.text (unit_text unit)) (timezone_entry zone))
  type_to_json (DataType.duration unit) = unit_tag "duration" unit
  type_to_json (DataType.record_of fields) =
      tagged "record" (and_entry "fields" (Json.array (fields_to_json fields)) JsonMap.no_entries)
  type_to_json (DataType.list_of element nullable) = tagged "list" (
      and_entry "element" (type_to_json element)
        (and_entry "elementNullable" (Json.bool nullable) JsonMap.no_entries))
  type_to_json (DataType.map_of key item nullable) = tagged "map" (
      and_entry "key" (type_to_json key) (
        and_entry "value" (type_to_json item)
          (and_entry "valueNullable" (Json.bool nullable) JsonMap.no_entries)))
  type_to_json (DataType.union_of variants) =
      tagged "union"
        (and_entry "variants" (Json.array (variants_to_json variants)) JsonMap.no_entries)
  type_to_json DataType.unknown = tagged "unknown" JsonMap.no_entries
  type_to_json DataType.any = tagged "any" JsonMap.no_entries

  -- `field_to_json` of each field.
  pub fields_to_json : FieldList → Jsons
  fields_to_json FieldList.no_fields = Jsons.no_jsons
  fields_to_json (FieldList.field name ty nullable aliases semantic metadata rest) =
      Jsons.json
        (Json.object (
          and_entry "name" (Json.text name) (
            and_entry "nullable" (Json.bool nullable)
              (and_entry "type" (type_to_json ty) (field_extras aliases semantic)))))
        (fields_to_json rest)

  pub variants_to_json : Variants → Jsons
  variants_to_json Variants.no_variants = Jsons.no_jsons
  variants_to_json (Variants.variant ty rest) = Jsons.json (type_to_json ty) (variants_to_json rest)

-- `join(",")`
unfoldable pub join_commas : List Text → Text
join_commas [] = []
join_commas (part ∷ []) = part
join_commas (a ∷ b ∷ parts) = a ++ (b',' ∷ join_commas (b ∷ parts))

abbrev pub key_cmp : Text × Text → Text × Text → Ordering
key_cmp a b = text_cmp a.0 b.0

module _ (quote_json : Text → Text) where
  -- The parts of `encode_object`, in the order of the sorted keys.
  unfoldable pub object_parts : List (Text × Text) → List Text
  object_parts [] = []
  object_parts ((key, value) ∷ rest) = (quote_json key ++ (b':' ∷ value)) ∷ object_parts rest

  unfoldable mutual
    unfolding join_commas object_parts sort_by int_to_text

    pub canonical_json : Json → Text
    canonical_json Json.null = codes "null"
    canonical_json (Json.bool true) = codes "true"
    canonical_json (Json.bool false) = codes "false"
    canonical_json (Json.number n) = int_to_text n
    canonical_json (Json.text t) = quote_json t
    canonical_json (Json.array items) = b'[' ∷ (join_commas (canonical_items items) ++ b']' ∷ [])
    canonical_json (Json.object map) =
        b'{' ∷ (join_commas (object_parts (sort_by key_cmp (canonical_entries map))) ++ b'}' ∷ [])

    pub canonical_items : Jsons → List Text
    canonical_items Jsons.no_jsons = []
    canonical_items (Jsons.json v rest) = canonical_json v ∷ canonical_items rest

    -- Each key with its value's text.
    pub canonical_entries : JsonMap → List (Text × Text)
    canonical_entries JsonMap.no_entries = []
    canonical_entries (JsonMap.entry key v rest) = (key, canonical_json v) ∷ canonical_entries rest

  unfoldable pub schema_fingerprint : (Text → Text) → Schema → Text
  unfolding type_to_json canonical_json
  schema_fingerprint sha256_hex schema =
      codes "sha256:" ++ sha256_hex (canonical_json (type_to_json schema.root))
