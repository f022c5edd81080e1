-- ===== src/Samples/Served.antt =====
-- The server's answers, and delimited text that is decoded and its schema found.
use shapeport.Prelude.{
  pos, negsuc, arith, Text, text_eq, codes, ◌⊎◌, ◌↔◌, ◌≡◌, ◌++◌, refl, Bool, true, false, All,
  is_digit, value, none, some, [], ◌∷◌,
}
use shapeport.Error.{ok}
use shapeport.Value.{Value, Fields}
use shapeport.Schema.{DataType, FieldList, Schema}
use shapeport.Schema.Compatible.{type_eq, is_unknown, DataType-discrete}
use shapeport.Engine.Cast.{parse_i64}
use shapeport.Config.{InferMode, RuntimeConfig}
use shapeport.JsonSchema.Validate.{validate_value}
use shapeport.Formats.{FormatId}
use shapeport.Formats.Cells.{
  DecodeOptions, has_leading_zero_numeric, conservative_cell, infer_cell, cell_text,
}
use shapeport.Formats.Integers.{infer_cell-cell_text}
use shapeport.Host.{has_key}
use shapeport.Functions.Args.{int_to_text}
use shapeport.Formats.Codec.{decode_row, decode_rows, decode_delimited}
use shapeport.Formats.Infer.{
  type_of, update_field, update_existing_fields, unify_types, push_field, has_field,
  append_new_fields, unify_fields, infer_schema,
}
use shapeport.Formats.Decoded.{decode_delimited-infer_schema}
use shapeport.App.Requests.{TransformResult}
use shapeport.Mcp.{DataOut, Payload, is_binary_format, needs_artifact, payload_of, pack_data}
use shapeport.Planner.Names.{contains_name}
use shapeport.Mcp.Auth.{
  SocketAddr, Guard, AllowedHosts, HttpConfig, Server, Request, build_http_config, serve_http,
  reaches,
}
use shapeport.Mcp.Guarded.{serve_http-Guarded}
use shapeport.Mcp.Packed.{Inline, Stored, pack_data-kept}
use shapeport.Samples.Machine.{machine, get, insert}
use shapeport.Samples.Disk.{disk, fixed, rooted}
use shapeport.Samples.Data.{id}

abbrev public : SocketAddr
public = record {
  ip_text = codes "10.0.0.1";
  text = codes "10.0.0.1:80";
  is_loopback = false;
  is_unspecified = false;
}

abbrev guarded : RuntimeConfig
guarded = record rooted { mcp = record rooted.mcp { bearer_token = some (codes "key") } }

abbrev server : Server
server = record {
  guard = Guard.bearer (codes "key");
  http = record {
    allowed_origins = none;
    allowed_hosts = AllowedHosts.listed (
        codes "localhost"
        ∷ codes "127.0.0.1"
        ∷ codes "::1"
        ∷ codes "10.0.0.1"
        ∷ codes "10.0.0.1:80"
        ∷ []);
  };
}

-- A check by the listed hosts alone.
abbrev host_listed : HttpConfig → Request → Bool
host_listed config request = elim config.allowed_hosts [
  | AllowedHosts.listed names ↦ elim request.host [
    | none ↦ false
    | some name ↦ contains_name name names
  ]
  | AllowedHosts.defaults ↦ true
  | AllowedHosts.disabled ↦ true
]

guarded_starts : serve_http public guarded ≡ some server
unfolding serve_http
guarded_starts = refl

serve_http-Guarded_example :
    (token : Text) × (some (codes "key") ≡ some token)
    × ((request : Request)
        → (reaches host_listed server request ≡ true) ↔ (
            (request.authorization ≡ some (codes "Bearer " ++ token))
            × (host_listed (build_http_config public guarded) request ≡ true)))
serve_http-Guarded_example =
    serve_http-Guarded host_listed public guarded server refl guarded_starts

abbrev small : TransformResult
small = record { records = []; bytes = 1 ∷ []; schema = none; diagnostics = []; rejects = [] }

abbrev packed : DataOut
packed = record {
  result = some (Payload.encoded_text (1 ∷ []));
  artifact = none;
  receipt = record { rows = 0; bytes = 1; format = FormatId.csv };
  diagnostics = [];
}

small_packs :
    pack_data fixed disk (λ b. []) (λ m t. some []) [] small FormatId.csv rooted ≡ ok ([], packed)
unfolding pack_data needs_artifact is_binary_format payload_of
small_packs = refl

pack_data-kept_example :
    Inline fixed disk (λ b. []) (λ m t. some []) [] [] small FormatId.csv rooted packed
    ⊎ Stored fixed disk (λ b. []) (λ m t. some []) [] [] small FormatId.csv rooted packed
pack_data-kept_example =
    pack_data-kept fixed disk (λ b. []) (λ m t. some []) [] [] small FormatId.csv rooted packed
      small_packs

abbrev n : Text
n = codes "n"

abbrev empty_is_null : DecodeOptions
empty_is_null = record { infer = InferMode.conservative; null_spellings = [] ∷ [] }

-- {"id": "a", "n": 7}
abbrev full_row : Value
full_row = Value.object (
    Fields.field id (Value.string (codes "a"))
      (Fields.field n (Value.int (pos 7)) Fields.no_fields))

-- {"id": "b", "n": null}
abbrev short_row : Value
short_row =
    Value.object
      (Fields.field id (Value.string (codes "b")) (Fields.field n Value.null Fields.no_fields))

abbrev row_schema : Schema
row_schema = record {
  root = DataType.record_of (
      FieldList.field id DataType.string false [] none []
        (FieldList.field n (DataType.int 64 true) true [] none [] FieldList.no_fields));
}

rows_decode : decode_delimited machine fixed [] b',' empty_is_null ≡ ok (full_row ∷ short_row ∷ [])
unfolding decode_delimited decode_rows decode_row infer_cell conservative_cell
    has_leading_zero_numeric is_digit parse_i64 value insert text_eq
rows_decode = refl

schema_found :
    infer_schema machine (full_row ∷ short_row ∷ []) InferMode.conservative ≡ ok row_schema
unfolding infer_schema update_field update_existing_fields unify_types push_field has_field
    append_new_fields unify_fields type_of text_eq get type_eq is_unknown DataType-discrete
schema_found = refl

decode_delimited-infer_schema_example :
    All (λ v. validate_value machine row_schema v ≡ ok tt) (full_row ∷ short_row ∷ [])
decode_delimited-infer_schema_example =
    decode_delimited-infer_schema machine fixed [] b',' empty_is_null InferMode.conservative
      (full_row ∷ short_row ∷ []) row_schema rows_decode schema_found

not_spelled : has_key (int_to_text (negsuc 41)) ([] ∷ []) ≡ false
unfolding has_key int_to_text text_eq
not_spelled = refl

infer_cell-cell_text_example :
    (text : Text) × (cell_text machine (Value.int (negsuc 41)) ≡ ok text)
    × (infer_cell machine text empty_is_null ≡ Value.int (negsuc 41))
infer_cell-cell_text_example =
    infer_cell-cell_text machine (negsuc 41) empty_is_null (omega arith) refl not_spelled
