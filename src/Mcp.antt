-- ===== src/Mcp.antt =====
-- crates/shapeport-mcp/src/lib.rs: the server's tools. Decoding and rendering of JSON are serde's: a JSON
-- value is of a type that is a parameter, and `tool_fail`, which renders an error, is left out. The
-- tools that decode a schema or a plan, and the query tool, are left out.
pub mod Auth
pub mod Guarded
pub mod Packed
pub mod Reload
use shapeport.Prelude.{
  ℕ, ltb, Text, text_eq, codes, length, Bool, true, false, not, ◌&&◌, ◌||◌, Option, none, some,
  List, [], ◌∷◌, ◌++◌, if◌then◌else◌,
}
use shapeport.Error
use shapeport.Error.{Result, ok, err, ◌>>=◌}
use shapeport.Diagnostics.{Diagnostic}
use shapeport.Host.{Host}
use shapeport.Value.{Value}
use shapeport.Plan.{ErrorPolicy}
use shapeport.Planner.{PlannerMode, InsertExpr}
use shapeport.Config.{InferMode, parse_infer_mode, RuntimeConfig}
use shapeport.Security.Components.{PathBuf}
use shapeport.Security.Files.{FileSystem, Bytes}
use shapeport.Security.Artifacts.{ArtifactMeta, artifact_scheme, write_artifact}
use shapeport.Formats.{FormatId, parse_format_id}
use shapeport.Formats.Adapters.{Adapters}
use shapeport.App.{SourceSpec}
use shapeport.App.Requests.{InspectRequest, InspectResult, TransformResult, ConvertRequest}
use shapeport.App.Services.{inspect_source, convert_data}

pub record SourceRef (Json : Type 0) : Type 0 where
  pub uri : Option Text
  pub format : Option Text
  pub inline : Option Json

pub record Receipt : Type 0 where
  pub rows : ℕ
  pub bytes : ℕ
  pub format : FormatId

-- The fingerprint of the schema is left out.
pub record ArtifactOut : Type 0 where
  pub uri : Text
  pub format : FormatId
  pub bytes : ℕ
  pub rows : ℕ
  pub sha256 : Text
  pub expires_at : Text
  pub local_path : Option PathBuf

-- What an inline result carries: the records as JSON, or the encoded text.
pub data Payload : Type 0 where
  records_json : List Value → Payload
  encoded_text : Text → Payload

pub record DataOut : Type 0 where
  pub result : Option Payload
  pub artifact : Option ArtifactOut
  pub receipt : Receipt
  pub diagnostics : List Diagnostic

-- `and_then(parse).unwrap_or(default)`
abbrev pub parsed_or_default {ℓ} : {A : Type ℓ} → (Text → Option A) → A → Option Text → A
parsed_or_default parse default none = default
parsed_or_default parse default (some raw) = elim (parse raw) [ none ↦ default | some a ↦ a ]

-- `PlannerMode::parse`
unfoldable pub parse_planner_mode : Text → Option PlannerMode
unfolding text_eq
parse_planner_mode raw =
    if text_eq raw (codes "strict")
    then some PlannerMode.strict
    else if text_eq raw (codes "smart")
    then some PlannerMode.smart
    else none

unfoldable pub parse_infer : Option Text → InferMode
unfolding parse_infer_mode
parse_infer raw = parsed_or_default parse_infer_mode InferMode.conservative raw

unfoldable pub parse_mode : Option Text → PlannerMode
unfolding parse_planner_mode
parse_mode raw = parsed_or_default parse_planner_mode PlannerMode.smart raw

unfoldable pub parse_format : Option Text → FormatId → FormatId
unfolding parse_format_id
parse_format raw default = parsed_or_default parse_format_id default raw

unfoldable pub parse_policy : Option Text → ErrorPolicy
unfolding text_eq
parse_policy none = ErrorPolicy.fail
parse_policy (some raw) =
    if text_eq raw (codes "skip")
    then ErrorPolicy.skip
    else if text_eq raw (codes "collect")
    then ErrorPolicy.collect
    else ErrorPolicy.fail

unfoldable pub is_binary_format : FormatId → Bool
is_binary_format FormatId.parquet = true
is_binary_format FormatId.arrow_ipc = true
is_binary_format _ = false

abbrev pub format_or_none : Option Text → Option FormatId
format_or_none none = none
format_or_none (some raw) = parse_format_id raw

module _ {Json : Type 0} (value_of_json : Json → Option Value) where
  abbrev inline_value : Option Json → Result (Option Value)
  inline_value none = ok none
  inline_value (some json) = elim (value_of_json json) [
    | none ↦ err (Error.parse "invalid_inline")
    | some v ↦ ok (some v)
  ]

  unfoldable pub to_source : SourceRef Json → Result SourceSpec
  unfolding parse_format_id
  to_source src = inline_value src.inline >>= λ inline.
      ok (record {
        uri = src.uri;
        inline = inline;
        format = format_or_none src.format;
        bytes = none;
      })

module _ (adapters : Adapters) {World : Type 0} (fs : FileSystem World)
    (compute_digest : Bytes → Text) (mtime_plus_ttl : ℕ → ℕ → Option Text) where
  unfoldable pub pack_artifact :
      World → TransformResult → FormatId → RuntimeConfig → Receipt → Result (World × DataOut)
  unfolding write_artifact
  pack_artifact w result format config receipt =
      write_artifact fs compute_digest mtime_plus_ttl w result.bytes config >>= λ stored. ok (
        stored.0,
        record {
          result = none;
          artifact = some (record {
            uri = artifact_scheme ++ stored.1.digest;
            format = format;
            bytes = receipt.bytes;
            rows = receipt.rows;
            sha256 = stored.1.digest;
            expires_at = stored.1.expires_at;
            local_path = (if config.mcp.local_filesystem then some stored.1.path else none);
          });
          receipt = receipt;
          diagnostics = result.diagnostics;
        },
      )

  abbrev pub receipt_of : TransformResult → FormatId → Receipt
  receipt_of result format = record {
    rows = length result.records;
    bytes = length result.bytes;
    format = format;
  }

  unfoldable pub payload_of : FormatId → TransformResult → Payload
  payload_of FormatId.json result = Payload.records_json result.records
  payload_of FormatId.jsonl result = Payload.records_json result.records
  payload_of _ result = Payload.encoded_text (adapters.from_utf8_lossy result.bytes)

  -- The test of `pack_data` for what is too large, or no text.
  unfoldable pub needs_artifact : TransformResult → FormatId → RuntimeConfig → Bool
  unfolding is_binary_format
  needs_artifact result format config =
      is_binary_format format
      || ltb config.mcp.inline_max_bytes (length result.bytes)
      || ltb config.mcp.inline_max_rows (length result.records)

  unfoldable pub pack_data :
      World → TransformResult → FormatId → RuntimeConfig → Result (World × DataOut)
  unfolding pack_artifact payload_of needs_artifact
  pack_data w result format config =
      if needs_artifact result format config
      then pack_artifact w result format config (receipt_of result format)
      else ok (
        w,
        record {
          result = some (payload_of format result);
          artifact = none;
          receipt = receipt_of result format;
          diagnostics = result.diagnostics;
        },
      )

  module _ (host : Host) (insert : InsertExpr) {Json : Type 0}
      (value_of_json : Json → Option Value) where
    abbrev known_format : Option FormatId → Result FormatId
    known_format none = err (Error.usage "unknown_format")
    known_format (some format) = ok format

    -- The tool `shapeport_convert`, of a source and a format.
    unfoldable pub convert_tool :
        World → SourceRef Json → Text → RuntimeConfig → Result (World × DataOut)
    unfolding parse_format_id to_source convert_data pack_data
    convert_tool w source_ref to config = known_format (parse_format_id to) >>= λ format.
        to_source value_of_json source_ref >>= λ source.
        convert_data host adapters insert fs w
          (record { source = source; to = format; infer = InferMode.conservative }) config
        >>= λ result. pack_data w result format config

    -- The tool `shapeport_inspect`, up to the rendering of its result.
    unfoldable pub inspect_tool :
        World → SourceRef Json → Option Text → Option ℕ → RuntimeConfig → Result InspectResult
    unfolding parse_infer to_source inspect_source
    inspect_tool w source_ref infer_types sample_rows config =
        to_source value_of_json source_ref >>= λ source.
        inspect_source host adapters insert fs w
          (record {
            source = source;
            infer = parse_infer infer_types;
            sample_rows = (elim sample_rows [ none ↦ 20 | some n ↦ n ]);
          })
          config
