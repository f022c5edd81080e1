-- ===== src/App/Services.antt =====
-- app.rs: `inspect_source`, `plan_mapping`, `transform_data`, `validate_data` and `convert_data`. The
-- results' empty diagnostics are left out.
use shapeport.Prelude.{
  leb, not, String, length, take, map, is_empty, true, false, Option, none, some, List, [], ◌∷◌,
  if◌then◌else◌,
}
use shapeport.Error
use shapeport.Error.{Error, Result, ok, err, ◌>>=◌, ◌>>◌}
use shapeport.Diagnostics.{Diagnostic, error_diagnostic}
use shapeport.Host.{Host}
use shapeport.Value.{Value}
use shapeport.Schema.{Schema}
use shapeport.Config.{InferMode, RuntimeConfig}
use shapeport.Plan.{TransformationPlan, validate_shape}
use text.Mathlib.Text.{◌==◌ as str_eq}
use shapeport.Planner.{PlannerOptions, PlanOutcome, InsertExpr}
use shapeport.Planner.Build.{plan_schemas}
use shapeport.Engine.Stream.{execute_detailed}
use shapeport.JsonSchema.Validate.{validate_value}
use shapeport.Security.Files.{FileSystem}
use shapeport.Formats.Adapters.{Adapters}
use shapeport.Formats.Cells.{DecodeOptions}
use shapeport.Formats.Detect.{Detection, detect_format}
use shapeport.Formats.Codec.{decode_records_with, encode_records}
use shapeport.Formats.Infer.{infer_schema}
use shapeport.App.{
  SourceSpec, load_source, check_row_limit, check_output_bytes, check_nesting_depth,
}
use shapeport.App.Requests.{
  ConvertRequest, InspectRequest, InspectResult, PlanRequest, PlanResponse, TransformRequest,
  TransformResult, ValidateRequest, ValidateResult,
}

abbrev pub decode_options : InferMode → RuntimeConfig → DecodeOptions
decode_options infer config = record { infer = infer; null_spellings = config.null_spellings }

abbrev pub or_usage {ℓ} : {A : Type ℓ} → Error → Option A → Result A
or_usage e none = err e
or_usage e (some a) = ok a

unfoldable pub response_of : PlanOutcome → PlanResponse
response_of (PlanOutcome.ready plan explanation diagnostics) = record {
  is_ready = true;
  plan = some plan;
  explanation = explanation;
  unresolved = [];
  diagnostics = diagnostics;
}
response_of (PlanOutcome.ambiguous unresolved explanation diagnostics) = record {
  is_ready = false;
  plan = none;
  explanation = explanation;
  unresolved = unresolved;
  diagnostics = diagnostics;
}

abbrev pub planner_options : PlanRequest → RuntimeConfig → PlannerOptions
planner_options request config = record {
  mode = request.mode;
  auto_accept_threshold = config.planner.auto_accept_threshold;
  ambiguity_threshold = config.planner.ambiguity_threshold;
}

-- The request that `resolve_plan` makes of `plan_mapping`.
abbrev pub mapping_request : TransformRequest → Schema → Schema → PlanRequest
mapping_request request source target = record {
  source_schema = some source;
  target_schema = target;
  source = none;
  mode = request.mode;
  infer = request.infer;
}

-- A failed validation is listed before the later ones.
unfoldable pub errors_onto : Result (Unit {0}) → List Diagnostic → List Diagnostic
errors_onto (ok u) later = later
errors_onto (err e) later = error_diagnostic e.code ∷ later

module _ (host : Host) (adapters : Adapters) (insert : InsertExpr) {World : Type 0}
    (fs : FileSystem World) where
  -- The first steps of each service: the source's bytes, their format, and the records.
  unfoldable pub read_records :
      World → SourceSpec → InferMode → RuntimeConfig → Result (Detection × List Value)
  unfolding load_source detect_format decode_records_with
  read_records w source infer config = load_source adapters fs w source config >>= λ loaded.
      let detection = detect_format host adapters loaded.0 loaded.1 source.format in
      decode_records_with host adapters loaded.0 detection.format (decode_options infer config)
      >>= λ records. ok (detection, records)

  unfoldable pub inspect_source : World → InspectRequest → RuntimeConfig → Result InspectResult
  unfolding read_records check_row_limit infer_schema
  inspect_source w request config = read_records w request.source request.infer config >>= λ input.
      check_row_limit (length input.1) config
      >> infer_schema host input.1 request.infer
      >>= λ schema. ok (record {
        detection = input.0;
        schema = schema;
        row_count = length input.1;
        sample =
            take
              (if leb request.sample_rows (length input.1)
                then request.sample_rows
                else length input.1)
              input.1;
      })

  unfoldable pub source_schema_of :
      World → PlanRequest → RuntimeConfig → Option Schema → Result Schema
  unfolding inspect_source
  source_schema_of w request config (some schema) = ok schema
  source_schema_of w request config none =
      or_usage (Error.usage "plan_source") request.source >>= λ source.
      inspect_source w
        (record { source = source; infer = request.infer; sample_rows = config.sample_rows }) config
      >>= λ inspected. ok inspected.schema

  unfoldable pub plan_mapping : World → PlanRequest → RuntimeConfig → Result PlanResponse
  unfolding source_schema_of plan_schemas response_of
  plan_mapping w request config =
      source_schema_of w request config request.source_schema >>= λ source_schema.
      plan_schemas insert source_schema request.target_schema (planner_options request config)
      >>= λ outcome. ok (response_of outcome)

  unfoldable pub resolve_given :
      World
      → TransformRequest
      → List Value
      → RuntimeConfig
      → Option TransformationPlan
      → Result TransformationPlan
  unfolding validate_shape infer_schema plan_mapping
  resolve_given w request records config (some plan) = validate_shape plan >> ok plan
  resolve_given w request records config none =
      or_usage (Error.usage "transform_plan") request.target_schema >>= λ target.
      infer_schema host records request.infer >>= λ source_schema.
      plan_mapping w (mapping_request request source_schema target) config >>= λ planned.
      or_usage Error.ambiguity planned.plan

  unfoldable pub resolve_plan :
      World → TransformRequest → List Value → RuntimeConfig → Result TransformationPlan
  unfolding resolve_given
  resolve_plan w request records config = resolve_given w request records config request.plan

  unfoldable pub validate_all : Schema → List Value → Result (Unit {0})
  unfolding validate_value
  validate_all schema [] = ok tt
  validate_all schema (v ∷ rest) = validate_value host schema v >> validate_all schema rest

  -- The check of the output of `transform_data`.
  unfoldable pub check_output : Option Schema → String → List Value → Result (Unit {0})
  unfolding validate_all
  check_output none output records = ok tt
  check_output (some schema) output records =
      if not (str_eq output "none") then validate_all schema records else ok tt

  unfoldable pub transform_data : World → TransformRequest → RuntimeConfig → Result TransformResult
  unfolding read_records check_row_limit check_nesting_depth resolve_plan execute_detailed
      check_output encode_records check_output_bytes
  transform_data w request config = read_records w request.source request.infer config >>= λ input.
      check_row_limit (length input.1) config
      >> (check_nesting_depth input.1 config
          >> (resolve_plan w request input.1 config >>= λ resolved.
              let plan : TransformationPlan = record resolved {
                error_policy = request.error_policy;
              } in
              execute_detailed host plan input.1 >>= λ outcome.
              check_output request.target_schema plan.output outcome.records
              >> (encode_records host adapters outcome.records request.output_format >>= λ encoded.
                  check_output_bytes encoded config
                  >> ok (record {
                    records = outcome.records;
                    bytes = encoded;
                    schema = request.target_schema;
                    diagnostics = map (λ r. r.diagnostic) outcome.rejects;
                    rejects = outcome.rejects;
                  }))))

  -- The loop of `validate_data`.
  unfoldable pub validation_errors : Schema → List Value → List Diagnostic
  unfolding validate_value errors_onto
  validation_errors schema [] = []
  validation_errors schema (v ∷ rest) =
      errors_onto (validate_value host schema v) (validation_errors schema rest)

  abbrev shape_result : Result (Unit {0}) → ValidateResult
  shape_result (ok u) = record { valid = true; errors = [] }
  shape_result (err e) = record { valid = false; errors = error_diagnostic e.code ∷ [] }

  unfoldable pub validate_given :
      World → ValidateRequest → RuntimeConfig → Option TransformationPlan → Result ValidateResult
  unfolding validate_shape read_records validation_errors
  validate_given w request config (some plan) = ok (shape_result (validate_shape plan))
  validate_given w request config none =
      or_usage (Error.usage "validate_source") request.source >>= λ source.
      or_usage (Error.usage "validate_schema") request.schema >>= λ schema.
      read_records w source request.infer config >>= λ input.
      let errors = validation_errors schema input.1 in
      ok (record { valid = is_empty errors; errors = errors })

  unfoldable pub validate_data : World → ValidateRequest → RuntimeConfig → Result ValidateResult
  unfolding validate_given
  validate_data w request config = validate_given w request config request.plan

  unfoldable pub convert_data : World → ConvertRequest → RuntimeConfig → Result TransformResult
  unfolding read_records check_row_limit encode_records
  convert_data w request config = read_records w request.source request.infer config >>= λ input.
      check_row_limit (length input.1) config
      >> (encode_records host adapters input.1 request.to >>= λ encoded. ok (record {
        records = input.1;
        bytes = encoded;
        schema = none;
        diagnostics = [];
        rejects = [];
      }))
