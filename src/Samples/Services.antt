-- ===== src/Samples/Services.antt =====
-- Runs of the services on the sample disk, and the theorems on them.
use shapeport.Prelude.{
  pos, codes, value, length, ◌≤◌, ◌≡◌, refl, true, false, All, none, some, List, [], ◌∷◌, arith,
}
use shapeport.Error
use shapeport.Error.{Result, ok, err}
use shapeport.Value.{Value, Fields}
use shapeport.Schema.{DataType, FieldList, Schema}
use shapeport.Schema.Names.{from_target_name}
use shapeport.Config.{InferMode, RuntimeConfig}
use shapeport.Plan.{ErrorPolicy, validate_shape}
use shapeport.Planner.{PlannerMode, InsertExpr}
use shapeport.Engine.Access.{read_path, insert_field, write_simple}
use shapeport.Engine.Cast.{cast_value, parse_int, parse_i64}
use shapeport.Engine.Eval.{eval_expr, eval_object}
use shapeport.Engine.Records.{apply_record, cast_field}
use shapeport.Engine.Stream.{map_from, execute_detailed}
use shapeport.Paths.{simple_of}
use shapeport.JsonSchema.Validate.{validate_value}
use shapeport.JsonSchema.Meets.{Meets}
use shapeport.Formats.{FormatId}
use shapeport.Formats.Detect.{Detection}
use shapeport.Formats.Codec.{values_of, items_of, decode_records_with, encode_records}
use shapeport.App.{SourceSpec, value_depth, max_of, check_nesting_depth}
use shapeport.App.Requests.{
  InspectRequest, TransformRequest, TransformResult, ConvertRequest, ValidateRequest,
}
use shapeport.App.Services.{read_records, inspect_source, transform_data, convert_data}
use shapeport.App.Outputs.{transform_data-within}
use shapeport.App.Verdicts.{max_rows-refused}
use shapeport.Samples.Machine.{get, insert, machine}
use shapeport.Samples.Disk.{disk, fixed, rooted}
use shapeport.Samples.Data.{id, qty, good, cast_plan}

-- A map of expressions that puts new entries first.
abbrev put_first : InsertExpr
put_first = λ k e m. shapeport.Plan.entry k e m

abbrev given : SourceSpec
given = record { uri = none; inline = none; format = some FormatId.json; bytes = some [] }

abbrev input : Detection × List Value
input = (record { format = FormatId.json; confidence = 100 }, good ∷ [])

abbrev target : Schema
target = record {
  root = DataType.record_of (
      FieldList.field id DataType.string false [] none []
        (FieldList.field qty (DataType.int 64 true) false [] none [] FieldList.no_fields));
}

abbrev request : TransformRequest
request = record {
  source = given;
  plan = some (cast_plan ErrorPolicy.skip);
  target_schema = some target;
  mode = PlannerMode.smart;
  output_format = FormatId.json;
  error_policy = ErrorPolicy.fail;
  infer = InferMode.off;
}

abbrev done : TransformResult
done = record {
  records =
      Value.object (
        Fields.field id (Value.string (codes "a"))
          (Fields.field qty (Value.int (pos 7)) Fields.no_fields))
      ∷ [];
  bytes = 1 ∷ 2 ∷ [];
  schema = some target;
  diagnostics = [];
  rejects = [];
}

transform_runs : transform_data machine fixed put_first disk [] request rooted ≡ ok done
unfolding transform_data read_records decode_records_with values_of encode_records items_of max_of
    value_depth check_nesting_depth execute_detailed validate_shape apply_record cast_field
    eval_object eval_expr cast_value write_simple insert_field read_path get insert from_target_name
    value parse_i64 parse_int simple_of map_from validate_value
transform_runs = refl

transform_data-within_example :
    (length done.bytes ≤ rooted.limits.max_output_bytes)
    × ((read : Detection × List Value) × (read_records machine fixed put_first disk [] given
            InferMode.off rooted
          ≡ ok read)
        × (length read.1 ≤ rooted.limits.max_rows)
        × All (λ v. value_depth v ≤ rooted.limits.max_nesting_depth) read.1)
transform_data-within_example =
    transform_data-within machine fixed put_first disk [] request rooted done transform_runs

abbrev check_request : ValidateRequest
check_request = record {
  source = some given;
  schema = some target;
  plan = none;
  infer = InferMode.off;
}

-- No record is allowed.
abbrev closed : RuntimeConfig
closed = record rooted { limits = record rooted.limits { max_rows = 0 } }

abbrev look : InspectRequest
look = record { source = given; infer = InferMode.off; sample_rows = 5 }

abbrev turn : ConvertRequest
turn = record { source = given; to = FormatId.csv; infer = InferMode.off }

closed_reads : read_records machine fixed put_first disk [] given InferMode.off closed ≡ ok input
unfolding read_records decode_records_with values_of
closed_reads = refl

max_rows-refused_example :
    (inspect_source machine fixed put_first disk [] look closed ≡ err (Error.limit "max_rows"))
    × (transform_data machine fixed put_first disk [] request closed ≡ err (Error.limit "max_rows"))
    × (convert_data machine fixed put_first disk [] turn closed ≡ err (Error.limit "max_rows"))
max_rows-refused_example =
    max_rows-refused machine fixed put_first disk [] given closed input look request turn refl refl
      refl refl refl closed_reads (omega arith)
