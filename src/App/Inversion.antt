-- ===== src/App/Inversion.antt =====
-- app.rs: the steps of a `transform_data` that succeeds.
use shapeport.Prelude.{◌≡◌, refl, subst, List, length}
use shapeport.Error.{ok, >>=-eq-ok, ok_inj}
use shapeport.Host.{Host}
use shapeport.Value.{Value}
use shapeport.Config.{RuntimeConfig}
use shapeport.Plan.{TransformationPlan}
use shapeport.Planner.{InsertExpr}
use shapeport.Engine.Stream.{ExecuteOutcome, execute_detailed}
use shapeport.Security.Files.{FileSystem}
use shapeport.Formats.Adapters.{Adapters}
use shapeport.Formats.Detect.{Detection}
use shapeport.Formats.Codec.{encode_records}
use shapeport.App.{check_row_limit, check_output_bytes, check_nesting_depth}
use shapeport.App.Requests.{TransformRequest, TransformResult}
use shapeport.App.Services.{read_records, resolve_plan, check_output, transform_data}

module _ (host : Host) (adapters : Adapters) (insert : InsertExpr) {World : Type 0}
    (fs : FileSystem World) where
  pub record Transformed (w : World) (request : TransformRequest) (config : RuntimeConfig)
      (result : TransformResult) : Type 0 where
    pub input : Detection × List Value
    pub read_ok :
        read_records host adapters insert fs w request.source request.infer config ≡ ok input
    pub rows_ok : check_row_limit (length input.1) config ≡ ok tt
    pub depth_ok : check_nesting_depth input.1 config ≡ ok tt
    pub plan : TransformationPlan
    pub resolved : resolve_plan host adapters insert fs w request input.1 config ≡ ok plan
    pub outcome : ExecuteOutcome
    pub executed :
        execute_detailed host (record plan { error_policy = request.error_policy }) input.1
        ≡ ok outcome
    pub checked :
        check_output host adapters insert fs request.target_schema plan.output outcome.records
        ≡ ok tt
    pub encoded :
        encode_records host adapters outcome.records request.output_format ≡ ok result.bytes
    pub size_ok : check_output_bytes result.bytes config ≡ ok tt
    pub records_are : result.records ≡ outcome.records

  pub transform_data-Transformed :
      (w : World) (request : TransformRequest) (config : RuntimeConfig) (result : TransformResult)
      → transform_data host adapters insert fs w request config ≡ ok result
      → Transformed w request config result
  unfolding transform_data
  transform_data-Transformed w request config result h =
      let (input, read_ok, h₁) =
        >>=-eq-ok (read_records host adapters insert fs w request.source request.infer config) _
          h in
      let (u, rows_ok, h₂) = >>=-eq-ok (check_row_limit (length input.1) config) _ h₁ in
      let (v, depth_ok, h₃) = >>=-eq-ok (check_nesting_depth input.1 config) _ h₂ in
      let (plan, resolved, h₄) =
        >>=-eq-ok (resolve_plan host adapters insert fs w request input.1 config) _ h₃ in
      let (outcome, executed, h₅) =
        >>=-eq-ok
          (execute_detailed host (record plan { error_policy = request.error_policy }) input.1) _
          h₄ in
      let (x, checked, h₆) =
        >>=-eq-ok
          (check_output host adapters insert fs request.target_schema plan.output outcome.records) _
          h₅ in
      let (encoded, wrote, h₇) =
        >>=-eq-ok (encode_records host adapters outcome.records request.output_format) _ h₆ in
      let (y, size_ok, h₈) = >>=-eq-ok (check_output_bytes encoded config) _ h₇ in
      subst (Transformed w request config) (ok_inj h₈) (record {
        input = input;
        read_ok = read_ok;
        rows_ok = rows_ok;
        depth_ok = depth_ok;
        plan = plan;
        resolved = resolved;
        outcome = outcome;
        executed = executed;
        checked = checked;
        encoded = wrote;
        size_ok = size_ok;
        records_are = refl;
      })
