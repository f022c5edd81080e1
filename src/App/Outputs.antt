-- ===== src/App/Outputs.antt =====
-- app.rs: what the results of the services satisfy.
use shapeport.Prelude.{◌≤◌, ◌≡◌, false, length, All, Option, none, some, List}
use text.Mathlib.Text.{◌==◌ as str_eq}
use shapeport.Error
use shapeport.Error.{ok, err, ◌>>=◌, err_ok, Result-cases}
use shapeport.Host.{Host}
use shapeport.Value.{Value}
use shapeport.Schema.{Schema}
use shapeport.Config.{RuntimeConfig}
use shapeport.Plan.{TransformationPlan}
use shapeport.Planner.{PlanOutcome, InsertExpr}
use shapeport.Security.Files.{FileSystem}
use shapeport.Formats.Adapters.{Adapters}
use shapeport.Formats.Detect.{Detection}
use shapeport.App.{value_depth}
use shapeport.App.Limits.{rows-within, output-within, depth-within}
use shapeport.App.Requests.{TransformRequest, TransformResult, PlanResponse}
use shapeport.App.Services.{read_records, transform_data}
use shapeport.App.Inversion.{transform_data-Transformed}

-- A plan that the planner makes has its output validated.
abbrev Required : PlanOutcome → Type 0
Required (PlanOutcome.ready plan explanation diagnostics) = plan.output ≡ "required"
Required (PlanOutcome.ambiguous unresolved explanation diagnostics) = Unit

module _ (host : Host) (adapters : Adapters) (insert : InsertExpr) {World : Type 0}
    (fs : FileSystem World) where
  -- A run of `transform_data` that succeeds read at most the configured number of records, none nested
  -- deeper than configured, and its output has at most the configured number of bytes.
  pub transform_data-within :
      (w : World) (request : TransformRequest) (config : RuntimeConfig) (result : TransformResult)
      → transform_data host adapters insert fs w request config ≡ ok result
      → (length result.bytes ≤ config.limits.max_output_bytes)
        × ((input : Detection × List Value) × (read_records host adapters insert fs w request.source
                request.infer config
              ≡ ok input)
            × (length input.1 ≤ config.limits.max_rows)
            × All (λ v. value_depth v ≤ config.limits.max_nesting_depth) input.1)
  transform_data-within w request config result h =
      let r = transform_data-Transformed host adapters insert fs w request config result h in
      (
        output-within result.bytes config r.size_ok,
        (
          r.input,
          r.read_ok,
          rows-within (length r.input.1) config r.rows_ok,
          depth-within r.input.1 config r.depth_ok,
        ),
      )

  -- The plan of a response, if there is one, has its output validated.
  abbrev ResponseRequired : PlanResponse → Type 0
  ResponseRequired r = (plan : TransformationPlan) → r.plan ≡ some plan → plan.output ≡ "required"

  abbrev PlanRequired : TransformationPlan → Type 0
  PlanRequired plan = plan.output ≡ "required"

  -- The plan of a run asks for the validation of its output.
  abbrev pub AsksForOutput : Option TransformationPlan → Type 0
  AsksForOutput none = Unit
  AsksForOutput (some plan) = str_eq plan.output "none" ≡ false
