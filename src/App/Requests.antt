-- ===== src/App/Requests.antt =====
-- app.rs: what the services take and return. The fingerprint of an inspected schema is left out.
use shapeport.Prelude.{ℕ, Bool, Option, List}
use shapeport.Diagnostics.{Diagnostic, RejectedRecord}
use shapeport.Value.{Value}
use shapeport.Schema.{Schema}
use shapeport.Config.{InferMode}
use shapeport.Plan.{ErrorPolicy, TransformationPlan}
use shapeport.Planner.{PlannerMode, ExplainEntry, Unresolved}
use shapeport.Security.Files.{Bytes}
use shapeport.Formats.{FormatId}
use shapeport.Formats.Detect.{Detection}
use shapeport.App.{SourceSpec}

pub record InspectRequest : Type 0 where
  pub source : SourceSpec
  pub infer : InferMode
  pub sample_rows : ℕ

pub record InspectResult : Type 0 where
  pub detection : Detection
  pub schema : Schema
  pub row_count : ℕ
  pub sample : List Value

pub record PlanRequest : Type 0 where
  pub source_schema : Option Schema
  pub target_schema : Schema
  pub source : Option SourceSpec
  pub mode : PlannerMode
  pub infer : InferMode

-- The status is `ready` exactly when there is a plan.
pub record PlanResponse : Type 0 where
  pub is_ready : Bool
  pub plan : Option TransformationPlan
  pub explanation : List ExplainEntry
  pub unresolved : List Unresolved
  pub diagnostics : List Diagnostic

pub record TransformRequest : Type 0 where
  pub source : SourceSpec
  pub plan : Option TransformationPlan
  pub target_schema : Option Schema
  pub mode : PlannerMode
  pub output_format : FormatId
  pub error_policy : ErrorPolicy
  pub infer : InferMode

pub record TransformResult : Type 0 where
  pub records : List Value
  pub bytes : Bytes
  pub schema : Option Schema
  pub diagnostics : List Diagnostic
  pub rejects : List RejectedRecord

pub record ValidateRequest : Type 0 where
  pub source : Option SourceSpec
  pub schema : Option Schema
  pub plan : Option TransformationPlan
  pub infer : InferMode

pub record ValidateResult : Type 0 where
  pub valid : Bool
  pub errors : List Diagnostic

pub record ConvertRequest : Type 0 where
  pub source : SourceSpec
  pub to : FormatId
  pub infer : InferMode
