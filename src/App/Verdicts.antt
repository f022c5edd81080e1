-- ===== src/App/Verdicts.antt =====
-- app.rs: the verdicts of `validate_data`, and the row limit in each service.
use shapeport.Prelude.{◌<◌, ◌≡◌, refl, length, List}
use shapeport.Error
use shapeport.Error.{Error, ok, err, ◌>>=◌}
use shapeport.Host.{Host}
use shapeport.Value.{Value}
use shapeport.Schema.{Schema}
use shapeport.Config.{RuntimeConfig}
use shapeport.Planner.{InsertExpr}
use shapeport.JsonSchema.Meets.{Meets}
use shapeport.Security.Files.{FileSystem}
use shapeport.Formats.Adapters.{Adapters}
use shapeport.Formats.Detect.{Detection}
use shapeport.App.{SourceSpec, check_row_limit}
use shapeport.App.Limits.{rows-over}
use shapeport.App.Requests.{InspectRequest, TransformRequest, ConvertRequest}
use shapeport.App.Services.{read_records, inspect_source, transform_data, convert_data}

module _ (host : Host) (adapters : Adapters) (insert : InsertExpr) {World : Type 0}
    (fs : FileSystem World) where
  -- Inspecting, transforming and converting a source that is read refuse it with `max_rows` where it
  -- has more records than configured.
  pub max_rows-refused :
      (w : World) (source : SourceSpec) (config : RuntimeConfig) (input : Detection × List Value)
      (inspect : InspectRequest) (transform : TransformRequest) (convert : ConvertRequest)
      → inspect.source ≡ source
      → transform.source ≡ source
      → convert.source ≡ source
      → transform.infer ≡ inspect.infer
      → convert.infer ≡ inspect.infer
      → read_records host adapters insert fs w source inspect.infer config ≡ ok input
      → config.limits.max_rows < length input.1
      → (inspect_source host adapters insert fs w inspect config ≡ err (Error.limit "max_rows"))
        × (transform_data host adapters insert fs w transform config ≡ err (Error.limit "max_rows"))
        × (convert_data host adapters insert fs w convert config ≡ err (Error.limit "max_rows"))
  unfolding inspect_source transform_data convert_data
  max_rows-refused w source config input inspect transform convert s₁ s₂ s₃ i₁ i₂ found over =
      let limit : check_row_limit (length input.1) config ≡ err (Error.limit "max_rows") =
        rows-over (length input.1) config over in
      (
        rw s₁ (rw found (rw limit refl)),
        rw (s₂, i₁) (rw found (rw limit refl)),
        rw (s₃, i₂) (rw found (rw limit refl)),
      )
