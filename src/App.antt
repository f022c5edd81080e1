-- ===== src/App.antt =====
-- crates/shapeport-core/src/app.rs: the services that the command line and the MCP server share, here
-- the sources and the limits. The diagnostics' messages are left out, as everywhere.
pub mod Requests
pub mod Services
pub mod Limits
pub mod Inversion
pub mod Outputs
pub mod Verdicts
pub mod Querying
use shapeport.Prelude.{
  ℕ, ltb, ◌+◌, Text, text_eq, codes, length, not, Bool, true, false, Option, none, some, List, [],
  ◌∷◌, if◌then◌else◌,
}
use shapeport.Error
use shapeport.Error.{Result, ok, err, ◌>>=◌}
use shapeport.Value.{Value, Items, Fields, no_items, item, no_fields, field}
use shapeport.Functions.Args.{is_prefix}
use shapeport.Config.{RuntimeConfig}
use shapeport.Security.Components.{PathBuf}
use shapeport.Security.Files.{FileSystem, Bytes}
use shapeport.Security.{resolve_path, read_limited}
use shapeport.Security.Artifacts.{artifact_scheme, read_artifact}
use shapeport.Formats.{FormatId}
use shapeport.Formats.Adapters.{Adapters}

pub record SourceSpec : Type 0 where
  pub uri : Option Text
  pub inline : Option Value
  pub format : Option FormatId
  pub bytes : Option Bytes

-- The larger of two depths, as `max` keeps it.
unfoldable pub max_of : ℕ → ℕ → ℕ
max_of a b = if ltb a b then b else a

unfoldable mutual
  unfolding max_of

  pub value_depth : Value → ℕ
  value_depth (Value.object map) = 1 + fields_depth map
  value_depth (Value.array items) = 1 + items_depth items
  value_depth _ = 1

  -- `max().unwrap_or(0)` over the children.
  pub fields_depth : Fields → ℕ
  fields_depth no_fields = 0
  fields_depth (field k v rest) = max_of (value_depth v) (fields_depth rest)

  pub items_depth : Items → ℕ
  items_depth no_items = 0
  items_depth (item v rest) = max_of (value_depth v) (items_depth rest)

unfoldable pub check_row_limit : ℕ → RuntimeConfig → Result (Unit {0})
check_row_limit rows config =
    if ltb config.limits.max_rows rows then err (Error.limit "max_rows") else ok tt

unfoldable pub check_output_bytes : Bytes → RuntimeConfig → Result (Unit {0})
check_output_bytes encoded config =
    if ltb config.limits.max_output_bytes (length encoded)
    then err (Error.limit "max_output_bytes")
    else ok tt

unfoldable pub check_nesting_depth : List Value → RuntimeConfig → Result (Unit {0})
unfolding value_depth
check_nesting_depth [] config = ok tt
check_nesting_depth (v ∷ rest) config =
    let later = check_nesting_depth rest config in
    if ltb config.limits.max_nesting_depth (value_depth v)
    then err (Error.limit "max_nesting_depth")
    else later

module _ (adapters : Adapters) {World : Type 0} (fs : FileSystem World) where
  unfoldable pub load_stdin : World → RuntimeConfig → Result (Bytes × Option PathBuf)
  load_stdin w config = fs.read_stdin w >>= λ bytes.
      if ltb config.limits.max_input_bytes (length bytes)
      then err (Error.limit "max_input_bytes")
      else ok (bytes, none)

  -- The part of `load_source` for a URI.
  unfoldable pub load_uri : World → Option Text → RuntimeConfig → Result (Bytes × Option PathBuf)
  unfolding load_stdin text_eq is_prefix resolve_path read_limited read_artifact
  load_uri w none config = err (Error.usage "missing_source")
  load_uri w (some uri) config =
      if text_eq uri (codes "-")
      then load_stdin w config
      else if is_prefix artifact_scheme uri
      then (read_artifact fs w uri config >>= λ bytes. ok (bytes, none))
      else resolve_path fs w uri config.filesystem.read_roots >>= λ path.
          read_limited fs w path config.limits.max_input_bytes >>= λ bytes. ok (bytes, some path)

  -- The part of `load_source` for bytes, before a URI.
  unfoldable pub load_bytes :
      World → Option Bytes → Option Text → RuntimeConfig → Result (Bytes × Option PathBuf)
  unfolding load_uri
  load_bytes w (some bytes) uri config =
      if ltb config.limits.max_input_bytes (length bytes)
      then err (Error.limit "max_input_bytes")
      else ok (bytes, none)
  load_bytes w none uri config = load_uri w uri config

  abbrev load_inline :
      World → Option Value → SourceSpec → RuntimeConfig → Result (Bytes × Option PathBuf)
  load_inline w (some value) source config =
      adapters.json_to_vec value >>= λ bytes. ok (bytes, none)
  load_inline w none source config = load_bytes w source.bytes source.uri config

  unfoldable pub load_source : World → SourceSpec → RuntimeConfig → Result (Bytes × Option PathBuf)
  unfolding load_bytes
  load_source w source config = load_inline w source.inline source config
