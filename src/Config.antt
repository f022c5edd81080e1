-- ===== src/Config.antt =====
-- crates/shapeport-core/src/config.rs: the runtime configuration and the overlay of a configuration
-- file on the defaults. The decoding of YAML is serde's: a file is a `FileConfig` here. A `PathBuf` is
-- a `Text`, a duration is in seconds, and a planner threshold is a score.
pub mod File
use shapeport.Prelude.{
  ℕ, ◌*◌, Text, text_eq, codes, Bool, false, Option, none, some, List, [], if◌then◌else◌,
}
use shapeport.Planner.Points.{Threshold, default_auto_accept, direct_score}

pub data InferMode : Type 0 where
  off conservative aggressive : InferMode

unfoldable pub parse_infer_mode : Text → Option InferMode
unfolding text_eq
parse_infer_mode raw =
    if text_eq raw (codes "none")
    then some InferMode.off
    else if text_eq raw (codes "conservative")
    then some InferMode.conservative
    else if text_eq raw (codes "aggressive")
    then some InferMode.aggressive
    else none

pub record Limits : Type 0 where
  pub max_input_bytes : ℕ
  pub max_output_bytes : ℕ
  pub max_schema_depth : ℕ
  pub max_nesting_depth : ℕ
  pub max_rows : ℕ
  pub max_inline_bytes : ℕ
  pub max_inline_rows : ℕ
  pub timeout : ℕ

abbrev pub default_limits : Limits
default_limits = record {
  max_input_bytes = 10 * 1024 * 1024 * 1024;
  max_output_bytes = 10 * 1024 * 1024 * 1024;
  max_schema_depth = 64;
  max_nesting_depth = 128;
  max_rows = 50000000;
  max_inline_bytes = 1048576;
  max_inline_rows = 1000;
  timeout = 300;
}

pub record FilesystemPolicy : Type 0 where
  pub read_roots : List Text
  pub write_roots : List Text

pub record PlannerConfig : Type 0 where
  pub auto_accept_threshold : Threshold
  pub ambiguity_threshold : Threshold

pub record McpConfig : Type 0 where
  pub inline_max_bytes : ℕ
  pub inline_max_rows : ℕ
  pub artifact_ttl_secs : ℕ
  pub artifact_max_bytes : ℕ
  pub local_filesystem : Bool
  pub origin_allowlist : List Text
  pub bearer_token : Option Text

abbrev pub default_mcp : McpConfig
default_mcp = record {
  inline_max_bytes = 1048576;
  inline_max_rows = 1000;
  artifact_ttl_secs = 3600;
  artifact_max_bytes = 1073741824;
  local_filesystem = false;
  origin_allowlist = [];
  bearer_token = none;
}

pub record RuntimeConfig : Type 0 where
  pub limits : Limits
  pub filesystem : FilesystemPolicy
  pub planner : PlannerConfig
  pub inference : InferMode
  pub sample_rows : ℕ
  pub mcp : McpConfig
  pub batch_rows : ℕ
  pub null_spellings : List Text

abbrev pub default_planner : PlannerConfig
default_planner = record {
  auto_accept_threshold = Threshold.units default_auto_accept;
  ambiguity_threshold = Threshold.units direct_score;
}

-- `RuntimeConfig::default`, which derives zero for the counts.
abbrev pub default_config : RuntimeConfig
default_config = record {
  limits = default_limits;
  filesystem = record { read_roots = []; write_roots = [] };
  planner = default_planner;
  inference = InferMode.conservative;
  sample_rows = 0;
  mcp = default_mcp;
  batch_rows = 0;
  null_spellings = [];
}
