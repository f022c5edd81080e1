-- ===== src/Config/File.antt =====
-- config.rs: `FileConfig` and `into_runtime`.
use shapeport.Prelude.{ℕ, Text, ◌∷◌, [], codes, is_empty, Option, none, some, List, if◌then◌else◌}
use shapeport.Config.{InferMode, parse_infer_mode, RuntimeConfig, default_config}

pub record FileInference : Type 0 where
  pub mode : Option Text
  pub sample_rows : Option ℕ

pub record FileFilesystem : Type 0 where
  pub read_roots : Option (List Text)
  pub write_roots : Option (List Text)

pub record FileLimits : Type 0 where
  pub max_input_bytes : Option ℕ
  pub max_output_bytes : Option ℕ
  pub max_schema_depth : Option ℕ
  pub max_nesting_depth : Option ℕ
  pub timeout_seconds : Option ℕ
  pub max_rows : Option ℕ

pub record FileMcpInline : Type 0 where
  pub max_bytes : Option ℕ
  pub max_rows : Option ℕ

pub record FileMcpArtifacts : Type 0 where
  pub max_bytes : Option ℕ
  pub ttl_seconds : Option ℕ

pub record FileMcp : Type 0 where
  pub allowed_origins : Option (List Text)
  pub inline_result : FileMcpInline
  pub artifacts : FileMcpArtifacts
  pub token : Option Text

pub record FileConfig : Type 0 where
  pub inference : FileInference
  pub filesystem : FileFilesystem
  pub limits : FileLimits
  pub mcp : FileMcp

-- `if let Some(v) = file.x { cfg.x = v; }`
abbrev pub overlay {ℓ} : {A : Type ℓ} → Option A → A → A
overlay none current = current
overlay (some v) current = v

-- A mode that is not known is skipped.
unfoldable pub overlay_mode : Option Text → InferMode → InferMode
overlay_mode none current = current
overlay_mode (some raw) current = overlay (parse_infer_mode raw) current

unfoldable pub apply_inference : FileInference → RuntimeConfig → RuntimeConfig
unfolding overlay_mode
apply_inference file cfg = record cfg {
  inference = overlay_mode file.mode cfg.inference;
  sample_rows = overlay file.sample_rows cfg.sample_rows;
}

unfoldable pub apply_filesystem : FileFilesystem → RuntimeConfig → RuntimeConfig
apply_filesystem file cfg = record cfg {
  filesystem = record {
    read_roots = overlay file.read_roots cfg.filesystem.read_roots;
    write_roots = overlay file.write_roots cfg.filesystem.write_roots;
  };
}

unfoldable pub apply_limits : FileLimits → RuntimeConfig → RuntimeConfig
apply_limits file cfg = record cfg {
  limits = record cfg.limits {
    max_input_bytes = overlay file.max_input_bytes cfg.limits.max_input_bytes;
    max_output_bytes = overlay file.max_output_bytes cfg.limits.max_output_bytes;
    max_schema_depth = overlay file.max_schema_depth cfg.limits.max_schema_depth;
    max_nesting_depth = overlay file.max_nesting_depth cfg.limits.max_nesting_depth;
    timeout = overlay file.timeout_seconds cfg.limits.timeout;
    max_rows = overlay file.max_rows cfg.limits.max_rows;
  };
}

unfoldable pub apply_security : FileFilesystem → FileLimits → RuntimeConfig → RuntimeConfig
unfolding apply_filesystem apply_limits
apply_security filesystem limits cfg = apply_limits limits (apply_filesystem filesystem cfg)

-- A token that is there replaces the old one.
abbrev pub or_keep : Option Text → Option Text → Option Text
or_keep none current = current
or_keep (some token) current = some token

unfoldable pub apply_mcp : FileMcp → RuntimeConfig → RuntimeConfig
apply_mcp file cfg = record cfg {
  mcp = record cfg.mcp {
    origin_allowlist = overlay file.allowed_origins cfg.mcp.origin_allowlist;
    inline_max_bytes = overlay file.inline_result.max_bytes cfg.mcp.inline_max_bytes;
    inline_max_rows = overlay file.inline_result.max_rows cfg.mcp.inline_max_rows;
    artifact_max_bytes = overlay file.artifacts.max_bytes cfg.mcp.artifact_max_bytes;
    artifact_ttl_secs = overlay file.artifacts.ttl_seconds cfg.mcp.artifact_ttl_secs;
    bearer_token = or_keep file.token cfg.mcp.bearer_token;
  };
}

unfoldable pub into_runtime : FileConfig → RuntimeConfig
unfolding apply_inference apply_security apply_mcp
into_runtime file =
    apply_mcp file.mcp
      (apply_security file.filesystem file.limits (apply_inference file.inference default_config))

-- `join` of a path with a relative name, of the standard library.
abbrev pub JoinPath : Type 0
JoinPath = Text → Text → Text

-- Roots that are not set are the working directory and a folder in it.
unfoldable pub with_cwd_roots : JoinPath → Text → RuntimeConfig → RuntimeConfig
with_cwd_roots join cwd cfg = record cfg {
  filesystem = record {
    read_roots = if is_empty cfg.filesystem.read_roots then cwd ∷ [] else cfg.filesystem.read_roots;
    write_roots =
        if is_empty cfg.filesystem.write_roots
        then join cwd (codes ".shapeport") ∷ []
        else cfg.filesystem.write_roots;
  };
}
