-- ===== src/Mcp/Reload.antt =====
-- crates/shapeport-mcp/src/lib.rs and app.rs: an artifact that a tool returns, as the next source.
use shapeport.Prelude.{
  ℕ, ◌≡◌, ◌≤◌, refl, inl, inr, ap, sym, ◌∙◌, Bool, true, false, Text, text_eq, codes, Option, none,
  some, ◌++◌, if◌then◌else◌,
}
use shapeport.Error
use shapeport.Error.{Result, ok, err, ◌>>=◌}
use shapeport.Functions.Args.{is_prefix}
use shapeport.Config.{RuntimeConfig}
use shapeport.Security.Components.{PathBuf}
use shapeport.Security.Files.{FileSystem, Metadata, Bytes}
use shapeport.Security.Artifacts.{ArtifactMeta, artifact_scheme, read_artifact, write_artifact}
use shapeport.Security.Digests.{IsDigest, is_prefix_append}
use shapeport.Security.Store.{is_fresh, read_artifact-write_artifact}
use shapeport.Formats.{FormatId}
use shapeport.Formats.Adapters.{Adapters}
use shapeport.App.{SourceSpec, load_uri, load_bytes, load_source}
use shapeport.App.Requests.{TransformResult}
use shapeport.Mcp.{ArtifactOut, DataOut, pack_data}
use shapeport.Mcp.Packed.{pack_data-kept}

-- A source that is named by a URI.
abbrev pub at_uri : Text → Option FormatId → SourceSpec
at_uri uri format = record { uri = some uri; inline = none; format = format; bytes = none }

not_dash : (digest : Text) → text_eq (artifact_scheme ++ digest) (codes "-") ≡ false
unfolding text_eq
not_dash digest = refl

-- Bytes with no path.
abbrev pathless : Bytes → Result (Bytes × Option PathBuf)
pathless bytes = ok (bytes, none)

module _ (adapters : Adapters) {World : Type 0} (fs : FileSystem World) where
  uri-artifact :
      (w : World) (raw : Text) (config : RuntimeConfig)
      → text_eq raw (codes "-") ≡ false
      → is_prefix artifact_scheme raw ≡ true
      → load_uri adapters fs w (some raw) config ≡ (read_artifact fs w raw config >>= pathless)
  unfolding load_uri
  uri-artifact w raw config no_dash scheme = rw no_dash (rw scheme refl)

  load-artifact :
      (w : World) (digest : Text) (format : Option FormatId) (config : RuntimeConfig)
      → load_source adapters fs w (at_uri (artifact_scheme ++ digest) format) config
        ≡ (read_artifact fs w (artifact_scheme ++ digest) config >>= pathless)
  unfolding load_source load_bytes
  load-artifact w digest format config =
      uri-artifact w (artifact_scheme ++ digest) config (not_dash digest)
        (is_prefix_append artifact_scheme digest)

  module _ (compute_digest : Bytes → Text) (mtime_plus_ttl : ℕ → ℕ → Option Text) where
    -- Where digests are 64 lowercase hexadecimal digits, no file changed since and the time to live is
    -- below 2^64, a packed result that names an artifact was written by `write_artifact`, and a source of
    -- that name loads the result's bytes while the time since the written file's modification time is
    -- below the time to live, and is refused as expired from then on or when that time lies ahead.
    pub load_source-pack_data :
        (w w' later : World) (result : TransformResult) (format : FormatId) (hint : Option FormatId)
        (config : RuntimeConfig) (out : DataOut) (artifact : ArtifactOut)
        → pack_data adapters fs compute_digest mtime_plus_ttl w result format config ≡ ok (w', out)
        → out.artifact ≡ some artifact
        → ((b : Bytes) → IsDigest (compute_digest b))
        → ((p : PathBuf) → fs.read later p ≡ fs.read w' p)
        → ((p : PathBuf) → fs.metadata later p ≡ fs.metadata w' p)
        → config.mcp.artifact_ttl_secs ≤ 18446744073709551615
        → (meta : ArtifactMeta) × (stat : Metadata) × (mtime : ℕ) × (write_artifact fs
              compute_digest mtime_plus_ttl w result.bytes config
            ≡ ok (w', meta))
          × (fs.metadata w' meta.path ≡ ok stat)
          × (stat.modified ≡ ok mtime)
          × (load_source adapters fs later (at_uri artifact.uri hint) config ≡ (
              if is_fresh (fs.now later) mtime config.mcp.artifact_ttl_secs
              then ok (result.bytes, none)
              else err (Error.limit "artifact_expired")))
    load_source-pack_data w w' later result format hint config out artifact h named hex same_bytes
          same_stat small =
        elim (pack_data-kept adapters fs compute_digest mtime_plus_ttl w w' result format config out
          h) [
            | inl kept ↦ absurd (none_some kept.no_artifact named)
            | inr stored ↦
                let (mtime, stat, found, changed, read) =
                  read_artifact-write_artifact fs compute_digest mtime_plus_ttl w w' later
                    result.bytes config stored.meta stored.written hex (same_bytes stored.meta.path)
                    (same_stat stored.meta.path) small in
                let same : artifact ≡ stored.artifact = some_inj (sym named ∙ stored.named) in
                (
                  stored.meta,
                  stat,
                  mtime,
                  stored.written,
                  found,
                  changed,
                  rw same (
                      rw stored.uri (
                        load-artifact later stored.meta.digest hint config
                        ∙ ap (λ (r : Result Bytes). r >>= pathless) read
                        ∙ bound (is_fresh (fs.now later) mtime config.mcp.artifact_ttl_secs)
                            result.bytes)),
                )
          ]
      where
        none_some : {o : Option ArtifactOut} → o ≡ none → o ≡ some artifact → ⊥
        none_some a b = cc (a, b)

        some_inj : {a b : ArtifactOut} → some a ≡ some b → a ≡ b
        some_inj e = cc e

        bound :
            (fresh : Bool) (bytes : Bytes)
            → ((if fresh then ok bytes else err (Error.limit "artifact_expired")) >>= pathless)
              ≡ (if fresh then ok (bytes, none) else err (Error.limit "artifact_expired"))
        bound true bytes = refl
        bound false bytes = refl
