-- ===== src/Mcp/Packed.antt =====
-- crates/shapeport-mcp/src/lib.rs: what `pack_data` returns inline, and what it stores.
use shapeport.Prelude.{
  ℕ, Option, ltb, ◌≤◌, ◌<◌, true, ◌≡◌, ◌⊎◌, inl, inr, refl, subst, Bool, false, Bool-cases, ◌||◌,
  length, none, some, Text, ◌++◌, arith,
}
use shapeport.Error.{ok, >>=-eq-ok, ok_inj}
use shapeport.Config.{RuntimeConfig}
use shapeport.Security.Files.{FileSystem, Bytes}
use shapeport.Security.Artifacts.{ArtifactMeta, artifact_scheme, write_artifact}
use shapeport.Formats.{FormatId}
use shapeport.Formats.Adapters.{Adapters}
use shapeport.App.Requests.{TransformResult}
use shapeport.Mcp.{
  ArtifactOut, DataOut, is_binary_format, pack_artifact, payload_of, receipt_of, needs_artifact,
  pack_data,
}

three_false : (a b c : Bool) → (a || b || c) ≡ false → (a ≡ false) × (b ≡ false) × (c ≡ false)
three_false a b c h = ground arith

three_true :
    (a : Bool) (m n p q : ℕ) → (a || ltb m n || ltb p q) ≡ true → (a ≡ true) ⊎ ((m < n) ⊎ (p < q))
three_true true m n p q h = inl refl
three_true false m n p q h = elim (Bool-cases (ltb m n)) [
  | inl few ↦ inr (inl (ground arith))
  | inr many ↦ inr (inr (ground arith))
]

not_below : (a b : ℕ) → ltb a b ≡ false → b ≤ a
not_below a b h = ground arith

module _ (adapters : Adapters) {World : Type 0} (fs : FileSystem World)
    (compute_digest : Bytes → Text) (mtime_plus_ttl : ℕ → ℕ → Option Text) where
  -- An inline result: within the limits, a text format, and nothing written.
  pub record Inline (w w' : World) (result : TransformResult) (format : FormatId)
      (config : RuntimeConfig) (out : DataOut) : Type 0 where
    pub bytes_within : length result.bytes ≤ config.mcp.inline_max_bytes
    pub rows_within : length result.records ≤ config.mcp.inline_max_rows
    pub text_format : is_binary_format format ≡ false
    pub unchanged : w' ≡ w
    pub payload :
        out.result ≡ some (payload_of adapters fs compute_digest mtime_plus_ttl format result)
    pub no_artifact : out.artifact ≡ none

  -- A stored result: too large, or in a binary format; the bytes are written to the store, and the output names them by their URI.
  pub record Stored (w w' : World) (result : TransformResult) (format : FormatId)
      (config : RuntimeConfig) (out : DataOut) : Type 0 where
    pub not_small :
        (is_binary_format format ≡ true)
        ⊎ ((config.mcp.inline_max_bytes < length result.bytes)
            ⊎ (config.mcp.inline_max_rows < length result.records))
    pub meta : ArtifactMeta
    pub written :
        write_artifact fs compute_digest mtime_plus_ttl w result.bytes config ≡ ok (w', meta)
    pub artifact : ArtifactOut
    pub named : out.artifact ≡ some artifact
    pub uri : artifact.uri ≡ artifact_scheme ++ meta.digest
    pub size : artifact.bytes ≡ length result.bytes
    pub not_inline : out.result ≡ none

  pack_artifact-Stored :
      (w w' : World) (result : TransformResult) (format : FormatId) (config : RuntimeConfig)
      (out : DataOut)
      → needs_artifact adapters fs compute_digest mtime_plus_ttl result format config ≡ true
      → pack_artifact adapters fs compute_digest mtime_plus_ttl w result format config
          (receipt_of adapters fs compute_digest mtime_plus_ttl result format)
        ≡ ok (w', out)
      → Stored w w' result format config out
  unfolding pack_artifact needs_artifact
  pack_artifact-Stored w w' result format config out large h =
      let (stored, written, rest) =
        >>=-eq-ok (write_artifact fs compute_digest mtime_plus_ttl w result.bytes config) _ h in
      subst (λ p. Stored w p.0 result format config p.1) (ok_inj rest)
        (record {
          not_small = three_true _ _ _ _ _ large;
          meta = stored.1;
          written = written;
          artifact = _;
          named = refl;
          uri = refl;
          size = refl;
          not_inline = refl;
        })

  -- `pack_data` that succeeds returned the result inline, which is in a text format and within the
  -- configured bytes and rows, and wrote nothing; or it stored the bytes of a result in a binary format
  -- or beyond one of the limits as an artifact, and returned its URI in place of the result.
  pub pack_data-kept :
      (w w' : World) (result : TransformResult) (format : FormatId) (config : RuntimeConfig)
      (out : DataOut)
      → pack_data adapters fs compute_digest mtime_plus_ttl w result format config ≡ ok (w', out)
      → Inline w w' result format config out ⊎ Stored w w' result format config out
  unfolding pack_data needs_artifact
  pack_data-kept w w' result format config out h =
      elim (Bool-cases
        (needs_artifact adapters fs compute_digest mtime_plus_ttl result format config)) [
          | inl large ↦
              inr (pack_artifact-Stored w w' result format config out large (rw large at h))
          | inr small ↦
              let (text, few_bytes, few_rows) =
                three_false (is_binary_format format)
                  (ltb config.mcp.inline_max_bytes (length result.bytes))
                  (ltb config.mcp.inline_max_rows (length result.records)) small in
              inl (
                subst (λ p. Inline w p.0 result format config p.1) (ok_inj (rw small at h))
                  (record {
                    bytes_within = not_below _ _ few_bytes;
                    rows_within = not_below _ _ few_rows;
                    text_format = text;
                    unchanged = refl;
                    payload = refl;
                    no_artifact = refl;
                  }))
        ]
