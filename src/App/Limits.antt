-- ===== src/App/Limits.antt =====
-- app.rs: the limits that the services check, and what a source that is loaded keeps.
use shapeport.Prelude.{
  ℕ, ltb, ◌≤◌, ◌<◌, ◌≡◌, refl, inl, inr, subst, false, Bool-cases, Text, text_eq, codes, length,
  All, Option, none, some, List, [], ◌∷◌, arith,
}
use shapeport.Error
use shapeport.Error.{Result, ok, err, ◌>>=◌, >>=-eq-ok, ok_inj, err_ok}
use shapeport.Value.{Value}
use shapeport.Functions.Args.{is_prefix}
use shapeport.Config.{RuntimeConfig}
use shapeport.Security.Components.{PathBuf}
use shapeport.Security.Files.{FileSystem, Metadata, Bytes}
use shapeport.Security.{resolve_path, read_limited}
use shapeport.Security.Artifacts.{artifact_scheme}
use shapeport.Formats.Adapters.{Adapters}
use shapeport.App.{
  SourceSpec, value_depth, check_row_limit, check_output_bytes, check_nesting_depth, load_stdin,
  load_uri, load_bytes, load_source,
}

not_below : (a b : ℕ) → ltb a b ≡ false → b ≤ a
not_below a b h = ground arith

pub rows-within :
    (rows : ℕ) (config : RuntimeConfig)
    → check_row_limit rows config ≡ ok tt
    → rows ≤ config.limits.max_rows
unfolding check_row_limit
rows-within rows config h = ground arith

pub rows-over :
    (rows : ℕ) (config : RuntimeConfig)
    → config.limits.max_rows < rows
    → check_row_limit rows config ≡ err (Error.limit "max_rows")
unfolding check_row_limit
rows-over rows config h = ground arith

pub output-within :
    (encoded : Bytes) (config : RuntimeConfig)
    → check_output_bytes encoded config ≡ ok tt
    → length encoded ≤ config.limits.max_output_bytes
unfolding check_output_bytes
output-within encoded config h = ground arith

pub depth-within :
    (records : List Value) (config : RuntimeConfig)
    → check_nesting_depth records config ≡ ok tt
    → All (λ v. value_depth v ≤ config.limits.max_nesting_depth) records
unfolding check_nesting_depth
depth-within [] config h = tt
depth-within (v ∷ rest) config h =
    elim (Bool-cases (ltb config.limits.max_nesting_depth (value_depth v))) [
      | inl deep ↦ absurd (err_ok (rw deep at h))
      | inr fine ↦ (not_below _ _ fine, depth-within rest config (rw fine at h))
    ]

module _ (adapters : Adapters) {World : Type 0} (fs : FileSystem World) where
  -- `len` of the metadata of a file is the number of bytes that reading it gives.
  abbrev pub LengthLaw : World → Type 0
  LengthLaw w =
      (p : PathBuf) (meta : Metadata) (b : Bytes)
      → fs.metadata w p ≡ ok meta
      → fs.read w p ≡ ok b
      → length b ≡ meta.size

  read_limited-within :
      (w : World) (p : PathBuf) (max_bytes : ℕ) (bytes : Bytes)
      → LengthLaw w
      → read_limited fs w p max_bytes ≡ ok bytes
      → length bytes ≤ max_bytes
  unfolding read_limited
  read_limited-within w p max_bytes bytes law h =
      let (meta, found, h₁) = >>=-eq-ok (fs.metadata w p) _ h in
      elim (Bool-cases (ltb max_bytes meta.size)) [
        | inl big ↦ absurd (err_ok (rw big at h₁))
        | inr small ↦ rw (law p meta bytes found (rw small at h₁)) (not_below _ _ small)
      ]

  load_stdin-within :
      (w : World) (config : RuntimeConfig) (loaded : Bytes × Option PathBuf)
      → load_stdin adapters fs w config ≡ ok loaded
      → length loaded.0 ≤ config.limits.max_input_bytes
  unfolding load_stdin
  load_stdin-within w config loaded h =
      let (bytes, found, h₁) = >>=-eq-ok (fs.read_stdin w) _ h in
      elim (Bool-cases (ltb config.limits.max_input_bytes (length bytes))) [
        | inl big ↦ absurd (err_ok (rw big at h₁))
        | inr small ↦
            subst (λ l. length l.0 ≤ config.limits.max_input_bytes) (ok_inj (rw small at h₁))
              (not_below _ _ small)
      ]

  load_uri-within :
      (w : World) (uri : Option Text) (config : RuntimeConfig) (loaded : Bytes × Option PathBuf)
      → LengthLaw w
      → ((raw : Text) → uri ≡ some raw → is_prefix artifact_scheme raw ≡ false)
      → load_uri adapters fs w uri config ≡ ok loaded
      → length loaded.0 ≤ config.limits.max_input_bytes
  unfolding load_uri
  load_uri-within w none config loaded law plain h = absurd (err_ok h)
  load_uri-within w (some raw) config loaded law plain h =
      elim (Bool-cases (text_eq raw (codes "-"))) [
        | inl dash ↦ load_stdin-within w config loaded (rw dash at h)
        | inr other ↦
            let h₀ = rw (plain raw refl) at (rw other at h) in
            let (path, resolved, h₁) =
              >>=-eq-ok (resolve_path fs w raw config.filesystem.read_roots) _ h₀ in
            let (bytes, limited, h₂) =
              >>=-eq-ok (read_limited fs w path config.limits.max_input_bytes) _ h₁ in
            subst (λ l. length l.0 ≤ config.limits.max_input_bytes) (ok_inj h₂)
              (read_limited-within w path config.limits.max_input_bytes bytes law limited)
      ]

  -- What `load_source` loads from given bytes, the standard input or a file, and not from an inline
  -- value or an artifact, has at most the configured number of bytes, where a file has the length that
  -- its metadata tells.
  pub load_source-within :
      (w : World) (source : SourceSpec) (config : RuntimeConfig) (loaded : Bytes × Option PathBuf)
      → LengthLaw w
      → source.inline ≡ none
      → ((raw : Text) → source.uri ≡ some raw → is_prefix artifact_scheme raw ≡ false)
      → load_source adapters fs w source config ≡ ok loaded
      → length loaded.0 ≤ config.limits.max_input_bytes
  unfolding load_source load_bytes
  load_source-within w source config loaded law no_inline plain h =
      from_bytes source.bytes (rw no_inline at h)
    where
      from_bytes :
          (given : Option Bytes)
          → load_bytes adapters fs w given source.uri config ≡ ok loaded
          → length loaded.0 ≤ config.limits.max_input_bytes
      from_bytes none k = load_uri-within w source.uri config loaded law plain k
      from_bytes (some bytes) k =
          elim (Bool-cases (ltb config.limits.max_input_bytes (length bytes))) [
            | inl big ↦ absurd (err_ok (rw big at k))
            | inr small ↦
                subst (λ l. length l.0 ≤ config.limits.max_input_bytes) (ok_inj (rw small at k))
                  (not_below _ _ small)
          ]
