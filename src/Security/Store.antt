-- ===== src/Security/Store.antt =====
-- security.rs: what is written to the store of artifacts, and read from it later.
use shapeport.Prelude.{
  ℕ, Option, inl, inr, ◌≡◌, refl, ap, subst, ◌∙◌, ◌≤◌, ◌-◌, ◌*◌, Bool, false, not, Bool-cases, ◌&&◌,
  leb, ltb, Text, length, ◌++◌, if◌then◌else◌, arith,
}
use shapeport.Error
use shapeport.Error.{Result, ok, err, ◌>>=◌, >>=-eq-ok}
use shapeport.Config.{RuntimeConfig}
use shapeport.Security.Components.{PathBuf, path_from, join}
use shapeport.Security.Files.{FileSystem, Metadata, Bytes}
use shapeport.Security.Artifacts.{
  ArtifactMeta, artifact_scheme, parse_artifact_uri, artifact_dir, elapsed_secs, is_expired,
  or_panicked, read_artifact, write_artifact,
}
use shapeport.Security.Digests.{IsDigest, parse_artifact_uri_iff}

-- Not younger than the time to live.
abbrev pub is_fresh : ℕ → ℕ → ℕ → Bool
is_fresh now mtime ttl_secs = leb mtime now && ltb (now - mtime) (ttl_secs * 1000000000)

expired_fresh :
    (now mtime ttl : ℕ)
    → ttl ≤ 18446744073709551615
    → is_expired now mtime ttl ≡ not (is_fresh now mtime ttl)
unfolding is_expired elapsed_secs
expired_fresh now mtime ttl h = ground arith

module _ {World : Type 0} (fs : FileSystem World) where
  read-steps :
      (w : World) (uri digest : Text) (dir : PathBuf) (meta : Metadata) (mtime : ℕ)
      (config : RuntimeConfig)
      → parse_artifact_uri uri ≡ ok digest
      → artifact_dir config ≡ ok dir
      → fs.metadata w (join dir (path_from digest)) ≡ ok meta
      → meta.modified ≡ ok mtime
      → config.mcp.artifact_ttl_secs ≤ 18446744073709551615
      → read_artifact fs w uri config ≡ (
          if is_fresh (fs.now w) mtime config.mcp.artifact_ttl_secs
          then fs.read w (join dir (path_from digest))
          else err (Error.limit "artifact_expired"))
  unfolding read_artifact
  read-steps w uri digest dir meta mtime config parsed there found changed small = rw parsed (
      rw there (
        rw found (
          rw changed (
            rw (expired_fresh (fs.now w) mtime config.mcp.artifact_ttl_secs small) (
              flip (is_fresh (fs.now w) mtime config.mcp.artifact_ttl_secs)
                (fs.read w (join dir (path_from digest))) _)))))
    where
      flip : (b : Bool) (x y : Result Bytes) → (if not b then y else x) ≡ (if b then x else y)
      flip b x y = ground arith

  module _ (compute_digest : Bytes → Text) (mtime_plus_ttl : ℕ → ℕ → Option Text) where
    -- What is known of a successful write: the size, the place, the content and the time.
    record Written (w' : World) (bytes : Bytes) (config : RuntimeConfig) (meta : ArtifactMeta)
        : Type 0 where
      size : length bytes ≤ config.mcp.artifact_max_bytes
      digest : meta.digest ≡ compute_digest bytes
      dir : PathBuf
      there : artifact_dir config ≡ ok dir
      path : meta.path ≡ join dir (path_from (compute_digest bytes))
      content : fs.read w' meta.path ≡ ok bytes
      stat : Metadata
      found : fs.metadata w' meta.path ≡ ok stat
      mtime : ℕ
      changed : stat.modified ≡ ok mtime

    write-Written :
        (w w' : World) (bytes : Bytes) (config : RuntimeConfig) (meta : ArtifactMeta)
        → write_artifact fs compute_digest mtime_plus_ttl w bytes config ≡ ok (w', meta)
        → Written w' bytes config meta
    unfolding write_artifact
    write-Written w w' bytes config meta h =
        elim (Bool-cases (ltb config.mcp.artifact_max_bytes (length bytes))) [
          | inl big ↦ absurd (err_ok (rw big at h))
          | inr small ↦
              let (dir, there, h₁) = >>=-eq-ok (artifact_dir config) _ (rw small at h) in
              let (made, created, h₂) = >>=-eq-ok (fs.create_dir_all w dir) _ h₁ in
              let (after, done, h₃) =
                >>=-eq-ok (fs.write made (join dir (path_from (compute_digest bytes))) bytes) _
                  h₂ in
              let (stat, found, h₄) =
                >>=-eq-ok (fs.metadata after (join dir (path_from (compute_digest bytes)))) _ h₃ in
              let (mtime, changed, h₅) = >>=-eq-ok stat.modified _ h₄ in
              let (expires_at, dated, h₆) =
                >>=-eq-ok (or_panicked (mtime_plus_ttl mtime config.mcp.artifact_ttl_secs)) _ h₅ in
              subst (λ p. Written p.0 bytes config p.1) (ok_inj h₆)
                (record {
                  size = omega (arith, ltb_le _ _ small);
                  digest = refl;
                  dir = dir;
                  there = there;
                  path = refl;
                  content = fs.read_write made after _ bytes done;
                  stat = stat;
                  found = found;
                  mtime = mtime;
                  changed = changed;
                })
        ]
      where
        err_ok : {A : Type 0} {e : Error.Error} {a : A} → err e ≡ ok a → ⊥
        err_ok q = cc q

        ok_inj : {A : Type 0} {x y : A} → ok x ≡ ok y → x ≡ y
        ok_inj q = cc q

        ltb_le : (a b : ℕ) → ltb a b ≡ false → b ≤ a
        ltb_le a b q = ground arith

    -- A write that succeeds wrote at most the configured number of bytes, to the place of their digest
    -- in the first write root, and reports that digest.
    pub write_artifact-bounds :
        (w w' : World) (bytes : Bytes) (config : RuntimeConfig) (meta : ArtifactMeta)
        → write_artifact fs compute_digest mtime_plus_ttl w bytes config ≡ ok (w', meta)
        → (length bytes ≤ config.mcp.artifact_max_bytes)
          × (meta.digest ≡ compute_digest bytes)
          × ((dir : PathBuf) × (artifact_dir config ≡ ok dir)
              × (meta.path ≡ join dir (path_from meta.digest)))
    write_artifact-bounds w w' bytes config meta h =
        let r = write-Written w w' bytes config meta h in
        (r.size, r.digest, (r.dir, r.there, rw r.digest r.path))

    -- Where digests are 64 lowercase hexadecimal digits and the file was left alone since, the artifact
    -- of a successful write is read back by its URI while its age is below the time to live, and is
    -- refused as expired from then on, or when its time lies ahead of the clock.
    pub read_artifact-write_artifact :
        (w w' later : World) (bytes : Bytes) (config : RuntimeConfig) (meta : ArtifactMeta)
        → write_artifact fs compute_digest mtime_plus_ttl w bytes config ≡ ok (w', meta)
        → ((b : Bytes) → IsDigest (compute_digest b))
        → fs.read later meta.path ≡ fs.read w' meta.path
        → fs.metadata later meta.path ≡ fs.metadata w' meta.path
        → config.mcp.artifact_ttl_secs ≤ 18446744073709551615
        → (mtime : ℕ) × (stat : Metadata) × (fs.metadata w' meta.path ≡ ok stat)
          × (stat.modified ≡ ok mtime)
          × (read_artifact fs later (artifact_scheme ++ meta.digest) config ≡ (
              if is_fresh (fs.now later) mtime config.mcp.artifact_ttl_secs
              then ok bytes
              else err (Error.limit "artifact_expired")))
    read_artifact-write_artifact w w' later bytes config meta h hex same_bytes same_stat small =
        let r = write-Written w w' bytes config meta h in
        let parsed : parse_artifact_uri (artifact_scheme ++ meta.digest)
            ≡ ok (compute_digest bytes) =
          (parse_artifact_uri_iff (artifact_scheme ++ meta.digest) (compute_digest bytes)).1
            (ap (λ d. artifact_scheme ++ d) r.digest, hex bytes) in
        (
          r.mtime,
          r.stat,
          r.found,
          r.changed,
          rw (← (same_bytes ∙ r.content)) (
              rw r.path (
                read-steps later (artifact_scheme ++ meta.digest) (compute_digest bytes) r.dir
                  r.stat r.mtime config parsed r.there
                  (subst (λ p. fs.metadata later p ≡ ok r.stat) r.path (same_stat ∙ r.found))
                  r.changed small)),
        )
