-- ===== src/Security/Artifacts.antt =====
-- security.rs: the store of artifacts. The digest (the `sha2` and `hex` crates) is a parameter, and so
-- is `mtime_plus_ttl`: `chrono`'s text of a time and a time to live (read as signed), or none where
-- their sum is out of its range.
use shapeport.Prelude.{
  ℕ, ◌-◌, ◌/◌, ltb, leb, ◌==◌, Text, codes, is_digit, all, length, Bool, true, not, ◌&&◌, ◌||◌,
  Option, none, some, List, [], ◌∷◌, if◌then◌else◌,
}
use shapeport.Error
use shapeport.Error.{Error, Result, ok, err, ◌>>=◌, ◌>>◌}
use shapeport.Functions.Args.{utf8_len}
use shapeport.Config.{RuntimeConfig}
use shapeport.Security.Components.{PathBuf, path_from, join}
use shapeport.Security.Files.{FileSystem, Metadata, Bytes}
use shapeport.Security.{strip_prefix}

pub record ArtifactMeta : Type 0 where
  pub digest : Text
  pub path : PathBuf
  pub size : ℕ
  pub expires_at : Text

abbrev pub artifact_scheme : Text
artifact_scheme = codes "shapeport-artifact://"

-- `is_ascii_hexdigit`, and `is_uppercase` of a hexadecimal digit.
unfoldable pub is_hexdigit : ℕ → Bool
unfolding is_digit
is_hexdigit c = is_digit c || leb b'a' c && leb c b'f' || leb b'A' c && leb c b'F'

unfoldable pub is_ascii_upper : ℕ → Bool
is_ascii_upper c = leb b'A' c && leb c b'Z'

unfoldable pub is_lower_hex : ℕ → Bool
unfolding is_hexdigit is_ascii_upper
is_lower_hex c = is_hexdigit c && not (is_ascii_upper c)

unfoldable pub checked_digest : Option Text → Result Text
unfolding is_lower_hex utf8_len
checked_digest none = err (Error.security "invalid_artifact_uri")
checked_digest (some digest) =
    if not (utf8_len digest == 64) || not (all is_lower_hex digest)
    then err (Error.security "invalid_artifact_uri")
    else ok digest

unfoldable pub parse_artifact_uri : Text → Result Text
unfolding checked_digest strip_prefix
parse_artifact_uri uri = checked_digest (strip_prefix artifact_scheme uri)

-- `artifact_dir`, by the write roots.
unfoldable pub dir_of : List Text → Result PathBuf
unfolding path_from join
dir_of [] = err (Error.security "no_write_root")
dir_of (root ∷ roots) = ok (join (path_from root) (path_from (codes "artifacts")))

unfoldable pub artifact_dir : RuntimeConfig → Result PathBuf
unfolding dir_of
artifact_dir config = dir_of config.filesystem.write_roots

-- Times are in nanoseconds; `Duration::MAX` has 2^64 - 1 whole seconds.
unfoldable pub elapsed_secs : ℕ → ℕ → ℕ
elapsed_secs now mtime = if leb mtime now then (now - mtime) / 1000000000 else 18446744073709551615

unfoldable pub is_expired : ℕ → ℕ → ℕ → Bool
unfolding elapsed_secs
is_expired now mtime ttl_secs =
    if ttl_secs == 0 then true else leb ttl_secs (elapsed_secs now mtime)

-- `fs::metadata` failing, of any cause.
abbrev pub or_not_found : Result Metadata → Result Metadata
or_not_found (ok meta) = ok meta
or_not_found (err e) = err (Error.security "artifact_not_found")

-- The sum of a time and a time to live that `chrono` cannot represent panics, which ends the call: the
-- model has an error of its own for it, which the code never returns.
abbrev pub panicked : Error
panicked = Error.internal

abbrev pub or_panicked : Option Text → Result Text
or_panicked none = err panicked
or_panicked (some text) = ok text

module _ {World : Type 0} (fs : FileSystem World) where
  unfoldable pub read_artifact : World → Text → RuntimeConfig → Result Bytes
  unfolding parse_artifact_uri artifact_dir is_expired join path_from
  read_artifact w uri config = parse_artifact_uri uri >>= λ digest. artifact_dir config >>= λ dir.
      let path : PathBuf = join dir (path_from digest) in
      or_not_found (fs.metadata w path) >>= λ meta. meta.modified >>= λ mtime.
      if is_expired (fs.now w) mtime config.mcp.artifact_ttl_secs
      then err (Error.limit "artifact_expired")
      else fs.read w path

  module _ (compute_digest : Bytes → Text) (mtime_plus_ttl : ℕ → ℕ → Option Text) where
    unfoldable pub write_artifact : World → Bytes → RuntimeConfig → Result (World × ArtifactMeta)
    unfolding artifact_dir join path_from
    write_artifact w bytes config =
        if ltb config.mcp.artifact_max_bytes (length bytes)
        then err (Error.limit "artifact_max_bytes")
        else artifact_dir config >>= λ dir. fs.create_dir_all w dir >>= λ w'.
            let path : PathBuf = join dir (path_from (compute_digest bytes)) in
            fs.write w' path bytes >>= λ w''. fs.metadata w'' path >>= λ meta.
            meta.modified >>= λ mtime.
            or_panicked (mtime_plus_ttl mtime config.mcp.artifact_ttl_secs) >>= λ expires_at. ok (
              w'',
              record {
                digest = compute_digest bytes;
                path = path;
                size = length bytes;
                expires_at = expires_at;
              },
            )
