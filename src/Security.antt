-- ===== src/Security.antt =====
-- crates/shapeport-core/src/security.rs: the roots of the file system, the policy on URIs, the limits
-- on what is read, and the store of artifacts. The machine's state is passed on by what writes.
pub mod Components
pub mod Files
pub mod Roots
pub mod Artifacts
pub mod Digests
pub mod Store
use shapeport.Prelude.{
  ℕ, ltb, Text, text_eq, codes, is_empty, length, drop, ◌==◌, Bool, true, false, ◌&&◌, ◌||◌, Option,
  none, some, List, [], ◌∷◌, if◌then◌else◌,
}
use shapeport.Error
use shapeport.Error.{Result, ok, err, ◌>>=◌}
use shapeport.Functions.Args.{is_prefix}
use Components.{PathBuf, path_from, parent, file_name, join, path_starts_with}
use Files.{FileSystem, Bytes}

-- `str::strip_prefix`
unfoldable pub strip_prefix : Text → Text → Option Text
unfolding is_prefix
strip_prefix prefix s = if is_prefix prefix s then some (drop (length prefix) s) else none

-- `str::contains` of a text.
unfoldable pub contains_text : Text → Text → Bool
unfolding is_prefix
contains_text part [] = is_prefix part []
contains_text part (c ∷ s) = is_prefix part (c ∷ s) || contains_text part s

abbrev after_file_scheme : Text → Text → Result PathBuf
after_file_scheme raw rest =
    if is_prefix (codes "http") rest then err (Error.security "uri_denied") else ok (path_from rest)

abbrev plain_path : Text → Result PathBuf
plain_path raw =
    if contains_text (codes "://") raw
    then err (Error.security "uri_denied")
    else ok (path_from raw)

unfoldable pub strip_file_uri : Text → Result PathBuf
unfolding strip_prefix contains_text is_prefix path_from
strip_file_uri raw = elim (strip_prefix (codes "file://") raw) [
  | some rest ↦ after_file_scheme raw rest
  | none ↦ plain_path raw
]

module _ {World : Type 0} (fs : FileSystem World) where
  -- The name of a path, added to its parent's real path.
  unfoldable pub under_parent : PathBuf → PathBuf → Result PathBuf
  unfolding file_name join
  under_parent path real = elim (file_name path) [
    | some name ↦ ok (join real (path_from name))
    | none ↦ ok path
  ]

  unfoldable pub resolve_missing : World → PathBuf → Option PathBuf → Result PathBuf
  unfolding under_parent join
  resolve_missing w path none = ok path
  resolve_missing w path (some folder) =
      if is_empty folder
      then (fs.current_dir w >>= λ cwd. ok (join cwd path))
      else if fs.exists w folder
      then (fs.canonicalize w folder >>= λ real. under_parent path real)
      else ok path

  unfoldable pub canonicalize_or_parent : World → PathBuf → Result PathBuf
  unfolding resolve_missing parent
  canonicalize_or_parent w path =
      if fs.exists w path then fs.canonicalize w path else resolve_missing w path (parent path)

  -- Whether a path starts with a root, if the root resolves.
  unfoldable pub starts_with_root : PathBuf → Result PathBuf → Bool
  unfolding path_starts_with
  starts_with_root canonical (ok root) = path_starts_with canonical root
  starts_with_root canonical (err e) = false

  -- `roots.iter().any`
  unfoldable pub any_root : World → PathBuf → List PathBuf → Bool
  unfolding canonicalize_or_parent starts_with_root
  any_root w canonical [] = false
  any_root w canonical (root ∷ roots) =
      starts_with_root canonical (canonicalize_or_parent w root) || any_root w canonical roots

  unfoldable pub enforce_root : World → PathBuf → List PathBuf → Result PathBuf
  unfolding canonicalize_or_parent any_root
  enforce_root w path [] = canonicalize_or_parent w path
  enforce_root w path (root ∷ roots) = canonicalize_or_parent w path >>= λ canonical.
      if any_root w canonical (root ∷ roots)
      then ok canonical
      else err (Error.security "path_denied")

  -- The configured roots, as paths.
  unfoldable pub root_paths : List Text → List PathBuf
  unfolding path_from
  root_paths [] = []
  root_paths (root ∷ roots) = path_from root ∷ root_paths roots

  -- `resolve_read_path` under the read roots, `resolve_write_path` under the write roots.
  unfoldable pub resolve_path : World → Text → List Text → Result PathBuf
  unfolding strip_file_uri enforce_root root_paths
  resolve_path w raw roots = strip_file_uri raw >>= λ path. enforce_root w path (root_paths roots)

  unfoldable pub read_limited : World → PathBuf → ℕ → Result Bytes
  read_limited w path max_bytes = fs.metadata w path >>= λ meta.
      if ltb max_bytes meta.size then err (Error.limit "max_input_bytes") else fs.read w path
