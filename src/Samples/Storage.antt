-- ===== src/Samples/Storage.antt =====
-- Paths, artifacts and loads on the sample disk, and the theorems on them.
use shapeport.Prelude.{
  ℕ, Text, text_eq, codes, length, replicate, is_digit, ◌≤◌, ◌↔◌, ◌≡◌, refl, ap, subst, ◌++◌, false,
  Option, none, some, [], ◌∷◌, if◌then◌else◌, arith,
}
use shapeport.Error
use shapeport.Error.{Result, ok, err}
use shapeport.Functions.Args.{is_prefix}
use shapeport.Security.Components.{
  Component, PathBuf, split_onto, component_of, later_components, first_components, path_from, join,
  parent,
}
use shapeport.Security.Files.{Metadata, Bytes}
use shapeport.Security.{canonicalize_or_parent, enforce_root}
use shapeport.Security.Roots.{AnyUnder, enforce_root_iff, enforce_root-unresolved}
use shapeport.Security.Artifacts.{
  ArtifactMeta, artifact_scheme, is_hexdigit, is_ascii_upper, is_lower_hex, parse_artifact_uri,
  read_artifact, write_artifact,
}
use shapeport.Security.Digests.{IsDigest, parse_artifact_uri_iff}
use shapeport.Security.Store.{is_fresh, read_artifact-write_artifact}
use shapeport.App.{SourceSpec, load_source}
use shapeport.App.Limits.{load_source-within}
use shapeport.App.Requests.{TransformResult}
use shapeport.Formats.{FormatId}
use shapeport.Mcp.{ArtifactOut, DataOut, is_binary_format, needs_artifact, pack_artifact, pack_data}
use shapeport.Mcp.Reload.{at_uri, load_source-pack_data}
use shapeport.Samples.Disk.{Disk, disk, same_path, content, data_dir, fixed, rooted}

-- `/data/new/../../x`, where `/data/new` does not exist.
abbrev outside : PathBuf
outside =
    Component.normal (codes "new")
    ∷ Component.parent_dir
    ∷ Component.parent_dir
    ∷ Component.normal (codes "x")
    ∷ []

enforce_root_iff_example : (enforce_root disk [] data_dir (data_dir ∷ []) ≡ ok data_dir) ↔ (
    (canonicalize_or_parent disk [] data_dir ≡ ok data_dir)
    × AnyUnder disk [] data_dir (data_dir ∷ []))
enforce_root_iff_example = enforce_root_iff disk [] data_dir data_dir data_dir []

enforce_root-unresolved_example :
    enforce_root disk [] (data_dir ++ outside) (data_dir ∷ []) ≡ ok (data_dir ++ outside)
unfolding same_path text_eq content parent
enforce_root-unresolved_example =
    enforce_root-unresolved disk [] data_dir outside
      (data_dir
        ++ (Component.normal (codes "new") ∷ Component.parent_dir ∷ Component.parent_dir ∷ []))
      [] refl refl refl refl refl refl

abbrev zeros : Text
zeros = replicate 64 b'0'

parse_artifact_uri_iff_example :
    (parse_artifact_uri (artifact_scheme ++ zeros) ≡ ok zeros)
    ↔ ((artifact_scheme ++ zeros ≡ artifact_scheme ++ zeros) × IsDigest zeros)
parse_artifact_uri_iff_example = parse_artifact_uri_iff (artifact_scheme ++ zeros) zeros

abbrev note : Bytes
note = 7 ∷ []

abbrev place : PathBuf
place = data_dir ++ (Component.normal (codes "artifacts") ∷ Component.normal zeros ∷ [])

abbrev stored : ArtifactMeta
stored = record { digest = zeros; path = place; size = 1; expires_at = [] }

written :
    write_artifact disk (λ b. zeros) (λ m t. some []) [] note rooted
    ≡ ok ((place, note) ∷ [], stored)
unfolding write_artifact content same_path text_eq split_onto component_of later_components
    first_components path_from join
written = refl

zeros-IsDigest : IsDigest zeros
unfolding is_lower_hex is_hexdigit is_ascii_upper is_digit
zeros-IsDigest = (refl, refl)

read_artifact-write_artifact_example :
    (mtime : ℕ) × (stat : Metadata) × (disk.metadata ((place, note) ∷ []) place ≡ ok stat)
    × (stat.modified ≡ ok mtime)
    × (read_artifact disk ((place, note) ∷ []) (artifact_scheme ++ zeros) rooted
        ≡ (if is_fresh 0 mtime 3600 then ok note else err (Error.limit "artifact_expired")))
read_artifact-write_artifact_example =
    read_artifact-write_artifact disk (λ b. zeros) (λ m t. some []) [] ((place, note) ∷ [])
      ((place, note) ∷ []) note rooted stored written (λ b. zeros-IsDigest) refl refl (omega arith)

-- A file of one byte, named without a scheme.
abbrev filed : Disk
filed = (data_dir ++ (Component.normal (codes "f") ∷ []), note) ∷ []

abbrev from_file : SourceSpec
from_file = record { uri = some (codes "/data/f"); inline = none; format = none; bytes = none }

abbrev loaded : Bytes × Option PathBuf
loaded = (note, some (data_dir ++ (Component.normal (codes "f") ∷ [])))

file_loads : load_source fixed disk filed from_file rooted ≡ ok loaded
unfolding load_source content same_path text_eq split_onto component_of later_components
    first_components path_from is_prefix
file_loads = refl

lengths-agree :
    (w : Disk) (p : PathBuf) (meta : Metadata) (b : Bytes)
    → disk.metadata w p ≡ ok meta
    → disk.read w p ≡ ok b
    → length b ≡ meta.size
lengths-agree w p meta b found read = sizes (rw read at found)
  where
    sizes :
        ◌≡◌ {A = Result Metadata} (ok (record { size = length b; modified = ok 0 })) (ok meta)
        → length b ≡ meta.size
    sizes e = ap (λ m. m.size) (Error.ok_inj e)

not_artifact :
    (raw : Text) → some (codes "/data/f") ≡ some raw → is_prefix artifact_scheme raw ≡ false
unfolding is_prefix
not_artifact raw e =
    subst (λ s. is_prefix artifact_scheme s ≡ false) {x = codes "/data/f"} {y = raw} (cc e) refl

load_source-within_example : length loaded.0 ≤ rooted.limits.max_input_bytes
load_source-within_example =
    load_source-within fixed disk filed from_file rooted loaded (lengths-agree filed) refl
      not_artifact file_loads

-- A Parquet result, which is stored.
abbrev table : TransformResult
table = record { records = []; bytes = note; schema = none; diagnostics = []; rejects = [] }

abbrev kept : ArtifactOut
kept = record {
  uri = artifact_scheme ++ zeros;
  format = FormatId.parquet;
  bytes = 1;
  rows = 0;
  sha256 = zeros;
  expires_at = [];
  local_path = none;
}

abbrev answer : DataOut
answer = record {
  result = none;
  artifact = some kept;
  receipt = record { rows = 0; bytes = 1; format = FormatId.parquet };
  diagnostics = [];
}

table_packs :
    pack_data fixed disk (λ b. zeros) (λ m t. some []) [] table FormatId.parquet rooted
    ≡ ok ((place, note) ∷ [], answer)
unfolding pack_data needs_artifact is_binary_format pack_artifact write_artifact content same_path
    text_eq split_onto component_of later_components first_components path_from join
table_packs = refl

load_source-pack_data_example :
    (meta : ArtifactMeta) × (stat : Metadata) × (mtime : ℕ) × (write_artifact disk
        (λ b. zeros)
        (λ m t. some [])
        []
        note
        rooted
      ≡ ok ((place, note) ∷ [], meta))
    × (disk.metadata ((place, note) ∷ []) meta.path ≡ ok stat)
    × (stat.modified ≡ ok mtime)
    × (load_source fixed disk ((place, note) ∷ []) (at_uri kept.uri (some FormatId.parquet)) rooted
        ≡ (if is_fresh 0 mtime 3600 then ok (note, none) else err (Error.limit "artifact_expired")))
load_source-pack_data_example =
    load_source-pack_data fixed disk (λ b. zeros) (λ m t. some []) [] ((place, note) ∷ [])
      ((place, note) ∷ []) table FormatId.parquet (some FormatId.parquet) rooted answer kept
      table_packs refl (λ b. zeros-IsDigest) (λ p. refl) (λ p. refl) (omega arith)
