-- ===== src/Samples/Disk.antt =====
-- A file system that runs: the files written so far, over two folders, at one moment; and decoders
-- that give one record whatever they read.
use shapeport.Prelude.{
  codes, length, Bool, true, ◌&&◌, ◌||◌, false, none, some, List, [], ◌∷◌, ◌≡◌, refl, if◌then◌else◌,
}
use shapeport.Error
use shapeport.Error.{Result, ok, err}
use shapeport.Value.{Value, Items}
use shapeport.Config.{RuntimeConfig, default_config}
use shapeport.Security.Components.{Component, PathBuf, component_eq}
use shapeport.Security.Files.{FileSystem, Metadata, Bytes}
use shapeport.Security.Roots.{component_eq_refl}
use shapeport.Formats.Adapters.{Adapters}
use shapeport.Samples.Data.{good}

abbrev pub Disk : Type 0
Disk = List (PathBuf × Bytes)

unfoldable pub same_path : PathBuf → PathBuf → Bool
same_path [] [] = true
same_path (a ∷ p) (b ∷ q) = component_eq a b && same_path p q
same_path _ _ = false

same_path_refl : (p : PathBuf) → same_path p p ≡ true
unfolding same_path
same_path_refl [] = refl
same_path_refl (a ∷ p) = rw (component_eq_refl a) (same_path_refl p)

unfoldable pub content : Disk → PathBuf → Result Bytes
content [] p = err Error.io_err
content ((q, b) ∷ disk) p = let later = content disk p in if same_path q p then ok b else later

abbrev pub stat_of : Result Bytes → Result Metadata
stat_of (err e) = err e
stat_of (ok b) = ok (record { size = length b; modified = ok 0 })

abbrev pub is_ok {ℓ} : {A : Type ℓ} → Result A → Bool
is_ok (ok a) = true
is_ok (err e) = false

-- The folder `/data`.
abbrev pub data_dir : PathBuf
data_dir = Component.root_dir ∷ Component.normal (codes "data") ∷ []

pub content-write :
    (w w' : Disk) (p : PathBuf) (b : Bytes) → ok ((p, b) ∷ w) ≡ ok w' → content w' p ≡ ok b
unfolding content
content-write w w' p b h = rw (← Error.ok_inj h) (rw (same_path_refl p) refl)

abbrev pub disk : FileSystem Disk
disk = record {
  exists = λ w p. same_path p data_dir || is_ok (content w p);
  canonicalize = λ w p. ok p;
  current_dir = λ w. ok data_dir;
  metadata = λ w p. stat_of (content w p);
  read = content;
  write = λ w p b. ok ((p, b) ∷ w);
  create_dir_all = λ w p. ok w;
  read_stdin = λ w. ok [];
  now = λ w. 0;
  read_write = content-write;
}

-- Every input is the array of one record, and every output is two bytes.
abbrev pub fixed : Adapters
fixed = record {
  from_utf8_lossy = λ b. b;
  trim_start = λ s. s;
  is_json = λ s. true;
  json_from_slice = λ b. ok (Value.array (Items.item good Items.no_items));
  json_from_str = λ s. some good;
  yaml_from_slice = λ b. none;
  csv_headers = λ d b. ok (codes "id" ∷ codes "n" ∷ []);
  csv_rows = λ d b. ok (codes "a" ∷ codes "7" ∷ []) ∷ ok (codes "b" ∷ []) ∷ [];
  parquet_lines = λ b. ok b;
  arrow_lines = λ b. ok b;
  json_to_vec = λ v. ok (1 ∷ 2 ∷ []);
  json_to_vec_pretty = λ v. ok (1 ∷ 2 ∷ []);
  yaml_to_vec = λ v. ok (1 ∷ 2 ∷ []);
  csv_to_vec = λ d rows. ok (1 ∷ 2 ∷ []);
  parquet_to_vec = λ b. ok b;
  arrow_to_vec = λ b. ok b;
}

-- The defaults, with `/data` as the root for reading and writing.
abbrev pub rooted : RuntimeConfig
rooted = record default_config {
  filesystem = record { read_roots = codes "/data" ∷ []; write_roots = codes "/data" ∷ [] };
}
