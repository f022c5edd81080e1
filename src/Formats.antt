-- ===== src/Formats.antt =====
-- crates/shapeport-core/src/formats.rs: formats, their detection, cells of delimited text, and the
-- inference of schemas. The adapters over serde_json, csv, parquet and arrow are parameters.
pub mod Adapters
pub mod Detect
pub mod Codec
pub mod Cells
pub mod Infer
pub mod Fits
pub mod Appended
pub mod Inferred
pub mod Decoded
pub mod Integers
use shapeport.Prelude.{
  Text, text_eq, codes, Bool, Option, none, some, ◌||◌, ◌≡◌, refl, if◌then◌else◌,
}

pub data FormatId : Type 0 where
  json jsonl yaml csv tsv parquet arrow_ipc : FormatId

unfoldable pub as_str : FormatId → Text
as_str FormatId.json = codes "json"
as_str FormatId.jsonl = codes "jsonl"
as_str FormatId.yaml = codes "yaml"
as_str FormatId.csv = codes "csv"
as_str FormatId.tsv = codes "tsv"
as_str FormatId.parquet = codes "parquet"
as_str FormatId.arrow_ipc = codes "arrow-ipc"

unfoldable pub parse_format_id : Text → Option FormatId
unfolding text_eq
parse_format_id raw =
    if text_eq raw (codes "json")
    then some FormatId.json
    else if text_eq raw (codes "jsonl") || text_eq raw (codes "ndjson")
    then some FormatId.jsonl
    else if text_eq raw (codes "yaml") || text_eq raw (codes "yml")
    then some FormatId.yaml
    else if text_eq raw (codes "csv")
    then some FormatId.csv
    else if text_eq raw (codes "tsv")
    then some FormatId.tsv
    else if text_eq raw (codes "parquet")
    then some FormatId.parquet
    else if text_eq raw (codes "arrow")
        || text_eq raw (codes "arrow-ipc")
        || text_eq raw (codes "ipc")
    then some FormatId.arrow_ipc
    else none

pub parse_format_id-as_str : (format : FormatId) → parse_format_id (as_str format) ≡ some format
unfolding parse_format_id as_str
parse_format_id-as_str FormatId.json = refl
parse_format_id-as_str FormatId.jsonl = refl
parse_format_id-as_str FormatId.yaml = refl
parse_format_id-as_str FormatId.csv = refl
parse_format_id-as_str FormatId.tsv = refl
parse_format_id-as_str FormatId.parquet = refl
parse_format_id-as_str FormatId.arrow_ipc = refl
