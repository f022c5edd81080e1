-- ===== src/Formats/Adapters.antt =====
-- The crates that formats.rs calls (serde_json, serde_norway, csv, parquet, arrow), and the parts of
-- `str` that decode bytes or stand on Unicode tables.
use shapeport.Prelude.{ℕ, Text, Bool, Option, List}
use shapeport.Error.{Result}
use shapeport.Value.{Value}
use shapeport.Security.Files.{Bytes}

pub record Adapters : Type 0 where
  pub from_utf8_lossy : Bytes → Text
  pub trim_start : Text → Text
  -- `serde_json::from_str::<serde_json::Value>(text).is_ok()`
  pub is_json : Text → Bool
  -- `serde_json::from_slice` and `from_str` to a `Value`
  pub json_from_slice : Bytes → Result Value
  pub json_from_str : Text → Option Value
  -- `serde_norway::from_slice`, then `serde_json::from_value`
  pub yaml_from_slice : Bytes → Option (Result Value)
  -- `csv`: the headers, and the rows that the iterator gives
  pub csv_headers : ℕ → Bytes → Result (List Text)
  pub csv_rows : ℕ → Bytes → List (Result (List Text))
  -- parquet or arrow batches, written by arrow's `LineDelimitedWriter`
  pub parquet_lines : Bytes → Result Bytes
  pub arrow_lines : Bytes → Result Bytes
  -- writers
  pub json_to_vec : Value → Result Bytes
  pub json_to_vec_pretty : Value → Result Bytes
  pub yaml_to_vec : Value → Result Bytes
  pub csv_to_vec : ℕ → List (List Text) → Result Bytes
  -- arrow's JSON reader over lines: its batches, each written as one file
  pub parquet_to_vec : Bytes → Result Bytes
  pub arrow_to_vec : Bytes → Result Bytes
