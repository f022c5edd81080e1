-- ===== src/Formats/Codec.antt =====
-- formats.rs: `decode_records_with` and `encode_records`.
use shapeport.Prelude.{
  ℕ, Text, codes, is_empty, Option, none, some, List, [], ◌∷◌, ◌++◌, if◌then◌else◌,
}
use shapeport.Error
use shapeport.Error.{Result, ok, err, ◌>>=◌}
use shapeport.Host.{Host, keys}
use shapeport.Value.{Value, Items, Fields, no_items, item, as_object}
use shapeport.Security.Files.{Bytes}
use shapeport.Engine.Access.{value_or_null}
use shapeport.Formats.{FormatId}
use shapeport.Formats.Adapters.{Adapters}
use shapeport.Formats.Cells.{DecodeOptions, infer_cell, cell_text}
use shapeport.Formats.Detect.{lines}

unfoldable pub items_of : List Value → Items
items_of [] = no_items
items_of (v ∷ rest) = item v (items_of rest)

unfoldable pub values_of : Items → List Value
values_of no_items = []
values_of (item v rest) = v ∷ values_of rest

unfoldable pub records_from_value : Value → List Value
unfolding values_of
records_from_value (Value.array items) = values_of items
records_from_value other = other ∷ []

unfoldable pub as_record : Value → Value
as_record (Value.object map) = Value.object map
as_record other = Value.object (Fields.field (codes "value") other Fields.no_fields)

-- The cell of a row under a header, empty where the row is short, and the cells that are left.
abbrev pub next_cell : List Text → Text
next_cell [] = []
next_cell (cell ∷ row) = cell

abbrev pub later_cells : List Text → List Text
later_cells [] = []
later_cells (cell ∷ row) = row

unfoldable pub delimited_headers : List Value → List Text
unfolding as_object keys
delimited_headers [] = []
delimited_headers (first ∷ rest) = elim (as_object first) [ none ↦ [] | some map ↦ keys map ]

module _ (host : Host) (adapters : Adapters) where
  unfoldable pub decode_json : Bytes → Result (List Value)
  unfolding records_from_value
  decode_json bytes = adapters.json_from_slice bytes >>= λ value. ok (records_from_value value)

  abbrev json_line : Option Value → Result Value
  json_line none = err (Error.parse "jsonl_line")
  json_line (some value) = ok (as_record value)

  -- The loop of `decode_jsonl`; the line's number is part of the message.
  unfoldable pub decode_lines : List Text → Result (List Value)
  unfolding as_record
  decode_lines [] = ok []
  decode_lines (line ∷ rest) =
      let later = decode_lines rest in
      if is_empty (host.trim line)
      then later
      else json_line (adapters.json_from_str line) >>= λ value.
          later >>= λ values. ok (value ∷ values)

  unfoldable pub decode_jsonl : Bytes → Result (List Value)
  unfolding decode_lines lines
  decode_jsonl bytes = decode_lines (lines (adapters.from_utf8_lossy bytes))

  unfoldable pub decode_yaml : Bytes → Result (List Value)
  unfolding records_from_value
  decode_yaml bytes = elim (adapters.yaml_from_slice bytes) [
    | none ↦ err (Error.parse "yaml_error")
    | some decoded ↦ decoded >>= λ value. ok (records_from_value value)
  ]

  -- The inner loop of `decode_delimited`: each header with its cell, inserted into the map.
  unfoldable pub decode_row : List Text → List Text → DecodeOptions → Fields → Fields
  unfolding infer_cell
  decode_row [] row options map = map
  decode_row (header ∷ headers) row options map =
      decode_row headers (later_cells row) options
        (host.insert header (infer_cell host (next_cell row) options) map)

  unfoldable pub decode_rows :
      List Text → List (Result (List Text)) → DecodeOptions → Result (List Value)
  unfolding decode_row
  decode_rows headers [] options = ok []
  decode_rows headers (row ∷ rows) options = row >>= λ cells.
      decode_rows headers rows options >>= λ values.
      ok (Value.object (decode_row headers cells options Fields.no_fields) ∷ values)

  unfoldable pub decode_delimited : Bytes → ℕ → DecodeOptions → Result (List Value)
  unfolding decode_rows
  decode_delimited bytes delimiter options = adapters.csv_headers delimiter bytes >>= λ headers.
      decode_rows headers (adapters.csv_rows delimiter bytes) options

  unfoldable pub decode_records_with : Bytes → FormatId → DecodeOptions → Result (List Value)
  unfolding decode_json decode_jsonl decode_yaml decode_delimited
  decode_records_with bytes FormatId.json options = decode_json bytes
  decode_records_with bytes FormatId.jsonl options = decode_jsonl bytes
  decode_records_with bytes FormatId.yaml options = decode_yaml bytes
  decode_records_with bytes FormatId.csv options = decode_delimited bytes b',' options
  decode_records_with bytes FormatId.tsv options = decode_delimited bytes b'\t' options
  decode_records_with bytes FormatId.parquet options = adapters.parquet_lines bytes >>= decode_jsonl
  decode_records_with bytes FormatId.arrow_ipc options = adapters.arrow_lines bytes >>= decode_jsonl

  unfoldable pub encode_jsonl : List Value → Result Bytes
  encode_jsonl [] = ok []
  encode_jsonl (record_value ∷ rest) = adapters.json_to_vec record_value >>= λ line.
      encode_jsonl rest >>= λ later. ok (line ++ (b'\n' ∷ later))

  unfoldable pub encode_row : List Text → Fields → Result (List Text)
  unfolding cell_text value_or_null
  encode_row [] map = ok []
  encode_row (header ∷ headers) map =
      cell_text host (value_or_null (host.get header map)) >>= λ cell.
      encode_row headers map >>= λ cells. ok (cell ∷ cells)

  abbrev encode_object : List Text → Option Fields → Result (List Text)
  encode_object headers none = err (Error.transform "csv_nested")
  encode_object headers (some map) = encode_row headers map

  unfoldable pub encode_rows : List Text → List Value → Result (List (List Text))
  unfolding encode_row as_object
  encode_rows headers [] = ok []
  encode_rows headers (v ∷ rest) = encode_object headers (as_object v) >>= λ row.
      encode_rows headers rest >>= λ rows. ok (row ∷ rows)

  -- The writer's errors come after those of the cells.
  unfoldable pub encode_delimited : List Value → ℕ → Result Bytes
  unfolding encode_rows delimited_headers
  encode_delimited records delimiter =
      let headers = delimited_headers records in
      encode_rows headers records >>= λ rows. adapters.csv_to_vec delimiter (headers ∷ rows)

  unfoldable pub encode_records : List Value → FormatId → Result Bytes
  unfolding encode_jsonl encode_delimited items_of
  encode_records records FormatId.json =
      adapters.json_to_vec_pretty (Value.array (items_of records))
  encode_records records FormatId.jsonl = encode_jsonl records
  encode_records records FormatId.yaml = adapters.yaml_to_vec (Value.array (items_of records))
  encode_records records FormatId.csv = encode_delimited records b','
  encode_records records FormatId.tsv = encode_delimited records b'\t'
  encode_records records FormatId.parquet = encode_jsonl records >>= adapters.parquet_to_vec
  encode_records records FormatId.arrow_ipc = encode_jsonl records >>= adapters.arrow_to_vec
