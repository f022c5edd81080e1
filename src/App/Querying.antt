-- ===== src/App/Querying.antt =====
-- app.rs: `query_sources`. The sources are a list, in the order in which the map's iterator gives them.
use shapeport.Prelude.{
  ◌≤◌, ◌≡◌, subst, Text, text_eq, codes, length, Option, none, some, List, [], ◌∷◌, if◌then◌else◌,
}
use shapeport.Error.{Result, ok, ◌>>=◌, ◌>>◌, >>=-eq-ok, ok_inj}
use shapeport.Host.{Host}
use shapeport.Value.{Value}
use shapeport.Config.{InferMode, RuntimeConfig}
use shapeport.Planner.{InsertExpr}
use shapeport.Query.{SqlExpr, SqlQuery, Floats}
use shapeport.Query.Joins.{Tables}
use shapeport.Query.Run.{execute_sql}
use shapeport.Security.Files.{FileSystem}
use shapeport.Formats.{FormatId}
use shapeport.Formats.Adapters.{Adapters}
use shapeport.Formats.Codec.{encode_records}
use shapeport.App.{SourceSpec, check_row_limit, check_output_bytes}
use shapeport.App.Limits.{rows-within, output-within}
use shapeport.App.Requests.{TransformResult}
use shapeport.App.Services.{read_records}

pub record QueryRequest : Type 0 where
  pub sql : Text
  pub sources : List (Text × SourceSpec)
  pub output_format : FormatId
  pub infer : InferMode

abbrev pub NamedRows : Type 0
NamedRows = List (Text × List Value)

unfoldable pub table_of : NamedRows → Tables
unfolding text_eq
table_of [] name = none
table_of ((n, rows) ∷ rest) name =
    let later = table_of rest name in if text_eq n name then some rows else later

-- A single table is also named `input`.
unfoldable pub with_input : NamedRows → NamedRows
with_input ((n, rows) ∷ []) = (codes "input", rows) ∷ (n, rows) ∷ []
with_input tables = tables

module _ (host : Host) (adapters : Adapters) (insert : InsertExpr) {World : Type 0}
    (fs : FileSystem World) (floats : Floats) (display : SqlExpr → Text)
    (parse_sql : Text → Option (Option SqlQuery)) where
  -- The loop over the sources.
  unfoldable pub load_tables :
      World → List (Text × SourceSpec) → InferMode → RuntimeConfig → Result NamedRows
  unfolding read_records check_row_limit
  load_tables w [] infer config = ok []
  load_tables w ((name, source) ∷ rest) infer config =
      read_records host adapters insert fs w source infer config >>= λ input.
      check_row_limit (length input.1) config
      >> (load_tables w rest infer config >>= λ tables. ok ((name, input.1) ∷ tables))

  unfoldable pub query_sources : World → QueryRequest → RuntimeConfig → Result TransformResult
  unfolding load_tables with_input table_of execute_sql check_row_limit encode_records
      check_output_bytes
  query_sources w request config = load_tables w request.sources request.infer config >>= λ tables.
      execute_sql host floats display parse_sql request.sql (table_of (with_input tables))
      >>= λ records.
          check_row_limit (length records) config
          >> (encode_records host adapters records request.output_format >>= λ bytes.
              check_output_bytes bytes config
              >> ok (record {
                records = records;
                bytes = bytes;
                schema = none;
                diagnostics = [];
                rejects = [];
              }))

  -- A query that succeeds returns at most the configured number of rows and of bytes.
  pub query_sources-within :
      (w : World) (request : QueryRequest) (config : RuntimeConfig) (result : TransformResult)
      → query_sources w request config ≡ ok result
      → (length result.records ≤ config.limits.max_rows)
        × (length result.bytes ≤ config.limits.max_output_bytes)
  unfolding query_sources
  query_sources-within w request config result h =
      let (tables, loaded, h₁) =
        >>=-eq-ok (load_tables w request.sources request.infer config) _ h in
      let (records, ran, h₂) =
        >>=-eq-ok
          (execute_sql host floats display parse_sql request.sql (table_of (with_input tables))) _
          h₁ in
      let (u, few, h₃) = >>=-eq-ok (check_row_limit (length records) config) _ h₂ in
      let (bytes, encoded, h₄) =
        >>=-eq-ok (encode_records host adapters records request.output_format) _ h₃ in
      let (v, short, h₅) = >>=-eq-ok (check_output_bytes bytes config) _ h₄ in
      subst
        (λ r.
          (length r.records ≤ config.limits.max_rows)
          × (length r.bytes ≤ config.limits.max_output_bytes))
        (ok_inj h₅) (rows-within (length records) config few, output-within bytes config short)
