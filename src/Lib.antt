-- ===== src/Lib.antt =====
-- Shapeport's core: paths, types, plans, the document engine that runs a plan over records, the
-- planner that makes a plan for two schemas, and the services that load, check and transform data.
--
-- A plan is a list of operations on records (plan.rs). The planner (planner.rs) scores the fields of
-- a source schema against those of a target schema and returns a plan of one `map`, or says what is
-- ambiguous. The engine (engine.rs) validates a plan and runs its operations one after the other
-- over all records, under an error policy. Expressions read fields by path (path.rs), cast values to
-- the types that a name stands for (schema.rs) and call functions (functions.rs) on values (value.rs).
--
-- A service (app.rs) loads the bytes of a source under the policy of security.rs, detects their format
-- and decodes records (formats.rs), infers or takes a schema, makes or takes a plan, runs it, checks
-- the output against the target schema (json_schema.rs) and encodes it, within the limits of config.rs.
--
-- Which file models which part; sources stand in crates/shapeport-core/src.
--   Error, Error/Kind   error.rs: kinds, exit codes, constructors, `Result`
--   Diagnostics         diagnostics.rs, and `RejectedRecord` of engine.rs
--   Value               value.rs: the value tree; Value/Decimal: decimals; Value/Equality: `==`
--   Paths               path.rs: `parse` is `FieldPath::parse`, `render_path` prints; Paths/Valid,
--                       Paths/Render, Paths/RoundTrip and Paths/Fuel prove
--   Schema              schema.rs: `Type` is `DataType`, a field's metadata a text that stands for
--                       the map up to `==`; Schema/Names: the names of types in plans;
--                       Schema/Compatible: `types_compatible`
--   Plan                plan.rs: expressions, operations, `validate_shape`; Plan/Checked proves
--   Functions           functions.rs: `call` and every registered function; Functions/Args: the
--                       conversions of arguments
--   Engine/Access       engine.rs: `read_path`, `insert_field`, `write_simple`
--   Engine/Cast         engine.rs: `cast_value`
--   Engine/Eval         engine.rs: `eval_expr` and its parts; Engine/Eval/ListMap proves
--   Engine/Records      engine.rs: `apply_record`; Engine/Records/Written, Renamed and Objects
--                       prove
--   Engine/Order        engine.rs: `sort_records`; Engine/Order/Total and Sorted prove
--   Engine/Stream       engine.rs: `execute_detailed` and `apply_op`, `map_from` is `map_records`,
--                       `filter_from` is `filter_records`; Explode, Loops, Conserves,
--                       Agreement and Policies prove
--   Planner             planner.rs: the types; Points: scores; Names: normalized names; Scoring:
--                       candidates and the choice among them; Leaves and Build: `plan_schemas`, where
--                       `build_onto` is `build_target_fields`; Chosen, Strict, Ledger, Used,
--                       Runs, Ready, Valid and Accounted prove
--   JsonSchema          json_schema.rs: JsonSchema/Validate: `validate_value`; Meets: what
--                       types mean; Conforms and Accepts prove; JsonSchema/Emit:
--                       `schema_to_json_schema`
--   Config              config.rs: the settings and their defaults; Config/File: `into_runtime`
--   Formats             formats.rs: Detect: `detect_format`; Cells: cells of delimited text; Codec:
--                       `decode_records_with` and `encode_records`; Infer: `infer_schema`; Adapters:
--                       the crates it calls; Fits, Appended, Inferred, Decoded and Integers prove
--   Security            security.rs: `resolve_path` is `resolve_read_path` and `resolve_write_path`;
--                       Components: `std::path`; Files: `std::fs`; Artifacts: the artifact store;
--                       Roots, Digests and Store prove
--   App                 app.rs: sources and limits; Services: the services, where `read_records` is
--                       their common first steps; Querying: `query_sources`; Inversion, Limits,
--                       Outputs and Verdicts prove
--   Query               query.rs: the syntax; Query/Eval: expressions; Query/Joins: tables and joins;
--                       Query/Project: projection, grouping; Query/Run: `execute_sql`; Joined proves
--   Mcp                 crates/shapeport-mcp/src/lib.rs: tools, `pack_data`; Mcp/Auth: `serve_http`,
--                       `check_bearer`, where `rmcp`'s check of `Host` and `Origin` is a parameter;
--                       Guarded, Packed and Reload prove
--   Json, Fingerprint   `serde_json::Value` as schemas are written in it, and fingerprint.rs
--   Sorting             `slice::sort_by`, as an insertion sort, with its laws
--   Host                what the program calls from other crates, with the laws of `IndexMap`
--   Prelude             lists, texts and tests that the rest shares
--   Samples             a host that runs, runs of the definitions, uses of the theorems
--
-- A state that the code mutates is passed on: an `ExecuteOutcome` holds the records and the rejects of
-- a run, a `BuildContext` is what the planner fills. A `Result` carries the kind and the code of an
-- error; its message is not modelled, since no code branches on it. The state of the machine (files and
-- clock) is a type of the file system that is a parameter, passed on by what writes.
--
-- Bounds and fuel. The loop of the path parser runs on fuel, the length of its input, which is
-- enough since each round takes at least a character. Everything else is structural recursion. An index
-- is a 64-bit `usize`, an `i64` is an integer whose parser refuses what does not fit. An `f64` value is
-- its bit pattern, and its arithmetic belongs to the host. A score of the planner is a sum of a few
-- constants below 4: it is the number of units of 2^-56 that it stands for, with each sum rounded to
-- 53 bits. A threshold is any `f64`, as the least number of units that is not below it, or no number.
-- Lengths of time to live are below 2^64; where `chrono` panics on one, the model has an error.
--
-- Not modelled: the wording of messages; the metadata and contracts of a plan and of a schema, which
-- no modelled decision reads; the decoding of plans, schemas and values by serde; the search for a
-- configuration file; the fingerprint in the answer to an inspection; the reading of JSON Schema
-- documents, the server's other tools and its transport, and the command line.
pub mod Prelude
pub mod Sorting
pub mod Error
pub mod Value
pub mod Host
pub mod Paths
pub mod Schema
pub mod Plan
pub mod Diagnostics
pub mod Functions
pub mod Engine
pub mod Planner
pub mod JsonSchema
pub mod Config
pub mod Formats
pub mod Security
pub mod Json
pub mod Fingerprint
pub mod Query
pub mod App
pub mod Mcp
mod Samples
