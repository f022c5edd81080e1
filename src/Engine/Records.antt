-- ===== src/Engine/Records.antt =====
-- engine.rs: `apply_record` and the operations on one record.
pub mod Written
pub mod Renamed
pub mod Objects
use shapeport.Prelude.{Text, String, Option, none, some, List, [], ◌∷◌}
use shapeport.Error
use shapeport.Error.{Error, Result, ok, err, ◌>>=◌}
use shapeport.Host.{Host}
use shapeport.Paths.{FieldPath, simple_name}
use shapeport.Value.{Value, Fields, no_fields}
use shapeport.Plan.{Operation, CastPolicy}
use shapeport.Engine.Access.{read_path, insert_field, write_simple}
use shapeport.Engine.Cast.{cast_value}
use shapeport.Engine.Eval.{eval_coalesce, eval_object}

module _ (host : Host) where
  -- The loop of `project`, over the map written so far.
  unfoldable pub project_onto : Fields → Value → List FieldPath → Result Value
  unfolding simple_name
  project_onto map v [] = ok (Value.object map)
  project_onto map v (path ∷ paths) = elim (simple_name path) [
    | none ↦ err (Error.plan "project_path")
    | some name ↦ do w ← read_path host v path; project_onto (host.insert name w map) v paths
  ]

  unfoldable pub project : Value → List FieldPath → Result Value
  unfolding project_onto
  project v paths = project_onto no_fields v paths

  -- One round of `rename`: remove the old key, and put its value under the new one.
  unfoldable pub rename_one : Text → Text → Fields → Fields
  rename_one from to map = elim (host.get from map) [
    | none ↦ map
    | some v ↦ host.insert to v (host.shift_remove from map)
  ]

  unfoldable pub rename_fields : List (Text × Text) → Fields → Fields
  unfolding rename_one
  rename_fields [] map = map
  rename_fields ((from, to) ∷ mapping) map = rename_fields mapping (rename_one from to map)

  unfoldable pub rename : Value → List (Text × Text) → Result Value
  unfolding rename_fields
  rename (Value.object map) mapping = ok (Value.object (rename_fields mapping map))
  rename _ mapping = err (Error.transform "not_an_object")

  unfoldable pub drop_one : Option Text → Fields → Fields
  drop_one none map = map
  drop_one (some name) map = host.shift_remove name map

  unfoldable pub drop_names : List FieldPath → Fields → Fields
  unfolding drop_one simple_name
  drop_names [] map = map
  drop_names (path ∷ paths) map = drop_names paths (drop_one (simple_name path) map)

  unfoldable pub drop_fields : Value → List FieldPath → Result Value
  unfolding drop_names
  drop_fields (Value.object map) paths = ok (Value.object (drop_names paths map))
  drop_fields _ paths = err (Error.transform "not_an_object")

  unfoldable pub cast_field : Value → FieldPath → String → CastPolicy → Result Value
  cast_field v path target policy = do
    current ← read_path host v path
    casted ← cast_value host current target policy
    write_simple host v path casted

  unfoldable pub apply_record : Operation → Value → Result Value
  unfolding project rename drop_fields cast_field
  apply_record (Operation.project paths) v = project v paths
  apply_record (Operation.rename mapping) v = rename v mapping
  apply_record (Operation.drop_fields paths) v = drop_fields v paths
  apply_record (Operation.literal name value) v = insert_field host v name value
  apply_record (Operation.cast path target policy) v = cast_field v path target policy
  apply_record (Operation.coalesce name values) v = do
    resolved ← eval_coalesce host v values
    insert_field host v name resolved
  apply_record (Operation.object entries) v = eval_object host v entries
  apply_record (Operation.map_fields entries) v = eval_object host v entries
  apply_record _ v = err Error.internal
