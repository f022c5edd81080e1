-- ===== src/Engine/Stream.antt =====
-- engine.rs: `execute_detailed`, `apply_op` and the loops over the records.
pub mod Explode
pub mod Loops
pub mod Conserves
pub mod Agreement
pub mod Policies
use shapeport.Prelude.{
  ℕ, suc, ◌+◌, Text, Bool, true, false, Option, none, some, List, [], ◌∷◌, ◌++◌,
}
use shapeport.Error
use shapeport.Error.{Error, Result, ok, err, ◌>>=◌, ◌>>◌}
use shapeport.Diagnostics.{RejectedRecord, error_diagnostic}
use shapeport.Host.{Host}
use shapeport.Paths.{FieldPath, simple_name}
use shapeport.Value.{Value, Items, no_items, item, is_truthy}
use shapeport.Plan.{Expr, ErrorPolicy, Operation, TransformationPlan, validate_shape}
use shapeport.Engine.Access.{read_path, insert_field}
use shapeport.Engine.Eval.{eval_expr}
use shapeport.Engine.Records.{apply_record}
use shapeport.Engine.Order.{sort_records}

-- What an operation leaves: its records, and the rejects so far.
pub record ExecuteOutcome : Type 0 where
  pub records : List Value
  pub rejects : List RejectedRecord

abbrev pub rejected : ℕ → Error → RejectedRecord
rejected i e = record { index = i; diagnostic = error_diagnostic e.code }

-- The match of `handle_record_result`, on the vectors `out` and `rejects`.
unfoldable pub handle_record_result :
    Result Value → ℕ → ErrorPolicy → ExecuteOutcome → Result ExecuteOutcome
handle_record_result (ok value) i policy s = ok (record s { records = s.records ++ value ∷ [] })
handle_record_result (err e) i ErrorPolicy.skip s = ok s
handle_record_result (err e) i ErrorPolicy.collect s =
    ok (record s { rejects = s.rejects ++ rejected i e ∷ [] })
handle_record_result (err e) i ErrorPolicy.fail s = err e

-- The loop of `map_records`, from position `i`.
unfoldable pub map_from :
    (Value → Result Value) → ℕ → List Value → ErrorPolicy → ExecuteOutcome → Result ExecuteOutcome
unfolding handle_record_result
map_from f i [] policy s = ok s
map_from f i (v ∷ rest) policy s =
    handle_record_result (f v) i policy s >>= λ s'. map_from f (i + 1) rest policy s'

-- `eval_filter_record`, and the push of a record that passes.
unfoldable pub filter_one :
    Result Value → Value → ℕ → ErrorPolicy → ExecuteOutcome → Result ExecuteOutcome
filter_one (ok value) v i policy s = elim (is_truthy value) [
  | true ↦ ok (record s { records = s.records ++ v ∷ [] })
  | false ↦ ok s
]
filter_one (err e) v i ErrorPolicy.skip s = ok s
filter_one (err e) v i ErrorPolicy.collect s =
    ok (record s { rejects = s.rejects ++ rejected i e ∷ [] })
filter_one (err e) v i ErrorPolicy.fail s = err e

unfoldable pub filter_from :
    (Value → Result Value) → ℕ → List Value → ErrorPolicy → ExecuteOutcome → Result ExecuteOutcome
unfolding filter_one
filter_from test i [] policy s = ok s
filter_from test i (v ∷ rest) policy s =
    filter_one (test v) v i policy s >>= λ s'. filter_from test (i + 1) rest policy s'

unfoldable pub destination : Option Text → FieldPath → Result Text
unfolding simple_name
destination (some to) path = ok to
destination none path = elim (simple_name path) [
  | none ↦ err (Error.plan "explode_to")
  | some name ↦ ok name
]

module _ (host : Host) where
  unfoldable pub with_exploded : Value → FieldPath → Option Text → Value → Result Value
  unfolding destination
  with_exploded v path to element = do dest ← destination to path; insert_field host v dest element

  -- The loop of `explode_one` over the elements.
  unfoldable pub explode_items :
      Value → FieldPath → Option Text → Items → List Value → Result (List Value)
  unfolding with_exploded
  explode_items v path to no_items out = ok out
  explode_items v path to (item element rest) out = do
    w ← with_exploded v path to element
    explode_items v path to rest (out ++ w ∷ [])

  unfoldable pub explode_value :
      Value → Value → FieldPath → Option Text → Bool → List Value → Result (List Value)
  unfolding explode_items
  explode_value (Value.array items) v path to outer out = explode_items v path to items out
  explode_value Value.null v path to true out = do
    w ← with_exploded v path to Value.null
    ok (out ++ w ∷ [])
  explode_value Value.null v path to false out = ok out
  explode_value _ v path to outer out = err (Error.transform "explode_type")

  unfoldable pub explode_onto :
      FieldPath → Option Text → Bool → List Value → List Value → Result (List Value)
  unfolding explode_value
  explode_onto path to outer [] out = ok out
  explode_onto path to outer (v ∷ rest) out = do
    list ← read_path host v path
    out' ← explode_value list v path to outer out
    explode_onto path to outer rest out'

  unfoldable pub explode_records : FieldPath → Option Text → Bool → List Value → Result (List Value)
  unfolding explode_onto
  explode_records path to outer records = explode_onto path to outer records []

  abbrev pub keep_rejects : List RejectedRecord → Result (List Value) → Result ExecuteOutcome
  keep_rejects rejects r = do records ← r; ok (record { records = records; rejects = rejects })

  unfoldable pub apply_op : Operation → ErrorPolicy → ExecuteOutcome → Result ExecuteOutcome
  unfolding map_from filter_from explode_records
  apply_op (Operation.filter predicate) policy s =
      filter_from (λ v. eval_expr host v predicate) 0 s.records policy
        (record { records = []; rejects = s.rejects })
  apply_op (Operation.sort keys) policy s =
      keep_rejects s.rejects (sort_records host keys s.records)
  apply_op (Operation.explode path to outer) policy s =
      keep_rejects s.rejects (explode_records path to outer s.records)
  apply_op other policy s =
      map_from (apply_record host other) 0 s.records policy
        (record { records = []; rejects = s.rejects })

  unfoldable pub apply_ops : List Operation → ErrorPolicy → ExecuteOutcome → Result ExecuteOutcome
  unfolding apply_op
  apply_ops [] policy s = ok s
  apply_ops (op ∷ ops) policy s = apply_op op policy s >>= λ s'. apply_ops ops policy s'

  unfoldable pub execute_detailed : TransformationPlan → List Value → Result ExecuteOutcome
  unfolding apply_ops
  execute_detailed plan records =
      validate_shape plan
      >> apply_ops plan.operations plan.error_policy (record { records = records; rejects = [] })

  unfoldable pub execute_plan : TransformationPlan → List Value → Result (List Value)
  unfolding execute_detailed
  execute_plan plan records = do outcome ← execute_detailed plan records; ok outcome.records
