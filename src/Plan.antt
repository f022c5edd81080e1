-- ===== src/Plan.antt =====
-- crates/shapeport-core/src/plan.rs: the plan IR and its validation. `Exprs` is a `Vec<Expr>` and
-- `Entries` an `IndexMap<String, Expr>` in its order. The optional `metadata` and `contracts` of a
-- plan are left out: execution does not read them.
pub mod Checked
use text.Mathlib.Text.{◌==◌ as str_eq}
use shapeport.Prelude.{
  Text, String, Bool, true, false, ◌&&◌, not, Option, List, [], ◌∷◌, is_empty, if◌then◌else◌,
}
use shapeport.Error
use shapeport.Error.{Result, ok, err, ◌>>=◌, ◌>>◌}
use shapeport.Value.{Value}
use shapeport.Schema.{DataType}
use shapeport.Schema.Names.{from_target_name}
use shapeport.Paths.{FieldPath}

pub data CastPolicy : Type 0 where
  strict lossy try : CastPolicy

pub data ErrorPolicy : Type 0 where
  fail skip collect : ErrorPolicy

pub data SortOrder : Type 0 where
  asc desc : SortOrder

pub data NullsOrder : Type 0 where
  first last : NullsOrder

mutual
  pub data Expr : Type 0 where
    field : FieldPath → Expr
    literal : Value → Expr
    cast : Expr → String → CastPolicy → Expr
    coalesce : Exprs → Expr
    call : String → Exprs → Expr
    object : Entries → Expr
    list_map : FieldPath → Expr → Expr

  pub data Exprs : Type 0 where
    no_exprs : Exprs
    expr : Expr → Exprs → Exprs

  pub data Entries : Type 0 where
    no_entries : Entries
    entry : Text → Expr → Entries → Entries

pub record SortKey : Type 0 where
  pub field : FieldPath
  pub order : SortOrder
  pub nulls : NullsOrder

pub data Operation : Type 0 where
  project : List FieldPath → Operation
  rename : List (Text × Text) → Operation
  drop_fields : List FieldPath → Operation
  literal : Text → Value → Operation
  cast : FieldPath → String → CastPolicy → Operation
  coalesce : Text → Exprs → Operation
  object : Entries → Operation
  map_fields : Entries → Operation
  filter : Expr → Operation
  sort : List SortKey → Operation
  explode : FieldPath → Option Text → Bool → Operation

pub record TransformationPlan : Type 0 where
  pub api_version : String
  pub kind : String
  pub operations : List Operation
  pub error_policy : ErrorPolicy
  pub backend : String
  -- `validation.output`
  pub output : String

abbrev pub api_version : String
api_version = "shapeport.dev/v1alpha1"

abbrev pub plan_kind : String
plan_kind = "TransformationPlan"

unfoldable pub is_float : DataType → Bool
is_float (DataType.float bits) = true
is_float _ = false

unfoldable pub is_strict : CastPolicy → Bool
is_strict CastPolicy.strict = true
is_strict _ = false

unfoldable pub validate_cast_target : String → CastPolicy → Result (Unit {0})
unfolding is_float is_strict
validate_cast_target target policy = do
  ty ← from_target_name target
  if is_float ty && is_strict policy then err (Error.plan "lossy_cast_required") else ok tt

unfoldable mutual
  unfolding validate_cast_target

  pub validate_expr : Expr → Result (Unit {0})
  validate_expr (Expr.cast inner target policy) =
      validate_cast_target target policy >> validate_expr inner
  validate_expr (Expr.coalesce items) = validate_exprs items
  validate_expr (Expr.call function args) = validate_exprs args
  validate_expr (Expr.object entries) = validate_fields_exprs entries
  validate_expr (Expr.list_map input item) = validate_expr item
  validate_expr (Expr.field path) = ok tt
  validate_expr (Expr.literal value) = ok tt

  pub validate_exprs : Exprs → Result (Unit {0})
  validate_exprs no_exprs = ok tt
  validate_exprs (expr e rest) = validate_expr e >> validate_exprs rest

  pub validate_fields_exprs : Entries → Result (Unit {0})
  validate_fields_exprs no_entries = ok tt
  validate_fields_exprs (entry name e rest) = validate_expr e >> validate_fields_exprs rest

unfoldable pub validate_op : Operation → Result (Unit {0})
unfolding validate_expr
validate_op (Operation.sort []) = err (Error.plan "invalid_sort")
validate_op (Operation.map_fields no_entries) = err (Error.plan "invalid_map")
validate_op (Operation.project []) = err (Error.plan "invalid_project")
validate_op (Operation.cast path target policy) = validate_cast_target target policy
validate_op (Operation.map_fields (entry name e rest)) = validate_fields_exprs (entry name e rest)
validate_op (Operation.object entries) = validate_fields_exprs entries
validate_op (Operation.coalesce name values) = validate_exprs values
validate_op (Operation.filter predicate) = validate_expr predicate
validate_op _ = ok tt

unfoldable pub validate_ops : List Operation → Result (Unit {0})
unfolding validate_op
validate_ops [] = ok tt
validate_ops (op ∷ ops) = validate_op op >> validate_ops ops

unfoldable pub validate_shape : TransformationPlan → Result (Unit {0})
unfolding validate_ops
validate_shape plan =
    if not (str_eq plan.api_version api_version)
    then err (Error.plan "unsupported_api_version")
    else if not (str_eq plan.kind plan_kind)
    then err (Error.plan "invalid_kind")
    else if is_empty plan.operations
    then err (Error.plan "empty_plan")
    else if not (str_eq plan.backend "document")
    then err (Error.plan "unsupported_backend")
    else validate_ops plan.operations
