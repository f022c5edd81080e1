-- ===== src/Query/Eval.antt =====
-- query.rs: the evaluation of expressions on a row.
use shapeport.Prelude.{
  ℕ, ℤ, pos, Text, text_eq, codes, contains, to_text, Bool, true, false, not, ◌&&◌, ◌||◌, Ordering,
  Option, none, some, List, [], ◌∷◌, if◌then◌else◌,
}
use shapeport.Error
use shapeport.Error.{Result, ok, err, ◌>>=◌}
use shapeport.Host.{Host}
use shapeport.Value.{Value, Fields, as_object, is_truthy}
use shapeport.Value.Decimal.{render_decimal}
use shapeport.Value.Equality.{value_eq}
use shapeport.Functions.Args.{int_to_text, bool_to_text}
use shapeport.Engine.Access.{value_or_null}
use shapeport.Engine.Cast.{parse_i64}
use shapeport.Engine.Order.{text_cmp}
use shapeport.Query.{BinaryOperator, SqlValue, SqlExpr, Floats}

unfoldable pub last_part : List Text → Option Text
last_part [] = none
last_part (part ∷ []) = some part
last_part (a ∷ b ∷ parts) = last_part (b ∷ parts)

-- The part before the last.
unfoldable pub qualifier : List Text → Option Text
qualifier [] = none
qualifier (a ∷ []) = none
qualifier (a ∷ b ∷ []) = some a
qualifier (a ∷ b ∷ c ∷ parts) = qualifier (b ∷ c ∷ parts)

abbrev pub agg_names : List Text
agg_names = codes "count" ∷ codes "sum" ∷ codes "avg" ∷ codes "min" ∷ codes "max" ∷ []

unfoldable pub is_agg_name : Text → List Text → Bool
unfolding text_eq
is_agg_name name [] = false
is_agg_name name (agg ∷ aggs) = text_eq agg name || is_agg_name name aggs

unfoldable pub is_agg_expr : SqlExpr → Bool
unfolding is_agg_name
is_agg_expr (SqlExpr.call name) = is_agg_name name agg_names
is_agg_expr (SqlExpr.call_on name arg) = is_agg_name name agg_names
is_agg_expr _ = false

abbrev pub or_zero_int : Option ℤ → ℤ
or_zero_int none = pos 0
or_zero_int (some n) = n

abbrev pub flag_of : Value → Bool
flag_of (Value.bool flag) = flag
flag_of Value.null = false
flag_of other = is_truthy other

module _ (host : Host) (floats : Floats) where
  abbrev pub or_zero : Option ℕ → ℕ
  or_zero none = floats.zero
  or_zero (some x) = x

  unfoldable pub literal : SqlValue → Result Value
  unfolding contains parse_i64
  literal (SqlValue.number raw) =
      if contains b'.' raw
      then ok (Value.float (or_zero (host.parse_f64 raw)))
      else ok (Value.int (or_zero_int (parse_i64 raw)))
  literal (SqlValue.quoted text) = ok (Value.string text)
  literal (SqlValue.boolean flag) = ok (Value.bool flag)
  literal SqlValue.null_value = ok Value.null
  literal SqlValue.other_value = err (Error.usage "sql_literal")

  abbrev lookup_in : Option Fields → Text → Value
  lookup_in none name = Value.null
  lookup_in (some map) name = value_or_null (host.get name map)

  unfoldable pub lookup : Value → Text → Value
  unfolding as_object value_or_null
  lookup row name = lookup_in (as_object row) name

  unfoldable pub stringify : Value → Text
  unfolding int_to_text bool_to_text render_decimal
  stringify (Value.string text) = text
  stringify (Value.int n) = int_to_text n
  stringify (Value.uint n) = to_text n
  stringify (Value.float x) = host.f64_to_text x
  stringify (Value.bool b) = bool_to_text b
  stringify (Value.decimal d) = render_decimal d
  stringify _ = []

  unfoldable pub values_equal : Value → Value → Bool
  unfolding stringify text_eq
  values_equal left right = value_eq host left right || text_eq (stringify left) (stringify right)

  unfoldable pub numeric_rank : Value → Option ℕ
  unfolding render_decimal
  numeric_rank (Value.int n) = some (host.f64_of_i64 n)
  numeric_rank (Value.uint n) = some (host.f64_of_u64 n)
  numeric_rank (Value.float x) = some x
  numeric_rank (Value.decimal d) = host.parse_f64 (render_decimal d)
  numeric_rank _ = none

  -- The match of `values_cmp`, with the order of the texts.
  abbrev pub ranked_cmp : Option ℕ → Option ℕ → Ordering → Ordering
  ranked_cmp (some a) (some b) texts = floats.total_cmp a b
  ranked_cmp _ _ texts = texts

  unfoldable pub values_cmp : Value → Value → Ordering
  unfolding numeric_rank stringify text_cmp
  values_cmp left right =
      ranked_cmp (numeric_rank left) (numeric_rank right)
        (text_cmp (stringify left) (stringify right))

  abbrev or_not_numeric : Option ℕ → Result ℕ
  or_not_numeric none = err (Error.transform "sql_num")
  or_not_numeric (some x) = ok x

  unfoldable pub value_f64 : Value → Result ℕ
  unfolding render_decimal
  value_f64 (Value.int n) = ok (host.f64_of_i64 n)
  value_f64 (Value.uint n) = ok (host.f64_of_u64 n)
  value_f64 (Value.float x) = ok x
  value_f64 (Value.string text) = or_not_numeric (host.parse_f64 text)
  value_f64 (Value.decimal d) = or_not_numeric (host.parse_f64 (render_decimal d))
  value_f64 _ = ok floats.zero

  unfoldable pub eval_arith : (ℕ → ℕ → ℕ) → Value → Value → Result Value
  unfolding value_f64
  eval_arith op left right =
      value_f64 left >>= λ a. value_f64 right >>= λ b. ok (Value.float (op a b))

  abbrev is_less : Ordering → Bool
  is_less Ordering.lt = true
  is_less _ = false

  abbrev is_greater : Ordering → Bool
  is_greater Ordering.gt = true
  is_greater _ = false

  unfoldable pub eval_binary_values : BinaryOperator → Value → Value → Result Value
  unfolding values_equal values_cmp eval_arith is_truthy
  eval_binary_values BinaryOperator.eq l r = ok (Value.bool (values_equal l r))
  eval_binary_values BinaryOperator.not_eq l r = ok (Value.bool (not (values_equal l r)))
  eval_binary_values BinaryOperator.gt l r = ok (Value.bool (is_greater (values_cmp l r)))
  eval_binary_values BinaryOperator.lt l r = ok (Value.bool (is_less (values_cmp l r)))
  eval_binary_values BinaryOperator.gt_eq l r = ok (Value.bool (not (is_less (values_cmp l r))))
  eval_binary_values BinaryOperator.lt_eq l r = ok (Value.bool (not (is_greater (values_cmp l r))))
  eval_binary_values BinaryOperator.and_op l r = ok (Value.bool (is_truthy l && is_truthy r))
  eval_binary_values BinaryOperator.or_op l r = ok (Value.bool (is_truthy l || is_truthy r))
  eval_binary_values BinaryOperator.plus l r = eval_arith floats.add l r
  eval_binary_values BinaryOperator.minus l r = eval_arith floats.sub l r
  eval_binary_values BinaryOperator.multiply l r = eval_arith floats.mul l r
  eval_binary_values BinaryOperator.divide l r = eval_arith floats.div l r
  eval_binary_values BinaryOperator.other_op l r = err (Error.usage "sql_op")

  abbrev lookup_last : Value → Option Text → Value
  lookup_last row none = Value.null
  lookup_last row (some name) = lookup row name

  -- `eval_expr`; a compound name has at least one part.
  unfoldable pub eval_sql : SqlExpr → Value → Result Value
  unfolding lookup last_part literal eval_binary_values is_agg_expr
  eval_sql (SqlExpr.identifier name) row = ok (lookup row name)
  eval_sql (SqlExpr.compound parts) row = ok (lookup_last row (last_part parts))
  eval_sql (SqlExpr.literal_of value) row = literal value
  eval_sql (SqlExpr.binary left op right) row =
      eval_sql left row >>= λ l. eval_sql right row >>= λ r. eval_binary_values op l r
  eval_sql (SqlExpr.call name) row =
      if is_agg_expr (SqlExpr.call name)
      then err (Error.usage "sql_agg")
      else err (Error.usage "sql_expr")
  eval_sql (SqlExpr.call_on name arg) row =
      if is_agg_expr (SqlExpr.call_on name arg)
      then err (Error.usage "sql_agg")
      else err (Error.usage "sql_expr")
  eval_sql (SqlExpr.other_expr shown) row = err (Error.usage "sql_expr")

  abbrev pub passes : Result Value → Bool
  passes (ok v) = flag_of v
  passes (err e) = false

  -- `eval_bool(…).unwrap_or(false)`
  unfoldable pub keeps_row : SqlExpr → Value → Bool
  unfolding eval_sql
  keeps_row expr row = passes (eval_sql expr row)

  unfoldable pub has_column : Value → Text → Bool
  unfolding as_object
  has_column row name = elim (as_object row) [
    | none ↦ false
    | some map ↦ elim (host.get name map) [ none ↦ false | some v ↦ true ]
  ]

  unfoldable pub lookup_unqualified : Text → Value → Value → Value
  unfolding has_column lookup
  lookup_unqualified name left right =
      if has_column left name then lookup left name else lookup right name

  abbrev is_named_by : Option Text → Text → Bool
  is_named_by none name = false
  is_named_by (some q) name = text_eq q name

  abbrev lookup_column : Option Text → Bool → Value → Value → Value
  lookup_column none of_right left right = Value.null
  lookup_column (some column) of_right left right =
      if of_right then lookup right column else lookup left column

  unfoldable pub lookup_qualified : List Text → Value → Value → Text → Value
  unfolding last_part qualifier text_eq lookup
  lookup_qualified parts left right right_name =
      lookup_column (last_part parts) (is_named_by (qualifier parts) right_name) left right

  unfoldable pub eval_join_expr : SqlExpr → Value → Value → Text → Result Value
  unfolding lookup_unqualified lookup_qualified literal eval_binary_values
  eval_join_expr (SqlExpr.identifier name) left right right_name =
      ok (lookup_unqualified name left right)
  eval_join_expr (SqlExpr.compound parts) left right right_name =
      ok (lookup_qualified parts left right right_name)
  eval_join_expr (SqlExpr.literal_of value) left right right_name = literal value
  eval_join_expr (SqlExpr.binary lhs op rhs) left right right_name =
      eval_join_expr lhs left right right_name >>= λ l.
      eval_join_expr rhs left right right_name >>= λ r. eval_binary_values op l r
  eval_join_expr _ left right right_name = err (Error.usage "sql_expr")

  -- `eval_join_bool(…).unwrap_or(false)`
  unfoldable pub joins : SqlExpr → Text → Value → Value → Bool
  unfolding eval_join_expr
  joins on right_name left right = passes (eval_join_expr on left right right_name)
