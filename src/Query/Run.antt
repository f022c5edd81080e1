-- ===== src/Query/Run.antt =====
-- query.rs: the stages of a query. The parser and the printing of an expression are parameters, being
-- those of `sqlparser`.
use shapeport.Prelude.{
  ℕ, ltb, ◌^◌, Text, take, value, all, is_digit, is_empty, Bool, not, ◌||◌, Ordering, Option, none,
  some, List, [], ◌∷◌, if◌then◌else◌,
}
use shapeport.Error
use shapeport.Error.{Result, ok, err, ◌>>=◌}
use shapeport.Host.{Host}
use shapeport.Value.{Value}
use shapeport.Sorting.{sort_by, reverse_order}
use shapeport.Query.{SqlValue, SqlExpr, Select, OrderBy, SqlQuery, Floats}
use shapeport.Query.Joins.{Tables, load_from}
use shapeport.Query.Eval.{values_cmp, eval_sql, keeps_row}
use shapeport.Query.Project.{project_or_group}

-- `parse::<usize>`
unfoldable pub parse_usize : Text → Option ℕ
unfolding value is_digit
parse_usize s =
    if is_empty s || not (all is_digit s)
    then none
    else if ltb (value 0 s) (2 ^ 64)
    then some (value 0 s)
    else none

unfoldable pub eval_limit : SqlExpr → Option ℕ
unfolding parse_usize
eval_limit (SqlExpr.literal_of (SqlValue.number raw)) = parse_usize raw
eval_limit _ = none

abbrev pub query_limit : Option SqlExpr → Option ℕ
query_limit none = none
query_limit (some expr) = eval_limit expr

module _ (host : Host) (floats : Floats) (display : SqlExpr → Text) where
  -- `rows.retain`
  unfoldable pub retain_rows : Option SqlExpr → List Value → List Value
  unfolding keeps_row
  retain_rows none rows = rows
  retain_rows (some expr) [] = []
  retain_rows (some expr) (row ∷ rows) =
      let later = retain_rows (some expr) rows in
      if keeps_row host floats expr row then row ∷ later else later

  abbrev value_or_else_null : Result Value → Value
  value_or_else_null (ok v) = v
  value_or_else_null (err e) = Value.null

  abbrev then_order : Ordering → Ordering → Ordering
  then_order Ordering.eq later = later
  then_order ord later = ord

  -- The comparison of `sort_by`.
  unfoldable pub compare_rows : List (SqlExpr × Bool) → Value → Value → Ordering
  unfolding eval_sql values_cmp reverse_order
  compare_rows [] a b = Ordering.eq
  compare_rows ((expr, descending) ∷ rest) a b =
      let ord =
        values_cmp host floats (value_or_else_null (eval_sql host floats expr a))
          (value_or_else_null (eval_sql host floats expr b)) in
      then_order (if descending then reverse_order ord else ord) (compare_rows rest a b)

  unfoldable pub order_rows : Option OrderBy → List Value → Result (List Value)
  unfolding compare_rows sort_by
  order_rows none rows = ok rows
  order_rows (some (OrderBy.order_exprs exprs)) rows = ok (sort_by (compare_rows exprs) rows)
  order_rows (some OrderBy.order_all) rows = err (Error.usage "sql_order")

  -- `rows.truncate`
  abbrev pub truncate : Option ℕ → List Value → List Value
  truncate none rows = rows
  truncate (some n) rows = take n rows

  unfoldable pub execute_select : Option Select → SqlQuery → Tables → Result (List Value)
  unfolding load_from retain_rows project_or_group order_rows eval_limit
  execute_select none query tables = err (Error.usage "sql_unsupported")
  execute_select (some select) query tables = load_from host floats select.from tables >>= λ loaded.
      project_or_group host floats display select (retain_rows select.selection loaded)
      >>= λ projected. order_rows query.order_by projected >>= λ ordered.
          ok (truncate (query_limit query.limit) ordered)

  unfoldable pub execute_query : SqlQuery → Tables → Result (List Value)
  unfolding execute_select
  execute_query query tables =
      if query.has_with
      then err (Error.usage "sql_unsupported")
      else execute_select query.body query tables

  -- `execute_sql` of a text whose first statement `parse` gives, if it is a query.
  abbrev first_query : Option SqlQuery → Tables → Result (List Value)
  first_query none tables = err (Error.usage "sql_unsupported")
  first_query (some query) tables = execute_query query tables

  unfoldable pub execute_sql :
      (Text → Option (Option SqlQuery)) → Text → Tables → Result (List Value)
  unfolding execute_query
  execute_sql parse_sql sql tables = elim (parse_sql sql) [
    | none ↦ err (Error.parse "sql_parse")
    | some statement ↦ first_query statement tables
  ]
