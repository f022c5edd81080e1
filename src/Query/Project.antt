-- ===== src/Query/Project.antt =====
-- query.rs: projection and grouping. The printing of an expression is a parameter, being that of
-- `sqlparser`.
use shapeport.Prelude.{
  ℕ, pos, Text, text_eq, codes, length, is_empty, Bool, false, not, ◌||◌, Option, none, some, List,
  [], ◌∷◌, ◌++◌, if◌then◌else◌,
}
use shapeport.Error
use shapeport.Error.{Result, ok, err, ◌>>=◌}
use shapeport.Host.{Host}
use shapeport.Value.{Value, Fields, no_fields, field, as_object}
use shapeport.Query.{SqlExpr, SelectItem, GroupByExpr, Select, Floats}
use shapeport.Query.Joins.{fields_or_empty}
use shapeport.Query.Eval.{last_part, is_agg_expr, value_f64, eval_sql}

unfoldable pub is_agg_item : SelectItem → Bool
unfolding is_agg_expr
is_agg_item (SelectItem.unnamed_expr expr) = is_agg_expr expr
is_agg_item (SelectItem.with_alias expr alias) = is_agg_expr expr
is_agg_item _ = false

abbrev pub any_agg : List SelectItem → Bool
any_agg [] = false
any_agg (i ∷ rest) = is_agg_item i || any_agg rest

unfoldable pub is_grouped : Select → Bool
unfolding is_agg_item
is_grouped select = elim select.group_by [
  | GroupByExpr.expressions exprs ↦ not (is_empty exprs)
  | GroupByExpr.all_columns ↦ any_agg select.projection
]

unfoldable pub group_key_exprs : GroupByExpr → List SqlExpr
group_key_exprs (GroupByExpr.expressions exprs) = exprs
group_key_exprs GroupByExpr.all_columns = []

-- `groups.entry(key).or_default().push(row)`
unfoldable pub push_group : Text → Value → List (Text × List Value) → List (Text × List Value)
unfolding text_eq
push_group key row [] = (key, row ∷ []) ∷ []
push_group key row ((k, members) ∷ groups) =
    let later = push_group key row groups in
    if text_eq k key then (k, members ++ row ∷ []) ∷ groups else (k, members) ∷ later

-- `parts.join("|")`
unfoldable pub join_parts : List Text → Text
join_parts [] = []
join_parts (part ∷ []) = part
join_parts (a ∷ b ∷ parts) = a ++ (b'|' ∷ join_parts (b ∷ parts))

module _ (host : Host) (floats : Floats) (display : SqlExpr → Text) where
  abbrev or_empty : Option Text → Text
  or_empty none = []
  or_empty (some name) = name

  unfoldable pub expr_name : SqlExpr → Text
  unfolding last_part
  expr_name (SqlExpr.identifier name) = name
  expr_name (SqlExpr.compound parts) = or_empty (last_part parts)
  expr_name (SqlExpr.call name) = name
  expr_name (SqlExpr.call_on name arg) = name
  expr_name other = display other

  -- Each entry of an object inserted into the map.
  unfoldable pub insert_all : Fields → Fields → Fields
  insert_all no_fields m = m
  insert_all (field k v rest) m = insert_all rest (host.insert k v m)

  unfoldable pub project_items : List SelectItem → Value → Fields → Result Value
  unfolding expr_name insert_all eval_sql as_object
  project_items [] row m = ok (Value.object m)
  project_items (SelectItem.unnamed_expr expr ∷ items) row m =
      eval_sql host floats expr row >>= λ v.
      project_items items row (host.insert (expr_name expr) v m)
  project_items (SelectItem.with_alias expr alias ∷ items) row m =
      eval_sql host floats expr row >>= λ v. project_items items row (host.insert alias v m)
  project_items (SelectItem.wildcard ∷ items) row m =
      project_items items row (insert_all (fields_or_empty host (as_object row)) m)
  project_items (SelectItem.qualified_wildcard ∷ items) row m = err (Error.usage "sql_select")

  unfoldable pub project_row : List SelectItem → Value → Result Value
  unfolding project_items
  project_row (SelectItem.wildcard ∷ []) row = ok row
  project_row items row = project_items items row no_fields

  unfoldable pub project_rows : List SelectItem → List Value → Result (List Value)
  unfolding project_row
  project_rows items [] = ok []
  project_rows items (row ∷ rows) =
      project_row items row >>= λ v. project_rows items rows >>= λ rest. ok (v ∷ rest)

  unfoldable pub fold_nums : (Value → Result Value) → (ℕ → ℕ → ℕ) → List Value → ℕ → Result ℕ
  unfolding value_f64
  fold_nums arg fold [] acc = ok acc
  fold_nums arg fold (member ∷ rest) acc =
      arg member >>= λ v. value_f64 host floats v >>= λ x. fold_nums arg fold rest (fold acc x)

  -- The match of `eval_agg` on the name, with the evaluation of the argument.
  unfoldable pub eval_agg : Text → (Value → Result Value) → List Value → Result Value
  unfolding fold_nums text_eq
  eval_agg name arg members =
      if text_eq name (codes "count")
      then ok (Value.int (pos (length members)))
      else if text_eq name (codes "sum")
      then (fold_nums arg floats.add members floats.zero >>= λ x. ok (Value.float x))
      else if text_eq name (codes "avg")
      then (fold_nums arg floats.add members floats.zero >>= λ x. ok (
          Value.float
            (floats.div x (host.f64_of_u64 (if is_empty members then 1 else length members)))))
      else if text_eq name (codes "min")
      then (fold_nums arg floats.min members floats.infinity >>= λ x. ok (Value.float x))
      else if text_eq name (codes "max")
      then (fold_nums arg floats.max members floats.neg_infinity >>= λ x. ok (Value.float x))
      else err (Error.usage "sql_udf")

  unfoldable pub eval_group_expr : SqlExpr → Value → List Value → Result Value
  unfolding eval_agg eval_sql is_agg_expr
  eval_group_expr (SqlExpr.call name) first members =
      if is_agg_expr (SqlExpr.call name)
      then eval_agg name (λ member. ok (Value.int (pos 1))) members
      else eval_sql host floats (SqlExpr.call name) first
  eval_group_expr (SqlExpr.call_on name arg) first members =
      if is_agg_expr (SqlExpr.call_on name arg)
      then eval_agg name (eval_sql host floats arg) members
      else eval_sql host floats (SqlExpr.call_on name arg) first
  eval_group_expr expr first members = eval_sql host floats expr first

  unfoldable pub project_group : List SelectItem → Value → List Value → Fields → Result Value
  unfolding eval_group_expr expr_name
  project_group [] first members m = ok (Value.object m)
  project_group (SelectItem.unnamed_expr expr ∷ items) first members m =
      eval_group_expr expr first members >>= λ v.
      project_group items first members (host.insert (expr_name expr) v m)
  project_group (SelectItem.with_alias expr alias ∷ items) first members m =
      eval_group_expr expr first members >>= λ v.
      project_group items first members (host.insert alias v m)
  project_group (_ ∷ items) first members m = err (Error.usage "sql_select")

  -- The parts of `group_key`, as JSON.
  unfoldable pub key_parts : List SqlExpr → Value → Result (List Text)
  unfolding eval_sql
  key_parts [] row = ok []
  key_parts (key ∷ keys) row = eval_sql host floats key row >>= λ v.
      key_parts keys row >>= λ parts. ok (host.to_json v ∷ parts)

  -- The first loop of `group_by`.
  unfoldable pub collect_groups :
      List SqlExpr → List Value → List (Text × List Value) → Result (List (Text × List Value))
  unfolding key_parts push_group join_parts
  collect_groups keys [] groups = ok groups
  collect_groups keys (row ∷ rows) groups = key_parts keys row >>= λ parts.
      collect_groups keys rows (push_group (join_parts parts) row groups)

  -- The second loop of `group_by`.
  unfoldable pub project_groups : List SelectItem → List (Text × List Value) → Result (List Value)
  unfolding project_group
  project_groups items [] = ok []
  project_groups items ((key, []) ∷ groups) = project_groups items groups
  project_groups items ((key, first ∷ members) ∷ groups) =
      project_group items first (first ∷ members) no_fields >>= λ v.
      project_groups items groups >>= λ rest. ok (v ∷ rest)

  unfoldable pub group_rows : Select → List Value → Result (List Value)
  unfolding collect_groups project_groups group_key_exprs
  group_rows select rows = collect_groups (group_key_exprs select.group_by) rows [] >>= λ groups.
      project_groups select.projection groups

  unfoldable pub project_or_group : Select → List Value → Result (List Value)
  unfolding is_grouped group_rows project_rows
  project_or_group select rows =
      if is_grouped select then group_rows select rows else project_rows select.projection rows
