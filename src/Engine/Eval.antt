-- ===== src/Engine/Eval.antt =====
-- engine.rs: `eval_expr`, `eval_object`, `eval_coalesce` and `eval_list_map`.
pub mod ListMap
use shapeport.Prelude.{true, false, List, [], ◌∷◌}
use shapeport.Error
use shapeport.Error.{Error, Result, ok, err, ◌>>=◌}
use shapeport.Host.{Host}
use shapeport.Value.{Value, Items, Fields, no_items, item, no_fields, is_null}
use shapeport.Functions.{call}
use shapeport.Plan.{Expr, Exprs, Entries, no_exprs, expr, no_entries, entry}
use shapeport.Engine.Access.{read_path}
use shapeport.Engine.Cast.{cast_value}

-- The loop of `eval_list_map` over the items: null stays null, the rest goes through `eval`.
unfoldable pub map_items : (Value → Result Value) → Items → Result Items
map_items eval no_items = ok no_items
map_items eval (item Value.null rest) = do out ← map_items eval rest; ok (item Value.null out)
map_items eval (item v rest) = do w ← eval v; out ← map_items eval rest; ok (item w out)

-- `eval_list_map` once its input is read.
unfoldable pub list_map_value : (Value → Result Value) → Value → Result Value
unfolding map_items
list_map_value eval Value.null = ok Value.null
list_map_value eval (Value.array items) = do out ← map_items eval items; ok (Value.array out)
list_map_value eval _ = err (Error.transform "list_map_type")

module _ (host : Host) where
  unfoldable mutual
    unfolding list_map_value

    pub eval_expr : Value → Expr → Result Value
    eval_expr v (Expr.field path) = read_path host v path
    eval_expr v (Expr.literal value) = ok value
    eval_expr v (Expr.cast e target policy) = do w ← eval_expr v e; cast_value host w target policy
    eval_expr v (Expr.coalesce items) = eval_coalesce v items
    eval_expr v (Expr.call function args) = do values ← eval_args v args; call host function values
    eval_expr v (Expr.object entries) = eval_object_onto v no_fields entries
    eval_expr v (Expr.list_map input e) = do
      list ← read_path host v input
      list_map_value (λ w. eval_expr w e) list

    pub eval_args : Value → Exprs → Result (List Value)
    eval_args v no_exprs = ok []
    eval_args v (expr e rest) = do w ← eval_expr v e; ws ← eval_args v rest; ok (w ∷ ws)

    -- The first value that is not null; what follows it is not evaluated.
    pub eval_coalesce : Value → Exprs → Result Value
    eval_coalesce v no_exprs = ok Value.null
    eval_coalesce v (expr e rest) = do
      w ← eval_expr v e
      (elim (is_null w) [ true ↦ eval_coalesce v rest | false ↦ ok w ])

    -- The loop of `eval_object`, over the map written so far.
    pub eval_object_onto : Value → Fields → Entries → Result Value
    eval_object_onto v map no_entries = ok (Value.object map)
    eval_object_onto v map (entry name e rest) = do
      w ← eval_expr v e
      eval_object_onto v (host.insert name w map) rest

  unfoldable pub eval_object : Value → Entries → Result Value
  unfolding eval_expr
  eval_object v entries = eval_object_onto v no_fields entries
