-- ===== src/Samples/Queries.antt =====
-- Queries over small tables, and the theorem on joins.
use shapeport.Prelude.{
  text_eq, codes, compare, Ordering, to_text, true, false, value, is_digit, ◌↔◌, ◌≡◌, refl, none,
  some, [], ◌∷◌,
}
use shapeport.Error.{ok}
use shapeport.Value.{Value}
use shapeport.Value.Equality.{value_eq}
use shapeport.Query.{
  BinaryOperator, SqlValue, SqlExpr, SelectItem, TableFactor, GroupByExpr, SqlQuery, Floats,
}
use shapeport.Query.Eval.{eval_sql, literal, lookup, keeps_row, stringify, numeric_rank, values_cmp}
use shapeport.Query.Joins.{Tables, equi_join}
use shapeport.Query.Joined.{AnyOf, FromLeft, equi_join_iff}
use shapeport.Query.Run.{execute_query, retain_rows}
use shapeport.Engine.Order.{text_cmp}
use shapeport.Samples.Machine.{get, machine}
use shapeport.Samples.Data.{id, good, bad}

-- Numbers compared as they are; no other arithmetic is looked at.
abbrev whole : Floats
whole = record {
  add = λ a b. a;
  sub = λ a b. a;
  mul = λ a b. a;
  div = λ a b. a;
  min = λ a b. a;
  max = λ a b. a;
  total_cmp = compare;
  zero = 0;
  infinity = 0;
  neg_infinity = 0;
}

abbrev rows : Tables
rows name = some (good ∷ bad ∷ good ∷ [])

-- SELECT * FROM t WHERE id = 'a' LIMIT 1
abbrev first_a : SqlQuery
first_a = record {
  has_with = false;
  body = some (record {
    projection = SelectItem.wildcard ∷ [];
    from = some (TableFactor.table (codes "t") none, []);
    selection = some (
        SqlExpr.binary (SqlExpr.identifier id) BinaryOperator.eq
          (SqlExpr.literal_of (SqlValue.quoted (codes "a"))));
    group_by = GroupByExpr.expressions [];
  });
  order_by = none;
  limit = some (SqlExpr.literal_of (SqlValue.number (codes "1")));
}

query_runs : execute_query machine whole (λ e. []) first_a rows ≡ ok (good ∷ [])
unfolding execute_query retain_rows keeps_row eval_sql literal lookup get text_eq value is_digit
    value_eq
query_runs = refl

-- Numbers compare as numbers and anything else as text, so that 10 < "5x" < 9 < 10.
comparison_cycles :
    (values_cmp machine whole (Value.uint 10) (Value.string (codes "5x")) ≡ Ordering.lt)
    × (values_cmp machine whole (Value.string (codes "5x")) (Value.uint 9) ≡ Ordering.lt)
    × (values_cmp machine whole (Value.uint 9) (Value.uint 10) ≡ Ordering.lt)
unfolding values_cmp stringify numeric_rank to_text text_cmp
comparison_cycles = (refl, refl, refl)

equi_join_iff_example :
    AnyOf (λ x. x ≡ good) (equi_join machine (λ l r. false) true (bad ∷ good ∷ []) (bad ∷ []))
    ↔ AnyOf (FromLeft machine (λ l r. false) true (bad ∷ []) good) (bad ∷ good ∷ [])
equi_join_iff_example = equi_join_iff machine (λ l r. false) true (bad ∷ good ∷ []) (bad ∷ []) good
