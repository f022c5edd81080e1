-- ===== src/Query/Joins.antt =====
-- query.rs: the tables of a query and their joins. Tables are a function from names.
use shapeport.Prelude.{
  Text, codes, Bool, true, false, Option, none, some, List, [], ◌∷◌, ◌++◌, if◌then◌else◌,
}
use shapeport.Error
use shapeport.Error.{Result, ok, err, ◌>>=◌}
use shapeport.Host.{Host}
use shapeport.Value.{Value, Fields, no_fields, field, as_object}
use shapeport.Query.{SqlExpr, TableFactor, JoinConstraint, JoinOperator, Join, Floats}
use shapeport.Query.Eval.{joins}

abbrev pub Tables : Type 0
Tables = Text → Option (List Value)

-- `Option::or_else`
abbrev pub or_option : Option (List Value) → Option (List Value) → Option (List Value)
or_option (some rows) later = some rows
or_option none later = later

abbrev pub by_alias : Tables → Option Text → Option (List Value)
by_alias tables none = none
by_alias tables (some alias) = tables alias

abbrev pub known_rows : Option (List Value) → Result (List Value)
known_rows none = err (Error.usage "sql_unknown_table")
known_rows (some rows) = ok rows

unfoldable pub named_table_rows : TableFactor → Tables → Result (List Value)
named_table_rows (TableFactor.table name alias) tables =
    known_rows
      (or_option (or_option (tables name) (by_alias tables alias)) (tables (codes "input")))
named_table_rows TableFactor.other_factor tables = err (Error.usage "sql_from")

unfoldable pub table_factor_name : TableFactor → Text
table_factor_name (TableFactor.table name none) = name
table_factor_name (TableFactor.table name (some alias)) = alias
table_factor_name TableFactor.other_factor = []

-- `join_sides`, with the expression of the constraint.
unfoldable pub join_on : JoinOperator → Result (Bool × SqlExpr)
join_on (JoinOperator.inner (JoinConstraint.on_expr on)) = ok (false, on)
join_on (JoinOperator.left_outer (JoinConstraint.on_expr on)) = ok (true, on)
join_on _ = err (Error.usage "sql_join")

module _ (host : Host) where
  -- `map.entry(k).or_insert_with` for each field of the right row.
  unfoldable pub add_missing : Fields → Fields → Fields
  add_missing m no_fields = m
  add_missing m (field k v rest) =
      let m' : Fields = elim (host.get k m) [ none ↦ host.insert k v m | some w ↦ m ] in
      add_missing m' rest

  abbrev pub fields_or_empty : Option Fields → Fields
  fields_or_empty none = no_fields
  fields_or_empty (some m) = m

  unfoldable pub merge_objects : Value → Value → Value
  unfolding add_missing as_object
  merge_objects left right =
      Value.object
        (add_missing (fields_or_empty (as_object left)) (fields_or_empty (as_object right)))

  -- The inner loop of `equi_join`: the right rows that match, merged.
  unfoldable pub matches : (Value → Bool) → Value → List Value → List Value
  unfolding merge_objects
  matches joined left [] = []
  matches joined left (right ∷ rows) =
      let later = matches joined left rows in
      if joined right then merge_objects left right ∷ later else later

  -- A left row without a match stays in a left join.
  abbrev pub or_left : Bool → Value → List Value → List Value
  or_left is_left left [] = if is_left then left ∷ [] else []
  or_left is_left left (v ∷ rest) = v ∷ rest

  unfoldable pub equi_join : (Value → Value → Bool) → Bool → List Value → List Value → List Value
  unfolding matches
  equi_join on is_left [] rights = []
  equi_join on is_left (left ∷ lefts) rights =
      or_left is_left left (matches (on left) left rights) ++ equi_join on is_left lefts rights

  module _ (floats : Floats) where
    unfoldable pub apply_join : List Value → Join → Tables → Result (List Value)
    unfolding equi_join named_table_rows join_on table_factor_name joins
    apply_join left_rows join tables = named_table_rows join.relation tables >>= λ right.
        join_on join.operator >>= λ sides. ok (
          equi_join (joins host floats sides.1 (table_factor_name join.relation)) sides.0 left_rows
            right)

    unfoldable pub apply_joins : List Value → List Join → Tables → Result (List Value)
    unfolding apply_join
    apply_joins rows [] tables = ok rows
    apply_joins rows (join ∷ rest) tables =
        apply_join rows join tables >>= λ joined. apply_joins joined rest tables

    unfoldable pub load_from : Option (TableFactor × List Join) → Tables → Result (List Value)
    unfolding apply_joins named_table_rows
    load_from none tables = err (Error.usage "sql_from")
    load_from (some (factor, rest)) tables =
        named_table_rows factor tables >>= λ rows. apply_joins rows rest tables
