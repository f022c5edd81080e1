-- ===== src/Query.antt =====
-- crates/shapeport-core/src/query.rs: SQL over tables of records. The syntax is that of the `sqlparser`
-- crate, as far as the code tells its forms apart; what it refuses is one constructor.
pub mod Eval
pub mod Joins
pub mod Project
pub mod Run
pub mod Joined
use shapeport.Prelude.{ℕ, Text, Bool, Option, List, Ordering}

pub data BinaryOperator : Type 0 where
  eq not_eq gt lt gt_eq lt_eq and_op or_op plus minus multiply divide other_op : BinaryOperator

pub data SqlValue : Type 0 where
  number : Text → SqlValue
  quoted : Text → SqlValue
  boolean : Bool → SqlValue
  null_value other_value : SqlValue

-- A call has its lowercased name, and its first argument if that is an expression.
pub data SqlExpr : Type 0 where
  identifier : Text → SqlExpr
  compound : List Text → SqlExpr
  literal_of : SqlValue → SqlExpr
  binary : SqlExpr → BinaryOperator → SqlExpr → SqlExpr
  call : Text → SqlExpr
  call_on : Text → SqlExpr → SqlExpr
  other_expr : Text → SqlExpr

pub data SelectItem : Type 0 where
  unnamed_expr : SqlExpr → SelectItem
  with_alias : SqlExpr → Text → SelectItem
  wildcard qualified_wildcard : SelectItem

-- A table by the last part of its name, and its alias.
pub data TableFactor : Type 0 where
  table : Text → Option Text → TableFactor
  other_factor : TableFactor

pub data JoinConstraint : Type 0 where
  on_expr : SqlExpr → JoinConstraint
  other_constraint : JoinConstraint

-- `Inner` and `Join`, `LeftOuter` and `Left`, and the rest.
pub data JoinOperator : Type 0 where
  inner left_outer : JoinConstraint → JoinOperator
  other_join : JoinOperator

pub record Join : Type 0 where
  pub relation : TableFactor
  pub operator : JoinOperator

pub data GroupByExpr : Type 0 where
  expressions : List SqlExpr → GroupByExpr
  all_columns : GroupByExpr

-- The first entry of FROM with its joins; the code reads no other.
pub record Select : Type 0 where
  pub projection : List SelectItem
  pub from : Option (TableFactor × List Join)
  pub selection : Option SqlExpr
  pub group_by : GroupByExpr

-- Each expression with whether it is descending.
pub data OrderBy : Type 0 where
  order_exprs : List (SqlExpr × Bool) → OrderBy
  order_all : OrderBy

-- The limit is that of either form of the clause; its offset is not read.
pub record SqlQuery : Type 0 where
  pub has_with : Bool
  pub body : Option Select
  pub order_by : Option OrderBy
  pub limit : Option SqlExpr

-- The arithmetic of `f64`, on bit patterns.
pub record Floats : Type 0 where
  pub add : ℕ → ℕ → ℕ
  pub sub : ℕ → ℕ → ℕ
  pub mul : ℕ → ℕ → ℕ
  pub div : ℕ → ℕ → ℕ
  pub min : ℕ → ℕ → ℕ
  pub max : ℕ → ℕ → ℕ
  pub total_cmp : ℕ → ℕ → Ordering
  pub zero : ℕ
  pub infinity : ℕ
  pub neg_infinity : ℕ
