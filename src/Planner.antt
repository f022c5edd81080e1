-- ===== src/Planner.antt =====
-- crates/shapeport-core/src/planner.rs: the mapping planner. Fixed texts (reasons, actions) are the
-- constructors of a type. A plan has no metadata and no contracts here: execution reads neither.
pub mod Points
pub mod Names
pub mod Scoring
pub mod Leaves
pub mod Build
pub mod Chosen
pub mod Strict
pub mod Ledger
pub mod Used
pub mod Runs
pub mod Ready
pub mod Valid
pub mod Accounted
use shapeport.Prelude.{ℕ, Text, String, Bool, List, Option}
use shapeport.Diagnostics.{Diagnostic}
use shapeport.Schema.{DataType}
use shapeport.Plan.{Expr, Entries, TransformationPlan}
use Points.{Score, Threshold}

pub data PlannerMode : Type 0 where
  strict smart : PlannerMode

pub record PlannerOptions : Type 0 where
  pub mode : PlannerMode
  pub auto_accept_threshold : Threshold
  pub ambiguity_threshold : Threshold

pub data Reason : Type 0 where
  exact_name alias_match normalized_name normalized_path synonym : Reason
  exact_type compatible_type list_container list_elements unmatched ambiguous_match : Reason

pub data Action : Type 0 where
  map_field map_elements : Text → Text → Action
  omit no_mapping : Action

pub record Candidate : Type 0 where
  pub source : Text
  pub score : Score
  pub reasons : List Reason

pub record Unresolved : Type 0 where
  pub target : Text
  pub candidates : List Candidate

pub record ExplainEntry : Type 0 where
  pub target : Text
  pub source : Option Text
  pub score : Score
  pub reasons : List Reason
  pub action : Action

pub data PlanOutcome : Type 0 where
  ready : TransformationPlan → List ExplainEntry → List Diagnostic → PlanOutcome
  ambiguous : List Unresolved → List ExplainEntry → List Diagnostic → PlanOutcome

-- A field with its path; of the field, what the planner reads.
pub record FieldRef : Type 0 where
  pub path : Text
  pub name : Text
  pub ty : DataType
  pub nullable : Bool
  pub aliases : List Text

pub record BuildContext : Type 0 where
  pub sources : List FieldRef
  pub options : PlannerOptions
  pub used_sources : List Text
  pub explanation : List ExplainEntry
  pub unresolved : List Unresolved

pub data Assign : Type 0 where
  mapped : Candidate → Assign
  undecided : List Candidate → Assign
  missing : Assign

-- `IndexMap<String, Expr>::insert` of the `indexmap` crate.
abbrev pub InsertExpr : Type 0
InsertExpr = Text → Expr → Entries → Entries
