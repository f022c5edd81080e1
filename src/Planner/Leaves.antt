-- ===== src/Planner/Leaves.antt =====
-- planner.rs: what one target field that is not a record becomes, `build_target_leaf` and the list
-- mappings. A context is passed on, and a push is an append.
use shapeport.Prelude.{
  Text, codes, Bool, true, false, ◌&&◌, Option, none, some, List, [], ◌∷◌, ◌++◌, if◌then◌else◌,
}
use mathlib.Core.Option
use shapeport.Error
use shapeport.Error.{Result, ok, err, ◌>>=◌}
use shapeport.Schema.{DataType}
use shapeport.Paths.{parse}
use shapeport.Plan.{Expr, Entries, Operation}
use shapeport.Planner.{
  Reason, Action, Candidate, ExplainEntry, PlanOutcome, FieldRef, BuildContext, Assign,
}
use shapeport.Planner.Scoring.{candidates, rank, select_candidate, score_list_pair}

unfoldable pub explain : ExplainEntry → BuildContext → BuildContext
explain e context = record {
  sources = context.sources;
  options = context.options;
  used_sources = context.used_sources;
  explanation = context.explanation ++ e ∷ [];
  unresolved = context.unresolved;
}

unfoldable pub mark_used : Text → BuildContext → BuildContext
mark_used path context = record {
  sources = context.sources;
  options = context.options;
  used_sources = context.used_sources ++ path ∷ [];
  explanation = context.explanation;
  unresolved = context.unresolved;
}

unfoldable pub push_unresolved : Text → List Candidate → BuildContext → BuildContext
push_unresolved target_path cs context = record {
  sources = context.sources;
  options = context.options;
  used_sources = context.used_sources;
  explanation = context.explanation;
  unresolved = context.unresolved ++ record { target = target_path; candidates = cs } ∷ [];
}

unfoldable pub push_optional_omission : Text → BuildContext → BuildContext
unfolding explain
push_optional_omission target_path context =
    explain
      (record {
        target = target_path;
        source = none;
        score = 0;
        reasons = Reason.unmatched ∷ [];
        action = Action.omit;
      })
      context

unfoldable pub push_ambiguous : Text → List Candidate → BuildContext → BuildContext
unfolding explain push_unresolved
push_ambiguous target_path cs context =
    explain
      (record {
        target = target_path;
        source = none;
        score = 0;
        reasons = Reason.ambiguous_match ∷ [];
        action = Action.no_mapping;
      })
      (push_unresolved target_path cs context)

-- `Assign::Missing`, by whether the target field may be null.
unfoldable pub push_missing : Bool → Text → BuildContext → BuildContext
unfolding push_optional_omission push_unresolved
push_missing true target_path context = push_optional_omission target_path context
push_missing false target_path context = push_unresolved target_path [] context

-- The entry for an accepted candidate; its source is used from here on.
unfoldable pub accept : Candidate → List Reason → Action → Text → BuildContext → BuildContext
unfolding explain mark_used
accept candidate reasons action target_path context =
    explain
      (record {
        target = target_path;
        source = some candidate.source;
        score = candidate.score;
        reasons = reasons;
        action = action;
      })
      (mark_used candidate.source context)

abbrev pub Mapped : Type 0
Mapped = Option Expr × BuildContext

unfoldable pub accept_direct_list_mapping : Candidate → Text → BuildContext → Result Mapped
unfolding accept
accept_direct_list_mapping candidate target_path context = do
  path ← parse candidate.source
  ok (
    some (Expr.field path),
    accept candidate candidate.reasons (Action.map_field candidate.source target_path) target_path
        context,
  )

-- The match of `choose_list_candidate`.
unfoldable pub list_assigned : Assign → FieldRef → BuildContext → Option Candidate × BuildContext
unfolding push_ambiguous push_missing
list_assigned (Assign.mapped candidate) target context = (some candidate, context)
list_assigned (Assign.undecided cs) target context = (none, push_ambiguous target.path cs context)
list_assigned Assign.missing target context =
    (none, push_missing target.nullable target.path context)

unfoldable pub choose_list_candidate : FieldRef → BuildContext → Option Candidate × BuildContext
unfolding candidates rank select_candidate list_assigned
choose_list_candidate target context =
    list_assigned
      (select_candidate
        (rank (
          candidates (λ source. score_list_pair source target context.options.mode)
            context.used_sources context.sources))
        context.options)
      target context

-- `format!("{path}[].{inner}")`
unfoldable pub element_path : Text → Text → Text
element_path path inner = path ++ codes "[]." ++ inner

unfoldable pub push_list_element_explanations :
    Text → Text → List ExplainEntry → BuildContext → BuildContext
unfolding explain element_path
push_list_element_explanations target_path source_path [] context = context
push_list_element_explanations target_path source_path (e ∷ es) context =
    push_list_element_explanations target_path source_path es (
      explain
        (record {
          target = element_path target_path e.target;
          source = Option.map (λ source. element_path source_path source) e.source;
          score = e.score;
          reasons = e.reasons;
          action = e.action;
        })
        context)

unfoldable pub is_record : DataType → Bool
is_record (DataType.record_of fs) = true
is_record _ = false

-- `let Some(Operation::Map { fields }) = plan.operations.first()`
unfoldable pub first_map : List Operation → Option Entries
first_map (Operation.map_fields entries ∷ rest) = some entries
first_map _ = none

-- What the elements' entries become in the outer plan.
unfoldable pub map_entries :
    Candidate → Text → List ExplainEntry → BuildContext → Option Entries → Result Mapped
unfolding accept push_list_element_explanations
map_entries candidate target_path explanation context none = err (Error.plan "list_map_plan")
map_entries candidate target_path explanation context (some entries) = do
  path ← parse candidate.source
  ok (
    some (Expr.list_map path (Expr.object entries)),
    push_list_element_explanations target_path candidate.source explanation (
        accept candidate (Reason.list_elements ∷ [])
          (Action.map_elements candidate.source target_path) target_path context),
  )

unfoldable pub map_elements : Candidate → Text → BuildContext → PlanOutcome → Result Mapped
unfolding push_unresolved map_entries first_map
map_elements candidate target_path context (PlanOutcome.ready plan explanation diagnostics) =
    map_entries candidate target_path explanation context (first_map plan.operations)
map_elements candidate target_path context (PlanOutcome.ambiguous u explanation diagnostics) =
    ok (none, push_unresolved target_path (candidate ∷ []) context)

-- `plan_elements` is `plan_schemas` for the elements of the target list.
unfoldable pub build_record_list_mapping :
    (DataType → Result PlanOutcome)
    → DataType
    → DataType
    → Candidate
    → Text
    → BuildContext
    → Result Mapped
unfolding is_record map_elements push_unresolved
build_record_list_mapping plan_elements source_element target_element candidate target_path
      context =
    if is_record source_element && is_record target_element
    then (do
      nested ← plan_elements source_element
      map_elements candidate target_path context nested)
    else ok (none, push_unresolved target_path (candidate ∷ []) context)
