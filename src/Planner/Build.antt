-- ===== src/Planner/Build.antt =====
-- planner.rs: `build_target_leaf`, `build_list_mapping`, `build_target_fields` and `plan_schemas`.
use shapeport.Prelude.{
  Text, text_eq, Bool, not, ◌&&◌, ◌||◌, Option, none, some, List, [], ◌∷◌, ◌++◌, if◌then◌else◌,
}
use shapeport.Error
use shapeport.Error.{Result, ok, err, ◌>>=◌}
use shapeport.Diagnostics.{Severity}
use shapeport.Schema.{DataType, FieldList, no_fields, field, Schema, require_record_fields}
use shapeport.Schema.Compatible.{type_eq, is_list}
use shapeport.Paths.{parse}
use shapeport.Plan.{
  Expr, Entries, no_entries, entry, Operation, ErrorPolicy, TransformationPlan, api_version,
  plan_kind,
}
use shapeport.Planner.{
  PlannerOptions, Action, Candidate, Unresolved, PlanOutcome, FieldRef, BuildContext, Assign,
  InsertExpr,
}
use shapeport.Planner.Names.{join_path}
use shapeport.Planner.Scoring.{assign_field}
use shapeport.Planner.Leaves.{
  Mapped, accept, push_ambiguous, push_missing, push_unresolved, choose_list_candidate,
  accept_direct_list_mapping, build_record_list_mapping,
}

-- The leaves of a source record, each after the ones before it.
unfoldable mutual
  unfolding join_path

  pub collect_source_fields : FieldList → Text → List FieldRef
  collect_source_fields no_fields prefix = []
  collect_source_fields (field name ty nullable aliases semantic metadata rest) prefix =
      collect_source_field ty (join_path prefix name) name nullable aliases
      ++ collect_source_fields rest prefix

  pub collect_source_field : DataType → Text → Text → Bool → List Text → List FieldRef
  collect_source_field (DataType.record_of nested) path name nullable aliases =
      collect_source_fields nested path
  collect_source_field ty path name nullable aliases =
      record { path = path; name = name; ty = ty; nullable = nullable; aliases = aliases } ∷ []

-- The match of `build_target_leaf`.
unfoldable pub map_assigned : Assign → FieldRef → BuildContext → Result Mapped
unfolding accept push_ambiguous push_missing
map_assigned (Assign.mapped candidate) target context = do
  path ← parse candidate.source
  ok (
    some (Expr.field path),
    accept candidate candidate.reasons (Action.map_field candidate.source target.path) target.path
        context,
  )
map_assigned (Assign.undecided cs) target context = ok (none, push_ambiguous target.path cs context)
map_assigned Assign.missing target context =
    ok (none, push_missing target.nullable target.path context)

unfoldable pub build_scalar : FieldRef → BuildContext → Result Mapped
unfolding assign_field map_assigned
build_scalar target context =
    map_assigned (assign_field target context.sources context.options context.used_sources) target
      context

unfoldable pub find_source : Text → List FieldRef → Option FieldRef
find_source path [] = none
find_source path (source ∷ sources) =
    let rest = find_source path sources in if text_eq source.path path then some source else rest

-- `build_list_mapping` once both fields are known.
unfoldable pub map_list :
    (DataType → Result PlanOutcome)
    → FieldRef
    → Candidate
    → Bool
    → DataType
    → DataType
    → BuildContext
    → Result Mapped
unfolding push_unresolved accept_direct_list_mapping build_record_list_mapping
map_list plan_elements target candidate source_null
      (DataType.list_of source_element source_nullable)
      (DataType.list_of target_element target_nullable) context =
    if source_null && not target.nullable || source_nullable && not target_nullable
    then ok (none, push_unresolved target.path (candidate ∷ []) context)
    else if type_eq source_element target_element
    then accept_direct_list_mapping candidate target.path context
    else build_record_list_mapping plan_elements source_element target_element candidate target.path
        context
map_list plan_elements target candidate source_null _ _ context = err (Error.plan "list_map_plan")

unfoldable pub map_found :
    (DataType → Result PlanOutcome)
    → FieldRef
    → Candidate
    → Option FieldRef
    → BuildContext
    → Result Mapped
unfolding push_unresolved map_list
map_found plan_elements target candidate none context =
    ok (none, push_unresolved target.path (candidate ∷ []) context)
map_found plan_elements target candidate (some source) context =
    map_list plan_elements target candidate source.nullable source.ty target.ty context

unfoldable pub map_chosen :
    (DataType → Result PlanOutcome) → FieldRef → Option Candidate × BuildContext → Result Mapped
unfolding find_source map_found
map_chosen plan_elements target (none, context) = ok (none, context)
map_chosen plan_elements target (some candidate, context) =
    map_found plan_elements target candidate (find_source candidate.source context.sources) context

unfoldable pub build_list_mapping :
    (DataType → Result PlanOutcome) → FieldRef → BuildContext → Result Mapped
unfolding choose_list_candidate map_chosen
build_list_mapping plan_elements target context =
    map_chosen plan_elements target (choose_list_candidate target context)

unfoldable pub build_target_leaf :
    (DataType → Result PlanOutcome) → FieldRef → BuildContext → Result Mapped
unfolding build_scalar build_list_mapping is_list
build_target_leaf plan_elements target context =
    if is_list target.ty
    then build_list_mapping plan_elements target context
    else build_scalar target context

abbrev pub Built : Type 0
Built = Entries × BuildContext

-- The plan of one `map`, with the defaults of `TransformationPlan::new`.
unfoldable pub ready_plan : Entries → TransformationPlan
ready_plan entries = record {
  api_version = api_version;
  kind = plan_kind;
  operations = Operation.map_fields entries ∷ [];
  error_policy = ErrorPolicy.fail;
  backend = "document";
  output = "required";
}

unfoldable pub ready_outcome : Entries → BuildContext → Result PlanOutcome
unfolding ready_plan
ready_outcome no_entries context = err (Error.plan "empty_mapping")
ready_outcome (entry name e rest) context =
    ok (PlanOutcome.ready (ready_plan (entry name e rest)) context.explanation [])

-- The end of `plan_schemas`, by what is unresolved.
unfoldable pub outcome_of : List Unresolved → Entries → BuildContext → Result PlanOutcome
unfolding ready_outcome
outcome_of [] fs context = ready_outcome fs context
outcome_of (u ∷ us) fs context = ok (
    PlanOutcome.ambiguous (u ∷ us) context.explanation (
      record {
        severity = Severity.error;
        code = "ambiguous_mapping";
        path = none;
        hint = some "resolve candidates or supply an explicit plan";
      }
      ∷ []))

unfoldable pub outcome : Built → Result PlanOutcome
unfolding outcome_of
outcome (fs, context) = outcome_of context.unresolved fs context

unfoldable pub fresh_context : FieldList → PlannerOptions → BuildContext
unfolding collect_source_fields
fresh_context source_fields options = record {
  sources = collect_source_fields source_fields [];
  options = options;
  used_sources = [];
  explanation = [];
  unresolved = [];
}

-- `plan_schemas` for a target whose fields `build` maps.
unfoldable pub plan_onto :
    (BuildContext → Result Built) → PlannerOptions → DataType → Result PlanOutcome
unfolding fresh_context outcome require_record_fields
plan_onto build options source = do
  source_fields ← require_record_fields (record { root = source })
  built ← build (fresh_context source_fields options)
  outcome built

module _ (insert : InsertExpr) where
  -- `fields.insert`, if there is an expression.
  unfoldable pub insert_mapped : Text → Option Expr → Entries → Entries
  insert_mapped name none fs = fs
  insert_mapped name (some e) fs = insert name e fs

  unfoldable mutual
    unfolding build_target_leaf plan_onto insert_mapped join_path

    -- The loop of `build_target_fields`, over the map built so far.
    pub build_onto : FieldList → Text → Built → Result Built
    build_onto no_fields prefix built = ok built
    build_onto (field name ty nullable aliases semantic metadata rest) prefix (fs, context) = do
      (e, after) ← build_target_field ty name (join_path prefix name) nullable aliases context
      build_onto rest prefix (insert_mapped name e fs, after)

    -- One turn of that loop.
    pub build_target_field :
        DataType → Text → Text → Bool → List Text → BuildContext → Result Mapped
    build_target_field (DataType.record_of nested) name path nullable aliases context = do
      (fs, after) ← build_onto nested path (no_entries, context)
      ok (some (Expr.object fs), after)
    build_target_field (DataType.list_of (DataType.record_of nested) element_nullable) name path
          nullable aliases context =
        build_target_leaf
          (λ source_element.
            plan_onto (λ inner. build_onto nested [] (no_entries, inner)) context.options
              source_element)
          (record {
            path = path;
            name = name;
            ty = DataType.list_of (DataType.record_of nested) element_nullable;
            nullable = nullable;
            aliases = aliases;
          })
          context
    build_target_field ty name path nullable aliases context =
        build_target_leaf (λ source_element. err (Error.schema "not_a_record"))
          (record { path = path; name = name; ty = ty; nullable = nullable; aliases = aliases })
          context

  unfoldable pub plan_schemas : Schema → Schema → PlannerOptions → Result PlanOutcome
  unfolding build_onto plan_onto require_record_fields
  plan_schemas source target options = do
    source_fields ← require_record_fields source
    target_fields ← require_record_fields target
    plan_onto (λ context. build_onto target_fields [] (no_entries, context)) options source.root
