-- ===== src/Planner/Valid.antt =====
-- planner.rs and plan.rs: the outcomes of `plan_schemas` and validation.
use shapeport.Prelude.{◌≡◌, ◌≢◌, refl, subst, Bool, Text, Option, none, some, List, [], ◌∷◌}
use shapeport.Error
use shapeport.Error.{Result, ok, err, ◌>>=◌, IfOk, IfOk-bind, IfOk-all}
use shapeport.Schema.{DataType, FieldList, no_fields, field, Schema, require_record_fields}
use shapeport.Plan.{Expr, Entries, no_entries, entry, validate_shape}
use shapeport.Plan.Checked.{Checked, EntriesChecked, CheckedOp, WellFormedPlan, validate_shape_iff}
use shapeport.Planner.{Unresolved, PlannerOptions, PlanOutcome, BuildContext, InsertExpr}
use shapeport.Planner.Names.{join_path}
use shapeport.Planner.Leaves.{Mapped, first_map}
use shapeport.Planner.Build.{
  Built, ready_plan, outcome_of, outcome, fresh_context, plan_onto, insert_mapped, build_onto,
  build_target_field, plan_schemas,
}
use shapeport.Planner.Ready.{
  InsertLaw, insert-EntriesChecked, MaybeChecked, OutcomeChecked, build_target_leaf-Fine, Fine,
}

-- What an outcome promises.
unfoldable pub Sound : PlanOutcome → Type 0
Sound (PlanOutcome.ready plan explanation diagnostics) =
    (validate_shape plan ≡ ok tt) × (diagnostics ≡ [])
Sound (PlanOutcome.ambiguous unresolved explanation diagnostics) = unresolved ≢ []

abbrev BuiltChecked : Built → Type 0
BuiltChecked b = EntriesChecked b.0

outcome_of-Checked :
    (us : List Unresolved) (es : Entries) (context : BuildContext)
    → EntriesChecked es
    → IfOk OutcomeChecked (outcome_of us es context)
unfolding outcome_of ready_plan first_map
outcome_of-Checked (u ∷ us) es context h = tt
outcome_of-Checked [] no_entries context h = tt
outcome_of-Checked [] (entry name e rest) context h = h

ready-WellFormed :
    (name : Text) (e : Expr) (rest : Entries)
    → EntriesChecked (entry name e rest)
    → WellFormedPlan (ready_plan (entry name e rest))
unfolding ready_plan CheckedOp
ready-WellFormed name e rest h = record {
  version = refl;
  kind = refl;
  some_operation = λ k. cc k;
  document = refl;
  operations = ((λ k. cc k, h), tt);
}

outcome_of-Sound :
    (us : List Unresolved) (es : Entries) (context : BuildContext)
    → EntriesChecked es
    → IfOk Sound (outcome_of us es context)
unfolding outcome_of Sound
outcome_of-Sound (u ∷ us) es context h = λ k. cc k
outcome_of-Sound [] no_entries context h = tt
outcome_of-Sound [] (entry name e rest) context h =
    ((validate_shape_iff (ready_plan (entry name e rest))).1 (ready-WellFormed name e rest h), refl)

plan_onto-IfOk :
    (P : PlanOutcome → Type 0) (build : BuildContext → Result Built)
    → ((context : BuildContext) → IfOk BuiltChecked (build context))
    → ((b : Built) → BuiltChecked b → IfOk P (outcome b))
    → (options : PlannerOptions) (source : DataType) → IfOk P (plan_onto build options source)
unfolding plan_onto
plan_onto-IfOk P build built-checked good options source =
    IfOk-all P (require_record_fields (record { root = source })) _ (λ source_fields.
      IfOk-bind BuiltChecked P (build (fresh_context source_fields options)) _
        (built-checked (fresh_context source_fields options)) good)

module _ (insert : InsertExpr) (law : InsertLaw insert) where
  insert_mapped-Checked :
      (name : Text) (e : Option Expr) (es : Entries)
      → MaybeChecked e
      → EntriesChecked es
      → EntriesChecked (insert_mapped insert name e es)
  unfolding insert_mapped
  insert_mapped-Checked name none es he hes = hes
  insert_mapped-Checked name (some e) es he hes = insert-EntriesChecked insert law name e es he hes

  mutual
    unfolding build_onto Checked

    onto-Checked :
        (fs : FieldList) (prefix : Text) (es : Entries) (context : BuildContext)
        → EntriesChecked es
        → IfOk BuiltChecked (build_onto insert fs prefix (es, context))
    onto-Checked no_fields prefix es context h = h
    onto-Checked (field name ty nullable aliases semantic metadata rest) prefix es context h =
        IfOk-bind (λ (m : Mapped). MaybeChecked m.0) BuiltChecked
          (build_target_field insert ty name (join_path prefix name) nullable aliases context) _
          (field-Checked ty name (join_path prefix name) nullable aliases context)
          (λ m checked.
            onto-Checked rest prefix (insert_mapped insert name m.0 es) m.1
              (insert_mapped-Checked name m.0 es checked h))

    field-Checked :
        (ty : DataType) (name path : Text) (nullable : Bool) (aliases : List Text)
        (context : BuildContext)
        → Fine (build_target_field insert ty name path nullable aliases context)
    field-Checked (DataType.record_of nested) name path nullable aliases context =
        IfOk-bind BuiltChecked (λ (m : Mapped). MaybeChecked m.0)
          (build_onto insert nested path (no_entries, context)) _
          (onto-Checked nested path no_entries context tt) (λ b checked. checked)
    field-Checked (DataType.list_of (DataType.record_of nested) element_nullable) name path nullable
          aliases context =
        build_target_leaf-Fine
          (λ source_element.
            plan_onto (λ inner. build_onto insert nested [] (no_entries, inner)) context.options
              source_element)
          (λ s.
            plan_onto-IfOk OutcomeChecked (λ inner. build_onto insert nested [] (no_entries, inner))
              (λ inner. onto-Checked nested [] no_entries inner tt)
              (λ b checked. outcome_of-Checked b.1.unresolved b.0 b.1 checked) context.options s)
          (record {
            path = path;
            name = name;
            ty = DataType.list_of (DataType.record_of nested) element_nullable;
            nullable = nullable;
            aliases = aliases;
          })
          context
    field-Checked ty name path nullable aliases context =
        build_target_leaf-Fine (λ source_element. err (Error.schema "not_a_record")) (λ s. tt)
          (record { path = path; name = name; ty = ty; nullable = nullable; aliases = aliases })
          context

  -- What `plan_schemas` returns is sound: a ready plan passes `validate_shape` and has no
  -- diagnostics, and an ambiguous outcome lists at least one target that is not resolved.
  pub plan_schemas-Sound :
      (source target : Schema) (options : PlannerOptions) (result : PlanOutcome)
      → plan_schemas insert source target options ≡ ok result
      → Sound result
  unfolding plan_schemas EntriesChecked
  plan_schemas-Sound source target options result h = subst (IfOk Sound) h (
      IfOk-all Sound (require_record_fields source) _ (λ source_fields.
        IfOk-all Sound (require_record_fields target) _ (λ target_fields.
          plan_onto-IfOk Sound (λ context. build_onto insert target_fields [] (no_entries, context))
            (λ context. onto-Checked target_fields [] no_entries context tt)
            (λ b checked. outcome_of-Sound b.1.unresolved b.0 b.1 checked) options source.root)))
