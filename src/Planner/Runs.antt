-- ===== src/Planner/Runs.antt =====
-- planner.rs: `used_sources` over a run of `build_target_fields`, the records in it included, and what
-- `plan_schemas` explains.
use shapeport.Prelude.{◌≡◌, refl, sym, subst, Text, Bool, List, [], ◌∷◌}
use shapeport.Error
use shapeport.Error.{Result, ok, err, ◌>>=◌, IfOk, IfOk-bind, IfOk-all}
use shapeport.Schema.{DataType, FieldList, Schema, no_fields, field, require_record_fields}
use shapeport.Plan.{Entries, no_entries, entry}
use shapeport.Planner.{PlannerOptions, Unresolved, PlanOutcome, BuildContext, InsertExpr}
use shapeport.Planner.Names.{join_path}
use shapeport.Planner.Leaves.{Mapped}
use shapeport.Planner.Build.{
  Built, ready_outcome, outcome_of, outcome, fresh_context, build_onto, build_target_field,
  plan_onto, plan_schemas, insert_mapped,
}
use shapeport.Planner.Ledger.{NoRepeat, mapped_sources, Safe, explained, Once}
use shapeport.Planner.Used.{build_target_leaf-Safe}

outcome_of-Once :
    (us : List Unresolved) (es : Entries) (context : BuildContext)
    → Safe context
    → IfOk Once (outcome_of us es context)
unfolding outcome_of ready_outcome
outcome_of-Once (u ∷ us) es context n = (subst NoRepeat (sym n.1) n.0, n.2)
outcome_of-Once [] no_entries context n = tt
outcome_of-Once [] (entry name e rest) context n = (subst NoRepeat (sym n.1) n.0, n.2)

plan_onto-Once :
    (build : BuildContext → Result Built) (options : PlannerOptions)
    → ((context : BuildContext) → Safe context → IfOk (λ b. Safe b.1) (build context))
    → (source : DataType) → IfOk Once (plan_onto build options source)
unfolding plan_onto outcome fresh_context
plan_onto-Once build options keeps source =
    IfOk-all Once (require_record_fields (record { root = source })) _ (λ source_fields.
      IfOk-bind (λ (b : Built). Safe b.1) Once (build (fresh_context source_fields options)) _
        (keeps (fresh_context source_fields options) (tt, refl, tt))
        (λ b safe. outcome_of-Once b.1.unresolved b.0 b.1 safe))

module _ (insert : InsertExpr) where
  mutual
    unfolding build_onto

    onto-Safe :
        (fs : FieldList) (prefix : Text) (es : Entries) (context : BuildContext)
        → Safe context
        → IfOk (λ b. Safe b.1) (build_onto insert fs prefix (es, context))
    onto-Safe no_fields prefix es context n = n
    onto-Safe (field name ty nullable aliases semantic metadata rest) prefix es context n =
        IfOk-bind (λ (m : Mapped). Safe m.1) (λ (b : Built). Safe b.1)
          (build_target_field insert ty name (join_path prefix name) nullable aliases context) _
          (field-Safe ty name (join_path prefix name) nullable aliases context n)
          (λ m safe. onto-Safe rest prefix (insert_mapped insert name m.0 es) m.1 safe)

    field-Safe :
        (ty : DataType) (name path : Text) (nullable : Bool) (aliases : List Text)
        (context : BuildContext)
        → Safe context
        → IfOk (λ m. Safe m.1) (build_target_field insert ty name path nullable aliases context)
    field-Safe (DataType.record_of nested) name path nullable aliases context n =
        IfOk-bind (λ (b : Built). Safe b.1) (λ (m : Mapped). Safe m.1)
          (build_onto insert nested path (no_entries, context)) _
          (onto-Safe nested path no_entries context n) (λ b safe. safe)
    field-Safe (DataType.list_of (DataType.record_of nested) element_nullable) name path nullable
          aliases context n =
        build_target_leaf-Safe
          (λ source_element.
            plan_onto (λ inner. build_onto insert nested [] (no_entries, inner)) context.options
              source_element)
          (plan_onto-Once (λ inner. build_onto insert nested [] (no_entries, inner)) context.options
            (λ inner safe. onto-Safe nested [] no_entries inner safe))
          (record {
            path = path;
            name = name;
            ty = DataType.list_of (DataType.record_of nested) element_nullable;
            nullable = nullable;
            aliases = aliases;
          })
          context n
    field-Safe ty name path nullable aliases context n =
        build_target_leaf-Safe (λ source_element. err (Error.schema "not_a_record"))
          (λ source_element. tt)
          (record { path = path; name = name; ty = ty; nullable = nullable; aliases = aliases })
          context n

  -- Over all targets of a plan, nested records and lists included, the explanation that
  -- `plan_schemas` returns maps no source path twice at its own level: entries for the fields of a
  -- list's elements belong to the level of the list's own plan.
  pub plan_schemas-NoRepeat :
      (source target : Schema) (options : PlannerOptions) (o : PlanOutcome)
      → plan_schemas insert source target options ≡ ok o
      → NoRepeat (mapped_sources (explained o))
  unfolding plan_schemas
  plan_schemas-NoRepeat source target options o h =
      let once : IfOk Once (plan_schemas insert source target options) =
        IfOk-all Once (require_record_fields source) _ (λ source_fields.
          IfOk-all Once (require_record_fields target) _ (λ target_fields.
            plan_onto-Once (λ context. build_onto insert target_fields [] (no_entries, context))
              options (λ context safe. onto-Safe target_fields [] no_entries context safe)
              source.root)) in
      (subst (IfOk Once) h once).0
