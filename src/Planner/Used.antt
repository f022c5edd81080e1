-- ===== src/Planner/Used.antt =====
-- planner.rs: `used_sources`, and the sources that the explanation maps, over one target field.
use shapeport.Prelude.{
  ◌≡◌, refl, All, inl, inr, Bool, true, false, ◌&&◌, if◌then◌else◌, Bool-cases, Text, Option, none,
  some, List, [], ◌∷◌,
}
use shapeport.Error.{Result, ok, IfOk, IfOk-all, IfOk-bind}
use shapeport.Schema.{DataType}
use shapeport.Schema.Compatible.{is_list, type_eq}
use shapeport.Paths.{parse}
use shapeport.Plan.{Entries}
use shapeport.Planner.{Reason, Candidate, ExplainEntry, PlanOutcome, FieldRef, BuildContext, Assign}
use shapeport.Planner.Scoring.{assign_field, score_list_pair}
use shapeport.Planner.Chosen.{select_candidate-Chosen, assign_field-Chosen}
use shapeport.Planner.Strict.{score_pair-source, score_list_pair-source}
use shapeport.Planner.Leaves.{
  Mapped, push_unresolved, list_assigned, choose_list_candidate, accept_direct_list_mapping,
  is_record, first_map, map_entries, map_elements, build_record_list_mapping,
}
use shapeport.Planner.Build.{
  map_assigned, build_scalar, find_source, map_list, map_found, map_chosen, build_list_mapping,
  build_target_leaf,
}
use shapeport.Planner.Ledger.{
  Fresh, NamedSource, Safe, Once, accept-Safe, push_ambiguous-Safe, push_missing-Safe,
  push_list_element_explanations-Safe,
}

map_assigned-Safe :
    (a : Assign) (target : FieldRef) (context : BuildContext)
    → ((c : Candidate) → a ≡ Assign.mapped c → Fresh context c)
    → Safe context
    → IfOk (λ m. Safe m.1) (map_assigned a target context)
unfolding map_assigned
map_assigned-Safe (Assign.mapped c) target context fresh n =
    IfOk-all (λ (m : Mapped). Safe m.1) (parse c.source) _
      (λ path. accept-Safe c c.reasons _ target.path context refl (fresh c refl) n)
map_assigned-Safe (Assign.undecided cs) target context fresh n =
    push_ambiguous-Safe target.path cs context n
map_assigned-Safe Assign.missing target context fresh n =
    push_missing-Safe target.nullable target.path context n

assign_field-Fresh :
    (target : FieldRef) (context : BuildContext) (c : Candidate)
    → assign_field target context.sources context.options context.used_sources ≡ Assign.mapped c
    → Fresh context c
assign_field-Fresh target context c h =
    let from =
      (assign_field-Chosen target context.sources context.options context.used_sources c
        h).origin in
    rw (score_pair-source from.source target context.options.mode c from.scored) from.unused

map_entries-Safe :
    (c : Candidate) (path : Text) (es : List ExplainEntry) (context : BuildContext)
    (found : Option Entries)
    → All NamedSource es
    → Fresh context c
    → Safe context
    → IfOk (λ m. Safe m.1) (map_entries c path es context found)
unfolding map_entries
map_entries-Safe c path es context none named fresh n = tt
map_entries-Safe c path es context (some found) named fresh n =
    IfOk-all (λ (m : Mapped). Safe m.1) (parse c.source) _
      (λ parsed.
        push_list_element_explanations-Safe path c.source es _ named
          (accept-Safe c (Reason.list_elements ∷ []) _ path context refl fresh n))

map_elements-Safe :
    (c : Candidate) (path : Text) (context : BuildContext) (nested : PlanOutcome)
    → Once nested
    → Fresh context c
    → Safe context
    → IfOk (λ m. Safe m.1) (map_elements c path context nested)
unfolding map_elements push_unresolved
map_elements-Safe c path context (PlanOutcome.ambiguous u explanation diagnostics) once fresh n = n
map_elements-Safe c path context (PlanOutcome.ready plan explanation diagnostics) once fresh n =
    map_entries-Safe c path explanation context (first_map plan.operations) once.1 fresh n

module _ (plan_elements : DataType → Result PlanOutcome)
    (elements-Once : (s : DataType) → IfOk Once (plan_elements s)) where
  build_record_list_mapping-Safe :
      (s t : DataType) (c : Candidate) (path : Text) (context : BuildContext)
      → Fresh context c
      → Safe context
      → IfOk (λ m. Safe m.1) (build_record_list_mapping plan_elements s t c path context)
  unfolding build_record_list_mapping push_unresolved
  build_record_list_mapping-Safe s t c path context fresh n =
      elim (Bool-cases (is_record s && is_record t)) [
        | inl both ↦ rw both (
            IfOk-bind Once (λ (m : Mapped). Safe m.1) (plan_elements s) _ (elements-Once s)
              (λ nested once. map_elements-Safe c path context nested once fresh n))
        | inr other ↦ rw other n
      ]

  accept_direct-Safe :
      (c : Candidate) (path : Text) (context : BuildContext)
      → Fresh context c
      → Safe context
      → IfOk (λ m. Safe m.1) (accept_direct_list_mapping c path context)
  unfolding accept_direct_list_mapping
  accept_direct-Safe c path context fresh n =
      IfOk-all (λ (m : Mapped). Safe m.1) (parse c.source) _
        (λ parsed. accept-Safe c c.reasons _ path context refl fresh n)

  lists-Safe :
      (target : FieldRef) (c : Candidate) (blocked : Bool) (s t : DataType) (context : BuildContext)
      → Fresh context c
      → Safe context
      → IfOk
          (λ m. Safe m.1)
          (if blocked
            then ok (none, push_unresolved target.path (c ∷ []) context)
            else if type_eq s t
            then accept_direct_list_mapping c target.path context
            else build_record_list_mapping plan_elements s t c target.path context)
  unfolding push_unresolved
  lists-Safe target c true s t context fresh n = n
  lists-Safe target c false s t context fresh n = elim (Bool-cases (type_eq s t)) [
    | inl same ↦ rw same (accept_direct-Safe c target.path context fresh n)
    | inr other ↦ rw other (build_record_list_mapping-Safe s t c target.path context fresh n)
  ]

  map_list-Safe :
      (target : FieldRef) (c : Candidate) (source_null : Bool) (s t : DataType)
      (context : BuildContext)
      → Fresh context c
      → Safe context
      → IfOk (λ m. Safe m.1) (map_list plan_elements target c source_null s t context)
  unfolding map_list
  map_list-Safe target c source_null (DataType.list_of s a) (DataType.list_of t b) context fresh n =
      lists-Safe target c _ s t context fresh n
  map_list-Safe target c source_null _ _ context fresh n = tt

  map_found-Safe :
      (target : FieldRef) (c : Candidate) (found : Option FieldRef) (context : BuildContext)
      → Fresh context c
      → Safe context
      → IfOk (λ m. Safe m.1) (map_found plan_elements target c found context)
  unfolding map_found push_unresolved
  map_found-Safe target c none context fresh n = n
  map_found-Safe target c (some source) context fresh n =
      map_list-Safe target c source.nullable source.ty target.ty context fresh n

  list_assigned-Safe :
      (a : Assign) (target : FieldRef) (context : BuildContext)
      → ((c : Candidate) → a ≡ Assign.mapped c → Fresh context c)
      → Safe context
      → IfOk (λ m. Safe m.1) (map_chosen plan_elements target (list_assigned a target context))
  unfolding list_assigned map_chosen
  list_assigned-Safe (Assign.mapped c) target context fresh n =
      map_found-Safe target c (find_source c.source context.sources) context (fresh c refl) n
  list_assigned-Safe (Assign.undecided cs) target context fresh n =
      push_ambiguous-Safe target.path cs context n
  list_assigned-Safe Assign.missing target context fresh n =
      push_missing-Safe target.nullable target.path context n

  build_list_mapping-Safe :
      (target : FieldRef) (context : BuildContext)
      → Safe context
      → IfOk (λ m. Safe m.1) (build_list_mapping plan_elements target context)
  unfolding build_list_mapping choose_list_candidate
  build_list_mapping-Safe target context n =
      list_assigned-Safe _ target context
        (λ c h.
          let from =
            (select_candidate-Chosen (λ source. score_list_pair source target context.options.mode)
              context.used_sources context.sources context.options c h).origin in
          rw (score_list_pair-source from.source target context.options.mode c from.scored)
            from.unused)
        n

  -- Mapping one target field that is not a record keeps what is used once and explained, if the planner
  -- for the elements of a list explains its own sources.
  pub build_target_leaf-Safe :
      (target : FieldRef) (context : BuildContext)
      → Safe context
      → IfOk (λ m. Safe m.1) (build_target_leaf plan_elements target context)
  unfolding build_target_leaf build_scalar
  build_target_leaf-Safe target context n = elim (Bool-cases (is_list target.ty)) [
    | inl list ↦ rw list (build_list_mapping-Safe target context n)
    | inr scalar ↦
        rw scalar (map_assigned-Safe _ target context (assign_field-Fresh target context) n)
  ]
