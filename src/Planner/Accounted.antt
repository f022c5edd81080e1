-- ===== src/Planner/Accounted.antt =====
-- planner.rs: what becomes of a target field, and what is reported of it.
use shapeport.Prelude.{
  ◌≡◌, refl, subst, ◌⊎◌, inl, inr, Bool, true, false, ◌&&◌, if◌then◌else◌, Bool-cases, Text, Option,
  none, some, List, [], ◌∷◌, ◌++◌,
}
use shapeport.Error.{Result, ok, IfOk, IfOk-all}
use shapeport.Schema.{DataType}
use shapeport.Schema.Compatible.{is_list, type_eq}
use shapeport.Paths.{parse}
use shapeport.Plan.{Entries}
use shapeport.Planner.{Candidate, ExplainEntry, PlanOutcome, FieldRef, BuildContext, Assign}
use shapeport.Planner.Leaves.{
  Mapped, push_unresolved, push_missing, list_assigned, choose_list_candidate,
  accept_direct_list_mapping, is_record, first_map, map_entries, map_elements,
  push_list_element_explanations, build_record_list_mapping,
}
use shapeport.Planner.Build.{
  map_assigned, build_scalar, find_source, map_list, map_found, map_chosen, build_list_mapping,
  build_target_leaf,
}

-- The target is reported, after what was reported before.
abbrev pub Reported : FieldRef → BuildContext → BuildContext → Type 0
Reported target context after =
    (cs : List Candidate) × (after.unresolved
      ≡ context.unresolved ++ record { target = target.path; candidates = cs } ∷ [])

-- What became of a target field.
abbrev pub Accounted : FieldRef → BuildContext → Mapped → Type 0
Accounted target context (some e, after) = after.unresolved ≡ context.unresolved
Accounted target context (none, after) =
    ((target.nullable ≡ true) × (after.unresolved ≡ context.unresolved))
    ⊎ Reported target context after

abbrev Done : FieldRef → BuildContext → Result Mapped → Type 0
Done target context m = IfOk (Accounted target context) m

missing-Accounted :
    (target : FieldRef) (context : BuildContext) (nullable : Bool)
    → target.nullable ≡ nullable
    → Accounted target context (none, push_missing nullable target.path context)
unfolding push_missing
missing-Accounted target context true h = inl (h, refl)
missing-Accounted target context false h = inr ([], refl)

push_list_element_explanations-unresolved :
    (target source : Text) (es : List ExplainEntry) (context : BuildContext)
    → (push_list_element_explanations target source es context).unresolved ≡ context.unresolved
unfolding push_list_element_explanations
push_list_element_explanations-unresolved target source [] context = refl
push_list_element_explanations-unresolved target source (e ∷ es) context =
    push_list_element_explanations-unresolved target source es _

map_assigned-Done :
    (a : Assign) (target : FieldRef) (context : BuildContext)
    → Done target context (map_assigned a target context)
unfolding map_assigned
map_assigned-Done (Assign.mapped c) target context =
    IfOk-all (Accounted target context) (parse c.source) _ (λ path. refl)
map_assigned-Done (Assign.undecided cs) target context = inr (cs, refl)
map_assigned-Done Assign.missing target context =
    missing-Accounted target context target.nullable refl

map_entries-Done :
    (c : Candidate) (target : FieldRef) (es : List ExplainEntry) (context : BuildContext)
    (found : Option Entries)
    → Done target context (map_entries c target.path es context found)
unfolding map_entries
map_entries-Done c target es context none = tt
map_entries-Done c target es context (some found) =
    IfOk-all (Accounted target context) (parse c.source) _
      (λ path. push_list_element_explanations-unresolved target.path c.source es _)

map_elements-Done :
    (c : Candidate) (target : FieldRef) (context : BuildContext) (nested : PlanOutcome)
    → Done target context (map_elements c target.path context nested)
unfolding map_elements
map_elements-Done c target context (PlanOutcome.ambiguous u explanation diagnostics) =
    inr (c ∷ [], refl)
map_elements-Done c target context (PlanOutcome.ready plan explanation diagnostics) =
    map_entries-Done c target explanation context (first_map plan.operations)

module _ (plan_elements : DataType → Result PlanOutcome) (target : FieldRef) where
  build_record_list_mapping-Done :
      (s t : DataType) (c : Candidate) (context : BuildContext)
      → Done target context (build_record_list_mapping plan_elements s t c target.path context)
  unfolding build_record_list_mapping
  build_record_list_mapping-Done s t c context = elim (Bool-cases (is_record s && is_record t)) [
    | inl both ↦ rw both (
        IfOk-all (Accounted target context) (plan_elements s) _
          (λ nested. map_elements-Done c target context nested))
    | inr other ↦ rw other (inr (c ∷ [], refl))
  ]

  accept_direct-Done :
      (c : Candidate) (context : BuildContext)
      → Done target context (accept_direct_list_mapping c target.path context)
  unfolding accept_direct_list_mapping
  accept_direct-Done c context =
      IfOk-all (Accounted target context) (parse c.source) _ (λ path. refl)

  lists-Done :
      (c : Candidate) (blocked : Bool) (s t : DataType) (context : BuildContext)
      → Done target context (
          if blocked
          then ok (none, push_unresolved target.path (c ∷ []) context)
          else if type_eq s t
          then accept_direct_list_mapping c target.path context
          else build_record_list_mapping plan_elements s t c target.path context)
  unfolding push_unresolved
  lists-Done c true s t context = inr (c ∷ [], refl)
  lists-Done c false s t context = elim (Bool-cases (type_eq s t)) [
    | inl same ↦ rw same (accept_direct-Done c context)
    | inr other ↦ rw other (build_record_list_mapping-Done s t c context)
  ]

  map_list-Done :
      (c : Candidate) (source_null : Bool) (s t : DataType) (context : BuildContext)
      → Done target context (map_list plan_elements target c source_null s t context)
  unfolding map_list
  map_list-Done c source_null (DataType.list_of s a) (DataType.list_of t b) context =
      lists-Done c _ s t context
  map_list-Done c source_null _ _ context = tt

  map_found-Done :
      (c : Candidate) (found : Option FieldRef) (context : BuildContext)
      → Done target context (map_found plan_elements target c found context)
  unfolding map_found
  map_found-Done c none context = inr (c ∷ [], refl)
  map_found-Done c (some source) context =
      map_list-Done c source.nullable source.ty target.ty context

  list_assigned-Done :
      (a : Assign) (context : BuildContext)
      → Done target context (map_chosen plan_elements target (list_assigned a target context))
  unfolding list_assigned map_chosen
  list_assigned-Done (Assign.mapped c) context =
      map_found-Done c (find_source c.source context.sources) context
  list_assigned-Done (Assign.undecided cs) context = inr (cs, refl)
  list_assigned-Done Assign.missing context = missing-Accounted target context target.nullable refl

  leaf-Done :
      (context : BuildContext)
      → Done target context (build_target_leaf plan_elements target context)
  unfolding build_target_leaf build_scalar build_list_mapping choose_list_candidate
  leaf-Done context = elim (Bool-cases (is_list target.ty)) [
    | inl list ↦ rw list (list_assigned-Done _ context)
    | inr scalar ↦ rw scalar (map_assigned-Done _ target context)
  ]

  -- Where mapping a target field that is not a record succeeds, whatever the planner for the elements
  -- of a list does, the field is mapped and nothing is reported, or it may be null and is left out
  -- with nothing reported, or it is reported as unresolved.
  pub build_target_leaf-Accounted :
      (context : BuildContext) (result : Mapped)
      → build_target_leaf plan_elements target context ≡ ok result
      → Accounted target context result
  build_target_leaf-Accounted context result h = subst (Done target context) h (leaf-Done context)
