-- ===== src/Planner/Ready.antt =====
-- planner.rs and plan.rs: the casts in the expressions that a target field is mapped to.
use shapeport.Prelude.{
  ◌≡◌, ◌⊎◌, refl, sym, subst, inl, inr, Bool, true, false, ◌&&◌, if◌then◌else◌, Bool-cases, Text,
  Option, none, some, List, [], ◌∷◌,
}
use shapeport.Error.{Result, ok, IfOk, IfOk-bind, IfOk-all}
use shapeport.Schema.{DataType}
use shapeport.Schema.Compatible.{is_list, type_eq}
use shapeport.Paths.{parse}
use shapeport.Plan.{Expr, Entries, no_entries, entry}
use shapeport.Plan.Checked.{Checked, EntriesChecked}
use shapeport.Planner.{
  Candidate, ExplainEntry, PlanOutcome, FieldRef, BuildContext, Assign, InsertExpr,
}
use shapeport.Planner.Leaves.{
  Mapped, push_unresolved, list_assigned, choose_list_candidate, accept_direct_list_mapping,
  is_record, first_map, map_entries, map_elements, build_record_list_mapping,
}
use shapeport.Planner.Build.{
  map_assigned, build_scalar, find_source, map_list, map_found, map_chosen, build_list_mapping,
  build_target_leaf,
}

-- An expression and the key that it stands under.
abbrev pub Among : Text → Expr → Entries → Type 0
Among k e no_entries = ⊥
Among k e (entry j f rest) = ((k ≡ j) × (e ≡ f)) ⊎ Among k e rest

-- What `IndexMap::insert` documents, as far as it matters here: nothing enters the map but the pair.
abbrev pub InsertLaw : InsertExpr → Type 0
InsertLaw insert =
    (k j : Text) (e f : Expr) (m : Entries)
    → Among j f (insert k e m)
    → ((j ≡ k) × (f ≡ e)) ⊎ Among j f m

EntriesChecked-Among :
    (m : Entries) (j : Text) (f : Expr) → EntriesChecked m → Among j f m → Checked f
unfolding Checked
EntriesChecked-Among no_entries j f h a = absurd a
EntriesChecked-Among (entry k e rest) j f h (inl same) = subst Checked (sym same.1) h.0
EntriesChecked-Among (entry k e rest) j f h (inr later) = EntriesChecked-Among rest j f h.1 later

Among-EntriesChecked :
    (m : Entries) → ((j : Text) (f : Expr) → Among j f m → Checked f) → EntriesChecked m
unfolding Checked
Among-EntriesChecked no_entries h = tt
Among-EntriesChecked (entry k e rest) h =
    (h k e (inl (refl, refl)), Among-EntriesChecked rest (λ j f a. h j f (inr a)))

pub insert-EntriesChecked :
    (insert : InsertExpr)
    → InsertLaw insert
    → (k : Text) (e : Expr) (m : Entries) → Checked e
    → EntriesChecked m
    → EntriesChecked (insert k e m)
insert-EntriesChecked insert law k e m he hm = Among-EntriesChecked (insert k e m) (λ j f a.
    elim (law k j e f m a) [
      | inl same ↦ subst Checked (sym same.1) he
      | inr old ↦ EntriesChecked-Among m j f hm old
    ])

-- What a leaf gives has safe casts, and the entries of a nested plan have.
abbrev pub MaybeChecked : Option Expr → Type 0
MaybeChecked none = Unit
MaybeChecked (some e) = Checked e

abbrev pub MaybeEntriesChecked : Option Entries → Type 0
MaybeEntriesChecked none = Unit
MaybeEntriesChecked (some es) = EntriesChecked es

abbrev pub OutcomeChecked : PlanOutcome → Type 0
OutcomeChecked (PlanOutcome.ready plan explanation diagnostics) =
    MaybeEntriesChecked (first_map plan.operations)
OutcomeChecked (PlanOutcome.ambiguous u explanation diagnostics) = Unit

abbrev pub Fine : Result Mapped → Type 0
Fine m = IfOk (λ (r : Mapped). MaybeChecked r.0) m

map_assigned-Fine :
    (a : Assign) (target : FieldRef) (context : BuildContext) → Fine (map_assigned a target context)
unfolding map_assigned Checked
map_assigned-Fine (Assign.mapped c) target context =
    IfOk-all (λ (r : Mapped). MaybeChecked r.0) (parse c.source) _ (λ path. tt)
map_assigned-Fine (Assign.undecided cs) target context = tt
map_assigned-Fine Assign.missing target context = tt

map_entries-Fine :
    (c : Candidate) (path : Text) (es : List ExplainEntry) (context : BuildContext)
    (found : Option Entries)
    → MaybeEntriesChecked found
    → Fine (map_entries c path es context found)
unfolding map_entries Checked
map_entries-Fine c path es context none h = tt
map_entries-Fine c path es context (some found) h =
    IfOk-all (λ (r : Mapped). MaybeChecked r.0) (parse c.source) _ (λ parsed. h)

map_elements-Fine :
    (c : Candidate) (path : Text) (context : BuildContext) (nested : PlanOutcome)
    → OutcomeChecked nested
    → Fine (map_elements c path context nested)
unfolding map_elements
map_elements-Fine c path context (PlanOutcome.ambiguous u explanation diagnostics) h = tt
map_elements-Fine c path context (PlanOutcome.ready plan explanation diagnostics) h =
    map_entries-Fine c path explanation context (first_map plan.operations) h

module _ (plan_elements : DataType → Result PlanOutcome)
    (sound : (s : DataType) → IfOk OutcomeChecked (plan_elements s)) where
  build_record_list_mapping-Fine :
      (s t : DataType) (c : Candidate) (path : Text) (context : BuildContext)
      → Fine (build_record_list_mapping plan_elements s t c path context)
  unfolding build_record_list_mapping
  build_record_list_mapping-Fine s t c path context =
      elim (Bool-cases (is_record s && is_record t)) [
        | inl both ↦ rw both (
            IfOk-bind OutcomeChecked (λ (r : Mapped). MaybeChecked r.0) (plan_elements s) _
              (sound s) (λ nested h. map_elements-Fine c path context nested h))
        | inr other ↦ rw other tt
      ]

  accept_direct-Fine :
      (c : Candidate) (path : Text) (context : BuildContext)
      → Fine (accept_direct_list_mapping c path context)
  unfolding accept_direct_list_mapping Checked
  accept_direct-Fine c path context =
      IfOk-all (λ (r : Mapped). MaybeChecked r.0) (parse c.source) _ (λ parsed. tt)

  lists-Fine :
      (target : FieldRef) (c : Candidate) (blocked : Bool) (s t : DataType) (context : BuildContext)
      → Fine (
          if blocked
          then ok (none, push_unresolved target.path (c ∷ []) context)
          else if type_eq s t
          then accept_direct_list_mapping c target.path context
          else build_record_list_mapping plan_elements s t c target.path context)
  lists-Fine target c true s t context = tt
  lists-Fine target c false s t context = elim (Bool-cases (type_eq s t)) [
    | inl same ↦ rw same (accept_direct-Fine c target.path context)
    | inr other ↦ rw other (build_record_list_mapping-Fine s t c target.path context)
  ]

  map_list-Fine :
      (target : FieldRef) (c : Candidate) (source_null : Bool) (s t : DataType)
      (context : BuildContext)
      → Fine (map_list plan_elements target c source_null s t context)
  unfolding map_list
  map_list-Fine target c source_null (DataType.list_of s a) (DataType.list_of t b) context =
      lists-Fine target c _ s t context
  map_list-Fine target c source_null _ _ context = tt

  map_found-Fine :
      (target : FieldRef) (c : Candidate) (found : Option FieldRef) (context : BuildContext)
      → Fine (map_found plan_elements target c found context)
  unfolding map_found
  map_found-Fine target c none context = tt
  map_found-Fine target c (some source) context =
      map_list-Fine target c source.nullable source.ty target.ty context

  list_assigned-Fine :
      (a : Assign) (target : FieldRef) (context : BuildContext)
      → Fine (map_chosen plan_elements target (list_assigned a target context))
  unfolding list_assigned map_chosen
  list_assigned-Fine (Assign.mapped c) target context =
      map_found-Fine target c (find_source c.source context.sources) context
  list_assigned-Fine (Assign.undecided cs) target context = tt
  list_assigned-Fine Assign.missing target context = tt

  pub build_target_leaf-Fine :
      (target : FieldRef) (context : BuildContext)
      → Fine (build_target_leaf plan_elements target context)
  unfolding build_target_leaf build_scalar build_list_mapping choose_list_candidate
  build_target_leaf-Fine target context = elim (Bool-cases (is_list target.ty)) [
    | inl list ↦ rw list (list_assigned-Fine _ target context)
    | inr scalar ↦ rw scalar (map_assigned-Fine _ target context)
  ]
