-- ===== src/Samples/Planning.antt =====
-- The planner: runs, and the theorems on it at concrete schemas.
use shapeport.Prelude.{
  codes, ◌≡◌, refl, false, ◌∙◌, inl, inr, true, Bool-cases, if◌then◌else◌, Text, text_eq,
  text_eq_iff, none, some, [], ◌∷◌,
}
use shapeport.Error
use shapeport.Error.{ok, err}
use shapeport.Planner.Accounted.{Accounted, build_target_leaf-Accounted}
use shapeport.Schema.{DataType, FieldList, Schema}
use shapeport.Schema.Compatible.{
  DataType-discrete, types_compatible, discriminant, is_list, type_eq, is_any, is_unknown,
}
use shapeport.Paths.{
  parse, parse_segments, parse_one, is_ident_start, is_ident_continue, parse_ident, ident_len,
  ident_rest_len, skip_dot_or_keep, reject_jsonpath,
}
use shapeport.Plan.{Expr, Entries}
use shapeport.Planner.{
  PlannerMode, PlannerOptions, Reason, Candidate, FieldRef, Assign, PlanOutcome, Action,
  ExplainEntry, BuildContext, InsertExpr,
}
use shapeport.Planner.Points.{Threshold, add_score, default_auto_accept, direct_score}
use shapeport.Sorting.{sort_by}
use shapeport.Planner.Names.{contains_name, join_path}
use shapeport.Planner.Scoring.{
  score_pair, score_list_pair, score_names, evidence, rank, candidates, assign_field,
}
use shapeport.Planner.Chosen.{Chosen, assign_field-Chosen}
use shapeport.Planner.Strict.{Named, score_pair-Named}
use shapeport.Planner.Build.{ready_plan, build_onto, build_target_leaf, plan_schemas}
use shapeport.Planner.Runs.{plan_schemas-NoRepeat}
use shapeport.Planner.Ledger.{NoRepeat}
use shapeport.Planner.Ready.{InsertLaw}
use shapeport.Planner.Valid.{Sound, plan_schemas-Sound}
use shapeport.Samples.Data.{id, qty, at}

-- A new key goes last; one that is there keeps its place.
unfoldable put : InsertExpr
put k e Entries.no_entries = Entries.entry k e Entries.no_entries
put k e (Entries.entry j f rest) =
    let later = put k e rest in
    if text_eq j k then Entries.entry j e rest else Entries.entry j f later

put-InsertLaw : InsertLaw put
unfolding put
put-InsertLaw k j e f Entries.no_entries (inl here) = inl here
put-InsertLaw k j e f Entries.no_entries (inr later) = inr later
put-InsertLaw k j e f (Entries.entry i g rest) a = elim (Bool-cases (text_eq i k)) [
  | inl same ↦ elim (rw same at a) [
    | inl here ↦ inl (here.0 ∙ (text_eq_iff i k).0 same, here.1)
    | inr later ↦ inr (inr later)
  ]
  | inr other ↦ elim (rw other at a) [
    | inl here ↦ inr (inl here)
    | inr later ↦ elim (put-InsertLaw k j e f rest later) [
      | inl new ↦ inl new
      | inr old ↦ inr (inr old)
    ]
  ]
]

abbrev strict_options : PlannerOptions
strict_options = record {
  mode = PlannerMode.strict;
  auto_accept_threshold = Threshold.units default_auto_accept;
  ambiguity_threshold = Threshold.units direct_score;
}

abbrev text_field : Text → FieldRef
text_field name = record {
  path = name;
  name = name;
  ty = DataType.string;
  nullable = false;
  aliases = [];
}

abbrev sources_fields : FieldList
sources_fields =
    FieldList.field id DataType.string false [] none []
      (FieldList.field qty DataType.string false [] none [] FieldList.no_fields)

abbrev flat : Schema
flat = record { root = DataType.record_of sources_fields }

-- 0.80 + 0.20, which is 1.00 in binary64.
abbrev id_candidate : Candidate
id_candidate = record {
  source = id;
  score = 72057594037927936;
  reasons = Reason.exact_name ∷ Reason.exact_type ∷ [];
}

id_scored : score_pair (text_field id) (text_field id) PlannerMode.strict ≡ some id_candidate
unfolding score_pair score_names evidence types_compatible discriminant text_eq is_any is_unknown
    is_list add_score
id_scored = refl

score_pair-Named_example :
    (types_compatible DataType.string DataType.string ≡ true)
    × Named (text_field id) (text_field id)
score_pair-Named_example = score_pair-Named (text_field id) (text_field id) id_candidate id_scored

id_mapped :
    assign_field (text_field id) (text_field id ∷ text_field qty ∷ []) strict_options []
    ≡ Assign.mapped id_candidate
unfolding assign_field score_pair score_names evidence types_compatible discriminant text_eq
    candidates rank sort_by contains_name is_any is_unknown is_list add_score
id_mapped = refl

assign_field-Chosen_example :
    Chosen
      (λ source. score_pair source (text_field id) PlannerMode.strict)
      []
      (text_field id ∷ text_field qty ∷ [])
      strict_options
      id_candidate
assign_field-Chosen_example =
    assign_field-Chosen (text_field id) (text_field id ∷ text_field qty ∷ []) strict_options []
      id_candidate id_mapped

abbrev direct : Text → ExplainEntry
direct name = record {
  target = name;
  source = some name;
  score = 72057594037927936;
  reasons = Reason.exact_name ∷ Reason.exact_type ∷ [];
  action = Action.map_field name name;
}

abbrev copied : Entries
copied =
    Entries.entry id (Expr.field (at id))
      (Entries.entry qty (Expr.field (at qty)) Entries.no_entries)

abbrev copy_outcome : PlanOutcome
copy_outcome = PlanOutcome.ready (ready_plan copied) (direct id ∷ direct qty ∷ []) []

copy_planned : plan_schemas put flat flat strict_options ≡ ok copy_outcome
unfolding plan_schemas assign_field score_pair score_names evidence types_compatible discriminant
    text_eq candidates rank sort_by contains_name is_any is_unknown is_list add_score put parse
    join_path build_onto reject_jsonpath parse_segments parse_one parse_ident ident_len
    is_ident_start skip_dot_or_keep ident_rest_len is_ident_continue
copy_planned = refl

plan_schemas-Sound_example : Sound copy_outcome
plan_schemas-Sound_example =
    plan_schemas-Sound put put-InsertLaw flat flat strict_options copy_outcome copy_planned

abbrev empty_context : BuildContext
empty_context = record {
  sources = text_field id ∷ text_field qty ∷ [];
  options = strict_options;
  used_sources = [];
  explanation = [];
  unresolved = [];
}

plan_schemas-NoRepeat_example : NoRepeat (id ∷ qty ∷ [])
unfolding text_eq
plan_schemas-NoRepeat_example =
    plan_schemas-NoRepeat put flat flat strict_options copy_outcome copy_planned

abbrev list_field : Text → FieldRef
list_field name = record {
  path = name;
  name = name;
  ty = DataType.list_of DataType.string false;
  nullable = false;
  aliases = [];
}

list_scored : score_list_pair (list_field id) (list_field id) PlannerMode.strict ≡ some id_candidate
unfolding score_list_pair score_names evidence text_eq is_list add_score type_eq DataType-discrete
list_scored = refl

abbrev unknown : FieldRef
unknown = text_field (codes "zzz")

abbrev reported_context : BuildContext
reported_context = record {
  sources = text_field id ∷ text_field qty ∷ [];
  options = strict_options;
  used_sources = [];
  explanation = [];
  unresolved = record { target = codes "zzz"; candidates = [] } ∷ [];
}

unknown_reported :
    build_target_leaf (λ s. err (Error.schema "not_a_record")) unknown empty_context
    ≡ ok (none, reported_context)
unfolding build_target_leaf assign_field score_pair score_names evidence types_compatible
    discriminant text_eq candidates rank sort_by contains_name is_any is_unknown is_list add_score
unknown_reported = refl

build_target_leaf-Accounted_example : Accounted unknown empty_context (none, reported_context)
build_target_leaf-Accounted_example =
    build_target_leaf-Accounted (λ s. err (Error.schema "not_a_record")) unknown empty_context
      (none, reported_context) unknown_reported
