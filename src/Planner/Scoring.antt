-- ===== src/Planner/Scoring.antt =====
-- planner.rs: `score_names`, `score_pair`, `score_list_pair`, `select_candidate` and `assign_field`.
use shapeport.Prelude.{
  Text, text_eq, Bool, true, false, not, ◌&&◌, ◌||◌, Option, none, some, List, [], ◌∷◌, ◌++◌, ltb,
  leb, ◌==◌, compare, if◌then◌else◌,
}
use shapeport.Sorting.{sort_by}
use shapeport.Schema.Compatible.{types_compatible, type_eq, discriminant, is_list}
use shapeport.Planner.{PlannerMode, PlannerOptions, Reason, Candidate, FieldRef, Assign}
use shapeport.Planner.Points.{
  Score, direct_score, normalized_score, synonym_score, same_type_score, compatible_score,
  tie_margin, is_below, is_reached, add_score, score_gap,
}
use shapeport.Planner.Names.{normalize_name, are_synonyms, contains_name}

unfoldable pub is_smart : PlannerMode → Bool
is_smart PlannerMode.smart = true
is_smart PlannerMode.strict = false

unfoldable pub is_exact_type : Reason → Bool
is_exact_type Reason.exact_type = true
is_exact_type _ = false

-- `reason.contains("exact-name") || reason.contains("alias")`
unfoldable pub is_direct : Reason → Bool
is_direct Reason.exact_name = true
is_direct Reason.alias_match = true
is_direct _ = false

unfoldable pub any_direct : List Reason → Bool
unfolding is_direct
any_direct [] = false
any_direct (r ∷ rs) = is_direct r || any_direct rs

unfoldable pub normalized_path_match : FieldRef → FieldRef → Bool
normalized_path_match source target =
    let source_path = normalize_name source.path in
    let target_path = normalize_name target.path in
    let source_name = normalize_name source.name in
    let target_name = normalize_name target.name in
    text_eq source_path target_path
    || text_eq source_path target_name
    || text_eq source_name target_path

-- The score and the reasons so far.
abbrev pub Evidence : Type 0
Evidence = Score × List Reason

unfoldable pub add_if : Bool → Score → Reason → Evidence → Evidence
add_if true bonus reason (score, reasons) = (add_score score bonus, reasons ++ reason ∷ [])
add_if false bonus reason e = e

-- The evidence that each test adds, in the order of the source.
unfoldable pub gather : Bool → Bool → Bool → Bool → Bool → Reason → Evidence
unfolding add_if is_exact_type
gather same_name by_alias by_normal by_path by_synonym type_reason =
    let e₁ = add_if same_name direct_score Reason.exact_name (0, []) in
    let e₂ = add_if by_alias direct_score Reason.alias_match e₁ in
    let e₃ = add_if by_normal normalized_score Reason.normalized_name e₂ in
    let e₄ = add_if by_path normalized_score Reason.normalized_path e₃ in
    let e₅ = add_if by_synonym synonym_score Reason.synonym e₄ in
    let bonus = if is_exact_type type_reason then same_type_score else compatible_score in
    add_if true bonus type_reason e₅

-- The last two guards, and the candidate.
unfoldable pub offer : Text → PlannerMode → Evidence → Option Candidate
unfolding is_smart any_direct
offer path mode (score, reasons) =
    if leb score 0
    then none
    else if not (is_smart mode) && not (any_direct reasons)
    then none
    else some (record { source = path; score = score; reasons = reasons })

unfoldable pub evidence : FieldRef → FieldRef → PlannerMode → Reason → Evidence
unfolding gather is_smart
evidence source target mode type_reason =
    let same_name = text_eq source.name target.name in
    let by_alias = not same_name && contains_name target.name source.aliases in
    let normalized_eq = text_eq (normalize_name source.name) (normalize_name target.name) in
    let by_normal = is_smart mode && normalized_eq && not same_name in
    let direct_name_evidence = same_name || by_alias || by_normal in
    let by_path =
      is_smart mode && not direct_name_evidence && normalized_path_match source target in
    let by_synonym = is_smart mode && are_synonyms source.name target.name in
    gather same_name by_alias by_normal by_path by_synonym type_reason

unfoldable pub score_names : FieldRef → FieldRef → PlannerMode → Reason → Option Candidate
unfolding offer evidence
score_names source target mode type_reason =
    offer source.path mode (evidence source target mode type_reason)

unfoldable pub score_pair : FieldRef → FieldRef → PlannerMode → Option Candidate
score_pair source target mode =
    if not (types_compatible source.ty target.ty)
    then none
    else score_names source target mode (
        if discriminant source.ty == discriminant target.ty
        then Reason.exact_type
        else Reason.compatible_type)

unfoldable pub score_list_pair : FieldRef → FieldRef → PlannerMode → Option Candidate
score_list_pair source target mode =
    if not (is_list source.ty) || not (is_list target.ty)
    then none
    else score_names source target mode
        (if type_eq source.ty target.ty then Reason.exact_type else Reason.list_container)

-- The sources that are not used yet, each with its score.
unfoldable pub candidates :
    (FieldRef → Option Candidate) → List Text → List FieldRef → List Candidate
candidates score used [] = []
candidates score used (source ∷ sources) =
    let rest = candidates score used sources in
    if contains_name source.path used
    then rest
    else (elim (score source) [ none ↦ rest | some c ↦ c ∷ rest ])

-- `b.score.total_cmp(&a.score)`: the best first, in source order where they tie.
unfoldable pub rank : List Candidate → List Candidate
rank ranked = sort_by (λ a b. compare b.score a.score) ranked

unfoldable pub close_second : PlannerOptions → Candidate → List Candidate → Bool
unfolding is_reached
close_second options best [] = false
close_second options best (second ∷ others) =
    ltb (score_gap best.score second.score) tie_margin
    && is_reached second.score options.ambiguity_threshold

unfoldable pub select_candidate : List Candidate → PlannerOptions → Assign
unfolding close_second is_smart is_below
select_candidate [] options = Assign.missing
select_candidate (best ∷ others) options =
    if is_below best.score options.ambiguity_threshold
    then Assign.missing
    else if close_second options best others
    then Assign.undecided (best ∷ others)
    else if not (is_smart options.mode) && is_below best.score options.auto_accept_threshold
    then Assign.undecided (best ∷ others)
    else Assign.mapped best

unfoldable pub assign_field : FieldRef → List FieldRef → PlannerOptions → List Text → Assign
unfolding candidates rank select_candidate
assign_field target sources options used =
    select_candidate
      (rank (candidates (λ source. score_pair source target options.mode) used sources)) options
