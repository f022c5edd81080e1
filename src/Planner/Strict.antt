-- ===== src/Planner/Strict.antt =====
-- planner.rs: what a candidate of `score_names` tells, above all in strict mode.
use shapeport.Prelude.{
  ◌≡◌, refl, sym, ◌∙◌, ◌⊎◌, inl, inr, Bool, true, false, Bool-cases, Text, text_eq, text_eq_iff,
  some, if◌then◌else◌, ◌==◌, arith,
}
use shapeport.Schema.Compatible.{types_compatible, discriminant, is_list, type_eq}
use shapeport.Planner.{PlannerMode, Reason, Candidate, FieldRef}
use shapeport.Planner.Names.{contains_name}
use shapeport.Planner.Scoring.{
  is_smart, is_direct, any_direct, add_if, Evidence, gather, evidence, offer, score_names,
  score_pair, score_list_pair,
}

-- The source has the target's name, or lists it among its aliases.
unfoldable pub Named : FieldRef → FieldRef → Type 0
Named source target =
    (source.name ≡ target.name) ⊎ (contains_name target.name source.aliases ≡ true)

offer-source :
    (path : Text) (mode : PlannerMode) (e : Evidence) (c : Candidate)
    → offer path mode e ≡ some c
    → c.source ≡ path
unfolding offer
offer-source path mode (score, reasons) c h = ground arith

offer-direct :
    (path : Text) (e : Evidence) (c : Candidate)
    → offer path PlannerMode.strict e ≡ some c
    → any_direct e.1 ≡ true
unfolding offer is_smart
offer-direct path (score, reasons) c h = ground arith

gather-direct :
    (reason : Reason)
    → is_direct reason ≡ false
    → any_direct (gather false false false false false reason).1 ≡ false
unfolding gather add_if any_direct
gather-direct reason h = rw h refl

evidence-direct :
    (source target : FieldRef) (reason : Reason)
    → is_direct reason ≡ false
    → text_eq source.name target.name ≡ false
    → contains_name target.name source.aliases ≡ false
    → any_direct (evidence source target PlannerMode.strict reason).1 ≡ false
unfolding evidence is_smart
evidence-direct source target reason h other no_alias =
    rw (other, no_alias) (gather-direct reason h)

score_names-Named :
    (source target : FieldRef) (reason : Reason) (c : Candidate)
    → is_direct reason ≡ false
    → score_names source target PlannerMode.strict reason ≡ some c
    → Named source target
unfolding score_names Named
score_names-Named source target reason c indirect h =
    let direct = offer-direct source.path (evidence source target PlannerMode.strict reason) c h in
    elim (Bool-cases (text_eq source.name target.name)) [
      | inl same ↦ inl ((text_eq_iff source.name target.name).0 same)
      | inr other ↦ elim (Bool-cases (contains_name target.name source.aliases)) [
        | inl aliased ↦ inr aliased
        | inr no_alias ↦
            let indirect' = evidence-direct source target reason indirect other no_alias in
            cc (sym direct ∙ indirect')
      ]
    ]

-- The path of a candidate is that of its source.
pub score_names-source :
    (source target : FieldRef) (mode : PlannerMode) (reason : Reason) (c : Candidate)
    → score_names source target mode reason ≡ some c
    → c.source ≡ source.path
unfolding score_names
score_names-source source target mode reason c h =
    offer-source source.path mode (evidence source target mode reason) c h

pub score_pair-source :
    (source target : FieldRef) (mode : PlannerMode) (c : Candidate)
    → score_pair source target mode ≡ some c
    → c.source ≡ source.path
unfolding score_pair
score_pair-source source target mode c h = ground (
  arith,
  score_names-source source target mode Reason.exact_type c,
  score_names-source source target mode Reason.compatible_type c,
)

pub score_list_pair-source :
    (source target : FieldRef) (mode : PlannerMode) (c : Candidate)
    → score_list_pair source target mode ≡ some c
    → c.source ≡ source.path
unfolding score_list_pair
score_list_pair-source source target mode c h = ground (
  arith,
  score_names-source source target mode Reason.exact_type c,
  score_names-source source target mode Reason.list_container c,
)

-- In strict mode a candidate for a field that is not a list has a compatible type, and the target's
-- name or an alias equal to it: no normalized name and no synonym counts.
pub score_pair-Named :
    (source target : FieldRef) (c : Candidate)
    → score_pair source target PlannerMode.strict ≡ some c
    → (types_compatible source.ty target.ty ≡ true) × Named source target
unfolding score_pair is_direct
score_pair-Named source target c h = elim (Bool-cases (types_compatible source.ty target.ty)) [
  | inr apart ↦ cc (rw apart at h)
  | inl together ↦
      (together, by_reason (discriminant source.ty == discriminant target.ty) (rw together at h))
]
  where
    by_reason :
        (same : Bool)
        → score_names source target PlannerMode.strict
            (if same then Reason.exact_type else Reason.compatible_type)
          ≡ some c
        → Named source target
    by_reason true k = score_names-Named source target Reason.exact_type c refl k
    by_reason false k = score_names-Named source target Reason.compatible_type c refl k

-- In strict mode a list that is offered for a list has the target's name or an alias equal to it.
pub score_list_pair-Named :
    (source target : FieldRef) (c : Candidate)
    → score_list_pair source target PlannerMode.strict ≡ some c
    → (is_list source.ty ≡ true) × (is_list target.ty ≡ true) × Named source target
unfolding score_list_pair is_direct
score_list_pair-Named source target c h = elim (Bool-cases (is_list source.ty)) [
  | inr apart ↦ cc (rw apart at h)
  | inl left ↦ elim (Bool-cases (is_list target.ty)) [
    | inr apart ↦ cc (rw (left, apart) at h)
    | inl right ↦ (left, right, by_reason (type_eq source.ty target.ty) (rw (left, right) at h))
  ]
]
  where
    by_reason :
        (same : Bool)
        → score_names source target PlannerMode.strict
            (if same then Reason.exact_type else Reason.list_container)
          ≡ some c
        → Named source target
    by_reason true k = score_names-Named source target Reason.exact_type c refl k
    by_reason false k = score_names-Named source target Reason.list_container c refl k
