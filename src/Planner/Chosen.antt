-- ===== src/Planner/Chosen.antt =====
-- planner.rs: which source `assign_field` and `choose_list_candidate` settle on.
use mathlib.Core.List.{Perm, Mem, mem-cons_self, mem-cons_of_mem}
use shapeport.Prelude.{
  ◌≡◌, ◌≢◌, ◌≤◌, ◌<◌, ◌⊎◌, ltb, ◌&&◌, refl, subst, inl, inr, Bool, true, false, Bool-cases, Text,
  Option, some, Option-cases, List, [], ◌∷◌, All, compare, Ordering, if◌then◌else◌, arith,
}
use shapeport.Sorting.{reverse_order, sort_by, IsOrder}
use shapeport.Sorting.Laws.{IsSorted, sort_by-perm, sort_by-All, sort_by-IsSorted}
use shapeport.Planner.{PlannerOptions, Candidate, FieldRef, Assign}
use shapeport.Planner.Points.{Score, Threshold, tie_margin, score_gap, is_below, is_reached}
use shapeport.Planner.Names.{contains_name}
use shapeport.Planner.Scoring.{
  is_smart, candidates, rank, close_second, select_candidate, score_pair, assign_field,
}

-- A candidate comes from a source that is not used yet.
pub record From (score : FieldRef → Option Candidate) (used : List Text) (sources : List FieldRef)
    (c : Candidate) : Type 0 where
  pub source : FieldRef
  pub among : Mem source sources
  pub scored : score source ≡ some c
  pub unused : contains_name source.path used ≡ false

-- A better score first.
abbrev pub by_score : Candidate → Candidate → Ordering
by_score a b = compare b.score a.score

-- The threshold is no number, or the score is at least as large.
abbrev pub NotBelow : Score → Threshold → Type 0
NotBelow score Threshold.nan = Unit
NotBelow score (Threshold.units t) = t ≤ score

is_below-NotBelow :
    (score : Score) (threshold : Threshold)
    → is_below score threshold ≡ false
    → NotBelow score threshold
unfolding is_below
is_below-NotBelow score Threshold.nan h = tt
is_below-NotBelow score (Threshold.units t) h = ground arith

-- The threshold is no number, or the score is smaller.
abbrev pub NotReached : Score → Threshold → Type 0
NotReached score Threshold.nan = Unit
NotReached score (Threshold.units t) = score < t

-- The first of the others is a tie margin away, or does not reach the threshold.
abbrev pub NotClose : PlannerOptions → Candidate → List Candidate → Type 0
NotClose options c [] = Unit
NotClose options c (second ∷ others) =
    (tie_margin ≤ score_gap c.score second.score)
    ⊎ NotReached second.score options.ambiguity_threshold

apart :
    (gap margin score : Score) (threshold : Threshold)
    → (ltb gap margin && is_reached score threshold) ≡ false
    → (margin ≤ gap) ⊎ NotReached score threshold
unfolding is_reached
apart gap margin score Threshold.nan h = inr tt
apart gap margin score (Threshold.units t) h = elim (Bool-cases (ltb gap margin)) [
  | inl within ↦ inr (ground arith)
  | inr away ↦ inl (ground arith)
]

close_second-NotClose :
    (options : PlannerOptions) (c : Candidate) (others : List Candidate)
    → close_second options c others ≡ false
    → NotClose options c others
unfolding close_second
close_second-NotClose options c [] h = tt
close_second-NotClose options c (second ∷ others) h =
    apart (score_gap c.score second.score) tie_margin second.score options.ambiguity_threshold h

-- Why a candidate was taken: it comes from an unused source; the others, from the best to the worst,
-- have no better score, and the first of them, the second best, is not close; and its score is enough
-- for the mode.
pub record Chosen (score : FieldRef → Option Candidate) (used : List Text) (sources : List FieldRef)
    (options : PlannerOptions) (c : Candidate) : Type 0 where
  pub origin : From score used sources c
  pub others : List Candidate
  pub all_candidates : Perm (c ∷ others) (candidates score used sources)
  pub sorted : IsSorted by_score (c ∷ others)
  pub best : All (λ d. d.score ≤ c.score) others
  pub clear : NotClose options c others
  pub enough : NotBelow c.score options.ambiguity_threshold
  pub sure : is_smart options.mode ≡ false → NotBelow c.score options.auto_accept_threshold

by_score-IsOrder : IsOrder by_score
by_score-IsOrder = record {
  flip = λ a b. unfold reverse_order in ground arith;
  eq_left = λ a b c h. ground arith;
  lt_trans = λ a b c h k. ground arith;
}

-- The guards of `select_candidate`, where it settles on a candidate.
record Accepted (options : PlannerOptions) (best : Candidate) (others : List Candidate)
    (c : Candidate) : Type 0 where
  is_best : best ≡ c
  clear : close_second options best others ≡ false
  enough : NotBelow best.score options.ambiguity_threshold
  sure : is_smart options.mode ≡ false → NotBelow best.score options.auto_accept_threshold

guards :
    (best c : Candidate) (others : List Candidate) (below close doubtful : Bool)
    → (if below
        then Assign.missing
        else if close
        then Assign.undecided (best ∷ others)
        else if doubtful
        then Assign.undecided (best ∷ others)
        else Assign.mapped best)
      ≡ Assign.mapped c
    → (best ≡ c) × (below ≡ false) × (close ≡ false) × (doubtful ≡ false)
guards best c others false false false h = (cc h, refl, refl, refl)
guards best c others true close doubtful h = cc h
guards best c others false true doubtful h = cc h
guards best c others false false true h = cc h

select_candidate-Accepted :
    (options : PlannerOptions) (best c : Candidate) (others : List Candidate)
    → select_candidate (best ∷ others) options ≡ Assign.mapped c
    → Accepted options best others c
unfolding select_candidate
select_candidate-Accepted options best c others h =
    let (same, not_below, not_close, not_doubtful) = guards best c others _ _ _ h in
    record {
      is_best = same;
      clear = not_close;
      enough = is_below-NotBelow _ _ not_below;
      sure = λ strict. is_below-NotBelow _ _ (ground arith);
    }

module _ (score : FieldRef → Option Candidate) (used : List Text) where
  From-later :
      (s : FieldRef) (sources : List FieldRef) (cs : List Candidate)
      → All (From score used sources) cs
      → All (From score used (s ∷ sources)) cs
  From-later s sources [] h = tt
  From-later s sources (c ∷ cs) h = (
    record {
      source = h.0.source;
      among = mem-cons_of_mem s h.0.among;
      scored = h.0.scored;
      unused = h.0.unused;
    },
    From-later s sources cs h.1,
  )

  candidates-From :
      (sources : List FieldRef) → All (From score used sources) (candidates score used sources)
  unfolding candidates
  candidates-From [] = tt
  candidates-From (s ∷ sources) =
      let rest = From-later s sources (candidates score used sources) (candidates-From sources) in
      elim (Bool-cases (contains_name s.path used)) [
        | inl taken ↦ rw taken rest
        | inr free ↦ elim (Option-cases (score s)) [
          | inl no_score ↦ rw (free, no_score) rest
          | inr (c, scored) ↦
              rw (free, scored)
                (record { source = s; among = mem-cons_self; scored = scored; unused = free }, rest)
        ]
      ]

  not_greater :
      (c : Candidate) (others : List Candidate)
      → All (λ d. by_score c d ≢ Ordering.gt) others
      → All (λ d. d.score ≤ c.score) others
  not_greater c [] h = tt
  not_greater c (d ∷ others) h = (ground arith, not_greater c others h.1)

  module _ (sources : List FieldRef) (options : PlannerOptions) where
    ranked-Chosen :
        (ranked : List Candidate) (c : Candidate)
        → Perm ranked (candidates score used sources)
        → IsSorted by_score ranked
        → All (From score used sources) ranked
        → select_candidate ranked options ≡ Assign.mapped c
        → Chosen score used sources options c
    unfolding select_candidate
    ranked-Chosen [] c p sorted from h = cc h
    ranked-Chosen (best ∷ others) c p sorted from h =
        let a = select_candidate-Accepted options best c others h in
        subst (Chosen score used sources options) a.is_best (record {
          origin = from.0;
          others = others;
          all_candidates = p;
          sorted = sorted;
          best = not_greater best others sorted.0;
          clear = close_second-NotClose options best others a.clear;
          enough = a.enough;
          sure = a.sure;
        })

    pub select_candidate-Chosen :
        (c : Candidate)
        → select_candidate (rank (candidates score used sources)) options ≡ Assign.mapped c
        → Chosen score used sources options c
    unfolding rank
    select_candidate-Chosen c h =
        let cs = candidates score used sources in
        ranked-Chosen (sort_by by_score cs) c (sort_by-perm by_score cs)
          (sort_by-IsSorted by_score by_score-IsOrder cs)
          (sort_by-All by_score (From score used sources) cs (candidates-From sources)) h

-- The source that `assign_field` maps to a target is not used yet and has a score for that target that
-- no other candidate exceeds. With all other candidates sorted by falling score, the first, if there is
-- one, is at least the tie margin away or does not reach the ambiguity threshold. The source's score is not below the ambiguity
-- threshold, and in strict mode not below the one for automatic acceptance; no score is below a
-- threshold that is no number.
pub assign_field-Chosen :
    (target : FieldRef) (sources : List FieldRef) (options : PlannerOptions) (used : List Text)
    (c : Candidate)
    → assign_field target sources options used ≡ Assign.mapped c
    → Chosen (λ source. score_pair source target options.mode) used sources options c
unfolding assign_field
assign_field-Chosen target sources options used c h =
    select_candidate-Chosen (λ source. score_pair source target options.mode) used sources options c
      h
