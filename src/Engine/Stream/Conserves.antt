-- ===== src/Engine/Stream/Conserves.antt =====
-- engine.rs: the number of records and rejects under `collect`.
use shapeport.Prelude.{
  ℕ, ◌+◌, ◌≡◌, refl, ◌∙◌, inl, inr, List, [], ◌∷◌, ◌++◌, length, length-append, arith,
}
use shapeport.Error.{Result, ok, Result-cases}
use shapeport.Diagnostics.{RejectedRecord}
use shapeport.Value.{Value}
use shapeport.Plan.{ErrorPolicy}
use shapeport.Engine.Stream.{ExecuteOutcome, map_from}
use shapeport.Engine.Stream.Loops.{once, kept, rejects_from, loop_outcome, map_from-eq}

-- Every record is kept or rejected, and no record is both.
length-kept :
    (f : Value → Result Value) (i : ℕ) (vs : List Value)
    → length (kept (λ v. once (f v)) vs) + length (rejects_from (λ v. once (f v)) i vs) ≡ length vs
unfolding kept rejects_from once
length-kept f i [] = refl
length-kept f i (v ∷ rest) = elim (Result-cases (f v)) [
  | inl (w, done) ↦ rw done (omega (arith, length-kept f (i + 1) rest))
  | inr (e, failed) ↦ rw failed (omega (arith, length-kept f (i + 1) rest))
]

-- Under `collect`, a record operation never fails, and each input record is either in the output or
-- in the rejects: their numbers add up.
pub map_collect_conserves :
    (f : Value → Result Value) (vs : List Value) (rejects : List RejectedRecord)
    → (s : ExecuteOutcome) × (map_from f 0 vs ErrorPolicy.collect
          (record { records = []; rejects = rejects })
        ≡ ok s)
      × (length s.records + length s.rejects ≡ length vs + length rejects)
map_collect_conserves f vs rejects =
    let g = λ (v : Value). once (f v) in
    (
      record { records = kept g vs; rejects = rejects ++ rejects_from g 0 vs },
      map_from-eq f 0 vs ErrorPolicy.collect (record { records = []; rejects = rejects })
          ∙ unfold loop_outcome in refl,
      omega (arith, length-append rejects (rejects_from g 0 vs), length-kept f 0 vs),
    )
