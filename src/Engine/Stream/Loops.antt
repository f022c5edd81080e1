-- ===== src/Engine/Stream/Loops.antt =====
-- engine.rs: what `map_records` and `filter_records` do, said by plain recursion over the records.
use mathlib.Core.Path.{ap₂, fun_ext}
use shapeport.Prelude.{
  sym, inl, inr, Bool-cases, ℕ, ◌+◌, ◌≡◌, refl, ◌∙◌, true, false, List, [], ◌∷◌, ◌++◌, append_assoc,
  append-nil,
}
use shapeport.Error.{Result, ok, err, ◌>>=◌}
use shapeport.Diagnostics.{RejectedRecord}
use shapeport.Value.{Value, is_truthy}
use shapeport.Plan.{ErrorPolicy}
use shapeport.Engine.Stream.{
  ExecuteOutcome, rejected, handle_record_result, map_from, filter_one, filter_from,
}

-- One record of a loop: the records that it contributes, or its error.
unfoldable pub pass : Value → Result Value → Result (List Value)
pass v (ok value) = elim (is_truthy value) [ true ↦ ok (v ∷ []) | false ↦ ok [] ]
pass v (err e) = err e

unfoldable pub once : Result Value → Result (List Value)
once (ok value) = ok (value ∷ [])
once (err e) = err e

abbrev pub kept_one : Result (List Value) → List Value
kept_one (ok vs) = vs
kept_one (err e) = []

abbrev pub rejected_one : ℕ → Result (List Value) → List RejectedRecord
rejected_one i (ok vs) = []
rejected_one i (err e) = rejected i e ∷ []

-- Over all records: what is kept, what is rejected and where, and the first error.
module _ (g : Value → Result (List Value)) where
  unfoldable pub kept : List Value → List Value
  kept [] = []
  kept (v ∷ rest) = kept_one (g v) ++ kept rest

  unfoldable pub rejects_from : ℕ → List Value → List RejectedRecord
  rejects_from i [] = []
  rejects_from i (v ∷ rest) = rejected_one i (g v) ++ rejects_from (i + 1) rest

  unfoldable pub first_error : List Value → Result (Unit {0})
  first_error [] = ok tt
  first_error (v ∷ rest) = g v >>= λ _. first_error rest

-- What the loop leaves under each policy.
unfoldable pub loop_outcome :
    (Value → Result (List Value))
    → ℕ
    → List Value
    → ErrorPolicy
    → ExecuteOutcome
    → Result ExecuteOutcome
unfolding kept rejects_from first_error
loop_outcome g i vs ErrorPolicy.skip s = ok (record s { records = s.records ++ kept g vs })
loop_outcome g i vs ErrorPolicy.collect s =
    ok (record { records = s.records ++ kept g vs; rejects = s.rejects ++ rejects_from g i vs })
loop_outcome g i vs ErrorPolicy.fail s =
    first_error g vs >>= λ _. ok (record s { records = s.records ++ kept g vs })

loop_outcome-nil :
    (g : Value → Result (List Value)) (i : ℕ) (policy : ErrorPolicy) (s : ExecuteOutcome)
    → loop_outcome g i [] policy s ≡ ok s
unfolding loop_outcome
loop_outcome-nil g i ErrorPolicy.skip s = simp append-nil
loop_outcome-nil g i ErrorPolicy.collect s = simp append-nil
loop_outcome-nil g i ErrorPolicy.fail s = simp append-nil

-- One round of either loop.
abbrev contribute : Result (List Value) → ℕ → ErrorPolicy → ExecuteOutcome → Result ExecuteOutcome
contribute (ok ws) i policy s = ok (record s { records = s.records ++ ws })
contribute (err e) i ErrorPolicy.skip s = ok s
contribute (err e) i ErrorPolicy.collect s =
    ok (record s { rejects = s.rejects ++ rejected i e ∷ [] })
contribute (err e) i ErrorPolicy.fail s = err e

handle_record_result-eq :
    (r : Result Value) (i : ℕ) (policy : ErrorPolicy) (s : ExecuteOutcome)
    → handle_record_result r i policy s ≡ contribute (once r) i policy s
unfolding handle_record_result once
handle_record_result-eq (ok value) i policy s = refl
handle_record_result-eq (err e) i ErrorPolicy.skip s = refl
handle_record_result-eq (err e) i ErrorPolicy.collect s = refl
handle_record_result-eq (err e) i ErrorPolicy.fail s = refl

filter_one-eq :
    (r : Result Value) (v : Value) (i : ℕ) (policy : ErrorPolicy) (s : ExecuteOutcome)
    → filter_one r v i policy s ≡ contribute (pass v r) i policy s
unfolding filter_one pass
filter_one-eq (ok value) v i policy s = elim (Bool-cases (is_truthy value)) [
  | inl truthy ↦ rw (truthy, filter_one, pass)
  | inr falsy ↦ rw (falsy, filter_one, pass) (simp append-nil)
]
filter_one-eq (err e) v i ErrorPolicy.skip s = refl
filter_one-eq (err e) v i ErrorPolicy.collect s = refl
filter_one-eq (err e) v i ErrorPolicy.fail s = refl

-- A round, then the rest as `loop_outcome` has it, is `loop_outcome` of the whole.
contribute_step :
    (g : Value → Result (List Value)) (v : Value) (r : Result (List Value)) (i : ℕ)
    (rest : List Value) (policy : ErrorPolicy) (s : ExecuteOutcome)
    → g v ≡ r
    → (contribute r i policy s >>= λ s'. loop_outcome g (i + 1) rest policy s')
      ≡ loop_outcome g i (v ∷ rest) policy s
unfolding loop_outcome
contribute_step g v (ok ws) i rest ErrorPolicy.skip s e = simp (e, append_assoc)
contribute_step g v (ok ws) i rest ErrorPolicy.collect s e = simp (e, append_assoc)
contribute_step g v (ok ws) i rest ErrorPolicy.fail s e = simp (e, append_assoc)
contribute_step g v (err x) i rest ErrorPolicy.skip s e = simp e
contribute_step g v (err x) i rest ErrorPolicy.collect s e = simp (e, append_assoc)
contribute_step g v (err x) i rest ErrorPolicy.fail s e = simp e

-- `map_records` under each policy: it keeps the results in order; `collect` adds a reject with the
-- position and the code of each record that failed; `fail` stops with the first error.
pub map_from-eq :
    (f : Value → Result Value) (i : ℕ) (vs : List Value) (policy : ErrorPolicy) (s : ExecuteOutcome)
    → map_from f i vs policy s ≡ loop_outcome (λ v. once (f v)) i vs policy s
unfolding map_from
map_from-eq f i [] policy s = sym (loop_outcome-nil (λ v. once (f v)) i policy s)
map_from-eq f i (v ∷ rest) policy s =
    ap₂ ◌>>=◌ (handle_record_result-eq (f v) i policy s)
      (fun_ext λ s'. map_from-eq f (i + 1) rest policy s')
    ∙ contribute_step (λ v. once (f v)) v (once (f v)) i rest policy s refl

-- `filter_records` under each policy: the same, keeping the records whose predicate is truthy.
pub filter_from-eq :
    (test : Value → Result Value) (i : ℕ) (vs : List Value) (policy : ErrorPolicy)
    (s : ExecuteOutcome)
    → filter_from test i vs policy s ≡ loop_outcome (λ v. pass v (test v)) i vs policy s
unfolding filter_from
filter_from-eq test i [] policy s = sym (loop_outcome-nil (λ v. pass v (test v)) i policy s)
filter_from-eq test i (v ∷ rest) policy s =
    ap₂ ◌>>=◌ (filter_one-eq (test v) v i policy s)
      (fun_ext λ s'. filter_from-eq test (i + 1) rest policy s')
    ∙ contribute_step (λ v. pass v (test v)) v (pass v (test v)) i rest policy s refl
