-- ===== src/Engine/Stream/Agreement.antt =====
-- engine.rs: one loop over the records under different error policies.
use shapeport.Prelude.{ℕ, ◌+◌, ◌≡◌, refl, List, [], ◌∷◌, ◌++◌, append-nil}
use shapeport.Error.{Result, ok, err, ◌>>=◌, >>=-eq-ok}
use shapeport.Diagnostics.{RejectedRecord}
use shapeport.Value.{Value}
use shapeport.Plan.{ErrorPolicy}
use shapeport.Engine.Stream.{ExecuteOutcome, map_from, filter_from}
use shapeport.Engine.Stream.Loops.{
  once, pass, kept, rejects_from, first_error, loop_outcome, map_from-eq, filter_from-eq,
}

-- The records of a run, or its error, without the rejects.
abbrev pub records_of : Result ExecuteOutcome → Result (List Value)
records_of r = r >>= λ s. ok s.records

pub then_agree :
    (r r' : Result ExecuteOutcome) (k k' : ExecuteOutcome → Result ExecuteOutcome)
    → records_of r ≡ records_of r'
    → ((s t : ExecuteOutcome) → s.records ≡ t.records → records_of (k s) ≡ records_of (k' t))
    → records_of (r >>= k) ≡ records_of (r' >>= k')
then_agree (ok s) (ok t) k k' h step = step s t (cc h)
then_agree (ok s) (err e) k k' h step = cc h
then_agree (err e) (ok t) k k' h step = cc h
then_agree (err e) (err e') k k' h step = cc h

-- Without errors nothing is rejected.
no_rejects :
    (g : Value → Result (List Value)) (i : ℕ) (vs : List Value)
    → first_error g vs ≡ ok tt
    → rejects_from g i vs ≡ []
unfolding first_error rejects_from
no_rejects g i [] h = refl
no_rejects g i (v ∷ rest) h =
    let (ws, done, h') = >>=-eq-ok (g v) _ h in rw done (no_rejects g (i + 1) rest h')

loop_agree :
    (g : Value → Result (List Value)) (vs : List Value) (a b : List RejectedRecord)
    → records_of (loop_outcome g 0 vs ErrorPolicy.skip (record { records = []; rejects = a }))
      ≡ records_of (loop_outcome g 0 vs ErrorPolicy.collect (record { records = []; rejects = b }))
unfolding loop_outcome
loop_agree g vs a b = refl

loop_fail_ok :
    (g : Value → Result (List Value)) (vs : List Value) (policy : ErrorPolicy)
    (s s' : ExecuteOutcome)
    → loop_outcome g 0 vs ErrorPolicy.fail s ≡ ok s'
    → (loop_outcome g 0 vs policy s ≡ ok s') × (s'.rejects ≡ s.rejects)
unfolding loop_outcome
loop_fail_ok g vs policy s s' h =
    let (u, clean, done) = >>=-eq-ok (first_error g vs) _ h in
    let none_rejected = no_rejects g 0 vs clean in (each policy none_rejected done, cc done)
  where
    each :
        (policy : ErrorPolicy)
        → rejects_from g 0 vs ≡ []
        → Result.ok (record s { records = s.records ++ kept g vs }) ≡ ok s'
        → loop_outcome g 0 vs policy s ≡ ok s'
    each ErrorPolicy.skip none_rejected done = done
    each ErrorPolicy.collect none_rejected done = rw none_rejected (simp append-nil done)
    each ErrorPolicy.fail none_rejected done = h

abbrev restart : ExecuteOutcome → ExecuteOutcome
restart s = record { records = []; rejects = s.rejects }

pub map_agree :
    (f : Value → Result Value) (s t : ExecuteOutcome)
    → s.records ≡ t.records
    → records_of (map_from f 0 s.records ErrorPolicy.skip (restart s))
      ≡ records_of (map_from f 0 t.records ErrorPolicy.collect (restart t))
map_agree f s t same =
    rw
      (
        map_from-eq f 0 s.records ErrorPolicy.skip (restart s),
        map_from-eq f 0 t.records ErrorPolicy.collect (restart t),
      )
      (rw same (loop_agree (λ v. once (f v)) t.records s.rejects t.rejects))

pub filter_agree :
    (f : Value → Result Value) (s t : ExecuteOutcome)
    → s.records ≡ t.records
    → records_of (filter_from f 0 s.records ErrorPolicy.skip (restart s))
      ≡ records_of (filter_from f 0 t.records ErrorPolicy.collect (restart t))
filter_agree f s t same =
    rw
      (
        filter_from-eq f 0 s.records ErrorPolicy.skip (restart s),
        filter_from-eq f 0 t.records ErrorPolicy.collect (restart t),
      )
      (rw same (loop_agree (λ v. pass v (f v)) t.records s.rejects t.rejects))

pub map_fail_ok :
    (f : Value → Result Value) (policy : ErrorPolicy) (s s' : ExecuteOutcome)
    → map_from f 0 s.records ErrorPolicy.fail (restart s) ≡ ok s'
    → (map_from f 0 s.records policy (restart s) ≡ ok s') × (s'.rejects ≡ s.rejects)
map_fail_ok f policy s s' h =
    let h' = rw (map_from-eq f 0 s.records ErrorPolicy.fail (restart s)) at h in
    rw (map_from-eq f 0 s.records policy (restart s))
      (loop_fail_ok (λ v. once (f v)) s.records policy (restart s) s' h')

pub filter_fail_ok :
    (f : Value → Result Value) (policy : ErrorPolicy) (s s' : ExecuteOutcome)
    → filter_from f 0 s.records ErrorPolicy.fail (restart s) ≡ ok s'
    → (filter_from f 0 s.records policy (restart s) ≡ ok s') × (s'.rejects ≡ s.rejects)
filter_fail_ok f policy s s' h =
    let h' = rw (filter_from-eq f 0 s.records ErrorPolicy.fail (restart s)) at h in
    rw (filter_from-eq f 0 s.records policy (restart s))
      (loop_fail_ok (λ v. pass v (f v)) s.records policy (restart s) s' h')
