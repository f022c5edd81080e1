-- ===== src/Engine/Stream/Policies.antt =====
-- engine.rs: how the error policies of a plan relate.
use shapeport.Prelude.{◌≡◌, refl, ap, ◌∙◌, List, [], ◌∷◌}
use shapeport.Error.{Result, ok, err, ◌>>◌, >>=-eq-ok}
use shapeport.Diagnostics.{RejectedRecord}
use shapeport.Host.{Host}
use shapeport.Value.{Value}
use shapeport.Plan.{ErrorPolicy, Operation, TransformationPlan, validate_shape}
use shapeport.Engine.Eval.{eval_expr}
use shapeport.Engine.Records.{apply_record}
use shapeport.Engine.Order.{sort_records}
use shapeport.Engine.Stream.{
  ExecuteOutcome, explode_records, keep_rejects, apply_op, apply_ops, execute_detailed,
}
use shapeport.Engine.Stream.Agreement.{
  records_of, then_agree, map_agree, filter_agree, map_fail_ok, filter_fail_ok,
}

-- Validation does not read the error policy.
validate_policy :
    (plan : TransformationPlan) (policy : ErrorPolicy)
    → validate_shape (record plan { error_policy = policy }) ≡ validate_shape plan
unfolding validate_shape
validate_policy plan policy = refl

guard_agree :
    (r : Result (Unit {0})) (k k' : Result ExecuteOutcome)
    → records_of k ≡ records_of k'
    → records_of (r >> k) ≡ records_of (r >> k')
guard_agree (ok u) k k' h = h
guard_agree (err e) k k' h = refl

abbrev start : List Value → ExecuteOutcome
start records = record { records = records; rejects = [] }

module _ (host : Host) where
  keep_agree :
      (r : Result (List Value)) (a b : List RejectedRecord)
      → records_of (keep_rejects host a r) ≡ records_of (keep_rejects host b r)
  keep_agree (ok vs) a b = refl
  keep_agree (err e) a b = refl

  op_agree :
      (op : Operation) (s t : ExecuteOutcome)
      → s.records ≡ t.records
      → records_of (apply_op host op ErrorPolicy.skip s)
        ≡ records_of (apply_op host op ErrorPolicy.collect t)
  unfolding apply_op
  op_agree (Operation.filter predicate) s t same =
      filter_agree (λ v. eval_expr host v predicate) s t same
  op_agree (Operation.sort ks) s t same =
      rw same (keep_agree (sort_records host ks t.records) s.rejects t.rejects)
  op_agree (Operation.explode path to outer) s t same =
      rw same (keep_agree (explode_records host path to outer t.records) s.rejects t.rejects)
  op_agree other s t same = map_agree (apply_record host other) s t same

  ops_agree :
      (ops : List Operation) (s t : ExecuteOutcome)
      → s.records ≡ t.records
      → records_of (apply_ops host ops ErrorPolicy.skip s)
        ≡ records_of (apply_ops host ops ErrorPolicy.collect t)
  unfolding apply_ops
  ops_agree [] s t same = ap ok same
  ops_agree (op ∷ ops) s t same =
      then_agree (apply_op host op ErrorPolicy.skip s) (apply_op host op ErrorPolicy.collect t) _ _
        (op_agree op s t same) (ops_agree ops)

  keep_fail_ok :
      (r : Result (List Value)) (a : List RejectedRecord) (s' : ExecuteOutcome)
      → keep_rejects host a r ≡ ok s'
      → s'.rejects ≡ a
  keep_fail_ok (ok vs) a s' h = cc h
  keep_fail_ok (err e) a s' h = cc h

  op_fail_ok :
      (op : Operation) (policy : ErrorPolicy) (s s' : ExecuteOutcome)
      → apply_op host op ErrorPolicy.fail s ≡ ok s'
      → (apply_op host op policy s ≡ ok s') × (s'.rejects ≡ s.rejects)
  unfolding apply_op
  op_fail_ok (Operation.filter predicate) policy s s' h =
      filter_fail_ok (λ v. eval_expr host v predicate) policy s s' h
  op_fail_ok (Operation.sort ks) policy s s' h =
      (h, keep_fail_ok (sort_records host ks s.records) s.rejects s' h)
  op_fail_ok (Operation.explode path to outer) policy s s' h =
      (h, keep_fail_ok (explode_records host path to outer s.records) s.rejects s' h)
  op_fail_ok other policy s s' h = map_fail_ok (apply_record host other) policy s s' h

  ops_fail_ok :
      (ops : List Operation) (policy : ErrorPolicy) (s s' : ExecuteOutcome)
      → apply_ops host ops ErrorPolicy.fail s ≡ ok s'
      → (apply_ops host ops policy s ≡ ok s') × (s'.rejects ≡ s.rejects)
  unfolding apply_ops
  ops_fail_ok [] policy s s' h = (h, cc h)
  ops_fail_ok (op ∷ ops) policy s s' h =
      let (m, first, later) = >>=-eq-ok (apply_op host op ErrorPolicy.fail s) _ h in
      let now = op_fail_ok op policy s m first in
      let rest = ops_fail_ok ops policy m s' later in (rw now.0 rest.0, rest.1 ∙ now.1)

  -- `skip` and `collect` return the same records, or stop with the same error, on every plan and
  -- input: the two policies differ in the rejects alone.
  pub skip-eq-collect :
      (plan : TransformationPlan) (records : List Value)
      → records_of (execute_detailed host (record plan { error_policy = ErrorPolicy.skip }) records)
        ≡ records_of
            (execute_detailed host (record plan { error_policy = ErrorPolicy.collect }) records)
  unfolding execute_detailed
  skip-eq-collect plan records =
      rw (validate_policy plan ErrorPolicy.skip, validate_policy plan ErrorPolicy.collect)
        (guard_agree (validate_shape plan) _ _
          (ops_agree plan.operations (start records) (start records) refl))

  -- A run that succeeds under `fail` rejects nothing and has the same outcome under every policy.
  pub execute_fail_ok :
      (plan : TransformationPlan) (policy : ErrorPolicy) (records : List Value) (s : ExecuteOutcome)
      → execute_detailed host (record plan { error_policy = ErrorPolicy.fail }) records ≡ ok s
      → (execute_detailed host (record plan { error_policy = policy }) records ≡ ok s)
        × (s.rejects ≡ [])
  unfolding execute_detailed
  execute_fail_ok plan policy records s h =
      let h' = rw (validate_policy plan ErrorPolicy.fail) at h in
      let (u, valid, run) = >>=-eq-ok (validate_shape plan) _ h' in
      rw (validate_policy plan policy, valid)
        (ops_fail_ok plan.operations policy (start records) s run)
