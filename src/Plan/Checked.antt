-- ===== src/Plan/Checked.antt =====
-- plan.rs: which plans `validate_shape` accepts, said without running it.
use text.Mathlib.Text.{◌==◌ as str_eq}
use text.Mathlib.TextEquality.{eq_iff}
use shapeport.Prelude.{
  ◌≡◌, ◌≢◌, ◌↔◌, refl, inl, inr, Bool, false, not, ◌&&◌, String, List, [], ◌∷◌, All, is_empty,
  if◌then◌else◌, arith,
}
use shapeport.Error
use shapeport.Error.{Result, ok, err, ◌>>=◌, ◌>>◌, Result-cases}
use shapeport.Schema.{DataType}
use shapeport.Schema.Names.{from_target_name}
use shapeport.Plan.{
  CastPolicy, Expr, Exprs, Entries, no_exprs, expr, no_entries, entry, Operation,
  TransformationPlan, api_version, plan_kind, is_float, is_strict, validate_cast_target,
  validate_expr, validate_exprs, validate_fields_exprs, validate_op, validate_ops, validate_shape,
}

-- A cast names a type, and is not strict if that type is a float.
pub record SafeCast (target : String) (policy : CastPolicy) : Type 0 where
  pub ty : DataType
  pub names : from_target_name target ≡ ok ty
  pub not_strict_float : (is_float ty && is_strict policy) ≡ false

unfoldable mutual
  pub Checked : Expr → Type 0
  Checked (Expr.cast inner target policy) = SafeCast target policy × Checked inner
  Checked (Expr.coalesce items) = AllChecked items
  Checked (Expr.call function args) = AllChecked args
  Checked (Expr.object entries) = EntriesChecked entries
  Checked (Expr.list_map input item) = Checked item
  Checked (Expr.field path) = Unit
  Checked (Expr.literal value) = Unit

  pub AllChecked : Exprs → Type 0
  AllChecked no_exprs = Unit
  AllChecked (expr e rest) = Checked e × AllChecked rest

  pub EntriesChecked : Entries → Type 0
  EntriesChecked no_entries = Unit
  EntriesChecked (entry name e rest) = Checked e × EntriesChecked rest

-- What an operation must have: something to do, and safe casts.
unfoldable pub CheckedOp : Operation → Type 0
unfolding Checked
CheckedOp (Operation.sort keys) = keys ≢ []
CheckedOp (Operation.map_fields entries) = (entries ≢ no_entries) × EntriesChecked entries
CheckedOp (Operation.project paths) = paths ≢ []
CheckedOp (Operation.cast path target policy) = SafeCast target policy
CheckedOp (Operation.object entries) = EntriesChecked entries
CheckedOp (Operation.coalesce name values) = AllChecked values
CheckedOp (Operation.filter predicate) = Checked predicate
CheckedOp _ = Unit

pub record WellFormedPlan (plan : TransformationPlan) : Type 0 where
  pub version : plan.api_version ≡ api_version
  pub kind : plan.kind ≡ plan_kind
  pub some_operation : plan.operations ≢ []
  pub document : plan.backend ≡ "document"
  pub operations : All CheckedOp plan.operations

then_iff : (m k : Result (Unit {0})) → ((m >> k) ≡ ok tt) ↔ ((m ≡ ok tt) × (k ≡ ok tt))
then_iff (ok tt) k = (λ h. (refl, h), λ h. h.1)
then_iff (err e) k = (λ h. cc h, λ h. cc h.0)

validate_cast_target→SafeCast :
    (target : String) (policy : CastPolicy)
    → validate_cast_target target policy ≡ ok tt
    → SafeCast target policy
unfolding validate_cast_target
validate_cast_target→SafeCast target policy h = elim (Result-cases (from_target_name target)) [
  | inl (ty, named) ↦ record { ty = ty; names = named; not_strict_float = ground arith }
  | inr (e, unknown) ↦ cc (rw unknown at h)
]

SafeCast→validate_cast_target :
    (target : String) (policy : CastPolicy)
    → SafeCast target policy
    → validate_cast_target target policy ≡ ok tt
unfolding validate_cast_target
SafeCast→validate_cast_target target policy h = rw (h.names, h.not_strict_float)

mutual
  unfolding validate_expr Checked

  Checked-passed : (e : Expr) → validate_expr e ≡ ok tt → Checked e
  Checked-passed (Expr.cast inner target policy) h =
      let parts = (then_iff (validate_cast_target target policy) (validate_expr inner)).0 h in
      (validate_cast_target→SafeCast target policy parts.0, Checked-passed inner parts.1)
  Checked-passed (Expr.coalesce items) h = AllChecked-passed items h
  Checked-passed (Expr.call function args) h = AllChecked-passed args h
  Checked-passed (Expr.object entries) h = EntriesChecked-passed entries h
  Checked-passed (Expr.list_map input item) h = Checked-passed item h
  Checked-passed (Expr.field path) h = tt
  Checked-passed (Expr.literal value) h = tt

  AllChecked-passed : (es : Exprs) → validate_exprs es ≡ ok tt → AllChecked es
  AllChecked-passed no_exprs h = tt
  AllChecked-passed (expr e rest) h =
      let parts = (then_iff (validate_expr e) (validate_exprs rest)).0 h in
      (Checked-passed e parts.0, AllChecked-passed rest parts.1)

  EntriesChecked-passed : (es : Entries) → validate_fields_exprs es ≡ ok tt → EntriesChecked es
  EntriesChecked-passed no_entries h = tt
  EntriesChecked-passed (entry name e rest) h =
      let parts = (then_iff (validate_expr e) (validate_fields_exprs rest)).0 h in
      (Checked-passed e parts.0, EntriesChecked-passed rest parts.1)

mutual
  unfolding validate_expr Checked

  passes : (e : Expr) → Checked e → validate_expr e ≡ ok tt
  passes (Expr.cast inner target policy) h =
      (then_iff (validate_cast_target target policy) (validate_expr inner)).1
        (SafeCast→validate_cast_target target policy h.0, passes inner h.1)
  passes (Expr.coalesce items) h = all_pass items h
  passes (Expr.call function args) h = all_pass args h
  passes (Expr.object entries) h = entries_pass entries h
  passes (Expr.list_map input item) h = passes item h
  passes (Expr.field path) h = refl
  passes (Expr.literal value) h = refl

  all_pass : (es : Exprs) → AllChecked es → validate_exprs es ≡ ok tt
  all_pass no_exprs h = refl
  all_pass (expr e rest) h =
      (then_iff (validate_expr e) (validate_exprs rest)).1 (passes e h.0, all_pass rest h.1)

  entries_pass : (es : Entries) → EntriesChecked es → validate_fields_exprs es ≡ ok tt
  entries_pass no_entries h = refl
  entries_pass (entry name e rest) h =
      (then_iff (validate_expr e) (validate_fields_exprs rest)).1
        (passes e h.0, entries_pass rest h.1)

-- An expression passes validation exactly when every cast in it, at any depth, is safe.
pub validate_expr_iff : (e : Expr) → (validate_expr e ≡ ok tt) ↔ Checked e
validate_expr_iff e = (Checked-passed e, passes e)

CheckedOp-passed : (op : Operation) → validate_op op ≡ ok tt → CheckedOp op
unfolding validate_op CheckedOp
CheckedOp-passed (Operation.sort []) h = cc
CheckedOp-passed (Operation.sort (k ∷ keys)) h = λ e. cc e
CheckedOp-passed (Operation.map_fields no_entries) h = cc
CheckedOp-passed (Operation.map_fields (entry name e rest)) h =
    (λ e. cc e, EntriesChecked-passed (entry name e rest) h)
CheckedOp-passed (Operation.project []) h = cc
CheckedOp-passed (Operation.project (p ∷ paths)) h = λ e. cc e
CheckedOp-passed (Operation.cast path target policy) h =
    validate_cast_target→SafeCast target policy h
CheckedOp-passed (Operation.object entries) h = EntriesChecked-passed entries h
CheckedOp-passed (Operation.coalesce name values) h = AllChecked-passed values h
CheckedOp-passed (Operation.filter predicate) h = Checked-passed predicate h
CheckedOp-passed _ h = tt

op_passes : (op : Operation) → CheckedOp op → validate_op op ≡ ok tt
unfolding validate_op CheckedOp
op_passes (Operation.sort []) h = absurd (h refl)
op_passes (Operation.sort (k ∷ keys)) h = refl
op_passes (Operation.map_fields no_entries) h = absurd (h.0 refl)
op_passes (Operation.map_fields (entry name e rest)) h = entries_pass (entry name e rest) h.1
op_passes (Operation.project []) h = absurd (h refl)
op_passes (Operation.project (p ∷ paths)) h = refl
op_passes (Operation.cast path target policy) h = SafeCast→validate_cast_target target policy h
op_passes (Operation.object entries) h = entries_pass entries h
op_passes (Operation.coalesce name values) h = all_pass values h
op_passes (Operation.filter predicate) h = passes predicate h
op_passes _ h = refl

ops_checked : (ops : List Operation) → validate_ops ops ≡ ok tt → All CheckedOp ops
unfolding validate_ops
ops_checked [] h = tt
ops_checked (op ∷ ops) h =
    let parts = (then_iff (validate_op op) (validate_ops ops)).0 h in
    (CheckedOp-passed op parts.0, ops_checked ops parts.1)

ops_pass : (ops : List Operation) → All CheckedOp ops → validate_ops ops ≡ ok tt
unfolding validate_ops
ops_pass [] h = refl
ops_pass (op ∷ ops) h =
    (then_iff (validate_op op) (validate_ops ops)).1 (op_passes op h.0, ops_pass ops h.1)

not_empty_iff : (ops : List Operation) → (is_empty ops ≡ false) ↔ (ops ≢ [])
not_empty_iff [] = (λ h. cc h, λ h. absurd (h refl))
not_empty_iff (op ∷ ops) = (λ h e. cc e, λ h. refl)

-- The ladder of guards, over the values that it tests.
guards_iff :
    (version kind : String) (empty : Bool) (backend : String) (rest : Result (Unit {0}))
    → ((if not (str_eq version api_version)
          then err (Error.plan "unsupported_api_version")
          else if not (str_eq kind plan_kind)
          then err (Error.plan "invalid_kind")
          else if empty
          then err (Error.plan "empty_plan")
          else if not (str_eq backend "document")
          then err (Error.plan "unsupported_backend")
          else rest)
        ≡ ok tt)
      ↔ ((version ≡ api_version)
          × (kind ≡ plan_kind)
          × (empty ≡ false)
          × (backend ≡ "document")
          × (rest ≡ ok tt))
guards_iff version kind empty backend rest = (
  λ h. ground (arith, eq_iff version api_version, eq_iff kind plan_kind, eq_iff backend "document"),
  λ h. ground (arith, eq_iff version api_version, eq_iff kind plan_kind, eq_iff backend "document"),
)

-- `validate_shape` accepts a plan exactly when it has the supported version, kind and backend, at
-- least one operation, and operations that are each complete with safe casts at every depth.
pub validate_shape_iff :
    (plan : TransformationPlan) → (validate_shape plan ≡ ok tt) ↔ WellFormedPlan plan
unfolding validate_shape
validate_shape_iff plan = (
  λ h.
      let facts =
        guards_iff plan.api_version plan.kind (is_empty plan.operations) plan.backend
          (validate_ops plan.operations) in
      let (same_version, same_kind, some_op, same_backend, passed) = facts.0 h in
      record {
        version = same_version;
        kind = same_kind;
        some_operation = (not_empty_iff plan.operations).0 some_op;
        document = same_backend;
        operations = ops_checked plan.operations passed;
      },
  λ w.
      (guards_iff plan.api_version plan.kind (is_empty plan.operations) plan.backend
          (validate_ops plan.operations)).1
        (
          w.version,
          w.kind,
          (not_empty_iff plan.operations).1 w.some_operation,
          w.document,
          ops_pass plan.operations w.operations,
        ),
)
