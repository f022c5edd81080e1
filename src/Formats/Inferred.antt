-- ===== src/Formats/Inferred.antt =====
-- formats.rs and json_schema.rs: the schema that `infer_schema` finds, and the records that it was
-- found in.
use shapeport.Prelude.{
  ◌≡◌, refl, sym, ap, subst, ◌∙◌, ◌||◌, true, false, Text, text_eq, Option, none, some, arith, List,
  [], ◌∷◌, All,
}
use shapeport.Error.{ok_inj, ok, >>=-eq-ok}
use shapeport.Host.{Host, find_entry}
use shapeport.Value.{Value, Fields}
use shapeport.Schema.{DataType, FieldList, no_fields, field, Schema}
use shapeport.Config.{InferMode}
use shapeport.JsonSchema.Validate.{validate_value}
use shapeport.JsonSchema.Conforms.{NullOr, Admits, HasFields, ConformsUpToNull, validate_value_iff}
use shapeport.Formats.Infer.{
  types_of, has_field, append_new_fields, update_field, update_existing_fields, unify_fields,
  infer_schema,
}
use shapeport.Schema.Compatible.{is_unknown}
use shapeport.Formats.Fits.{NullOr-map, FieldFits, AllFit, update-keeps, update-fits}
use shapeport.Formats.Appended.{
  Covered, append-has, Regular, Regular-Own, Regular-Coherent, types_of-AllFit, append_old,
  append_self,
}

types_of-Covered : (m : Fields) → Covered (types_of m) m
unfolding types_of has_field find_entry
types_of-Covered Fields.no_fields k h = refl
types_of-Covered (Fields.field n v rest) k h = ground (arith, types_of-Covered rest k)

module _ (host : Host) where
  update-names :
      (fs fs' : FieldList) (m : Fields) (infer : InferMode) (k : Text)
      → update_existing_fields host fs m infer ≡ ok fs'
      → has_field k fs' ≡ has_field k fs
  unfolding update_existing_fields has_field
  update-names no_fields fs' m infer k h = subst (λ x. has_field k x ≡ false) (ok_inj h) refl
  update-names (field n t nullable aliases semantic metadata rest) fs' m infer k h =
      let (u, first, h₁) = >>=-eq-ok (update_field host t nullable (host.get n m) infer) _ h in
      let (later, others, h₂) = >>=-eq-ok (update_existing_fields host rest m infer) _ h₁ in
      subst (λ x. has_field k x ≡ (text_eq n k || has_field k rest)) (ok_inj h₂)
        (ap (λ b. text_eq n k || b) (update-names rest later m infer k others))

  update_old :
      (fs fs' : FieldList) (m old : Fields) (infer : InferMode)
      → update_existing_fields host fs m infer ≡ ok fs'
      → AllFit host fs old
      → AllFit host fs' old
  unfolding update_existing_fields
  update_old no_fields fs' m old infer h fit = subst (λ x. AllFit host x old) (ok_inj h) tt
  update_old (field n t nullable aliases semantic metadata rest) fs' m old infer h fit =
      let (u, first, h₁) = >>=-eq-ok (update_field host t nullable (host.get n m) infer) _ h in
      let (later, others, h₂) = >>=-eq-ok (update_existing_fields host rest m infer) _ h₁ in
      subst (λ x. AllFit host x old) (ok_inj h₂)
        (
          update-keeps host (find_entry n old) t u.0 nullable u.1 (host.get n m) infer first fit.0,
          update_old rest later m old infer others fit.1,
        )

  update_self :
      (fs fs' : FieldList) (m : Fields) (infer : InferMode)
      → update_existing_fields host fs m infer ≡ ok fs'
      → Regular host m
      → AllFit host fs' m
  unfolding update_existing_fields
  update_self no_fields fs' m infer h r = subst (λ x. AllFit host x m) (ok_inj h) tt
  update_self (field n t nullable aliases semantic metadata rest) fs' m infer h r =
      let (u, first, h₁) = >>=-eq-ok (update_field host t nullable (host.get n m) infer) _ h in
      let (later, others, h₂) = >>=-eq-ok (update_existing_fields host rest m infer) _ h₁ in
      subst (λ x. AllFit host x m) (ok_inj h₂)
        (
          update-fits host (find_entry n m) t u.0 nullable u.1 infer
              (rw (host.get_entry n m) at first) (λ v there. Regular-Own host m n v r there),
          update_self rest later m infer others r,
        )

  -- Every field fits the object, and the object has no other keys.
  abbrev Good : FieldList → Fields → Type 0
  Good fs m = AllFit host fs m × Covered fs m

  -- A record that is a regular object.
  abbrev pub IsRegular : Value → Type 0
  IsRegular (Value.object m) = Regular host m
  IsRegular _ = ⊥

  step_old :
      (fs fs' : FieldList) (m old : Fields) (infer : InferMode)
      → update_existing_fields host fs m infer ≡ ok fs'
      → Good fs old
      → Good (append_new_fields fs' m) old
  step_old fs fs' m old infer h good =
      let covered : Covered fs' old =
        λ k none_left. good.1 k (sym (update-names fs fs' m infer k h) ∙ none_left) in
      (
        append_old host fs' m old covered (update_old fs fs' m old infer h good.0),
        λ k h'. covered k (append-has k fs' m h').0,
      )

  step_self :
      (fs fs' : FieldList) (m : Fields) (infer : InferMode)
      → update_existing_fields host fs m infer ≡ ok fs'
      → Regular host m
      → Good (append_new_fields fs' m) m
  step_self fs fs' m infer h r = (
    append_self host fs' m m (Regular-Coherent host m m r (λ k v e. e))
        (update_self fs fs' m infer h r),
    λ k h'. (append-has k fs' m h').1,
  )

  unify_old :
      (fs final : FieldList) (records : List Value) (old : Fields) (infer : InferMode)
      → unify_fields host fs records infer ≡ ok final
      → All IsRegular records
      → Good fs old
      → AllFit host final old
  unfolding unify_fields
  unify_old fs final [] old infer h r good = subst (λ x. AllFit host x old) (ok_inj h) good.0
  unify_old fs final (Value.object m ∷ rest) old infer h r good =
      let (updated, done, later) = >>=-eq-ok (update_existing_fields host fs m infer) _ h in
      unify_old (append_new_fields updated m) final rest old infer later r.1
        (step_old fs updated m old infer done good)
  unify_old fs final (_ ∷ rest) old infer h r good = absurd r.0

  -- A record whose object every field fits.
  abbrev RecordFits : FieldList → Value → Type 0
  RecordFits fs (Value.object m) = AllFit host fs m
  RecordFits fs _ = ⊥

  unify_each :
      (fs final : FieldList) (records : List Value) (infer : InferMode)
      → unify_fields host fs records infer ≡ ok final
      → All IsRegular records
      → All (RecordFits final) records
  unfolding unify_fields
  unify_each fs final [] infer h r = tt
  unify_each fs final (Value.object m ∷ rest) infer h r =
      let (updated, done, later) = >>=-eq-ok (update_existing_fields host fs m infer) _ h in
      (
        unify_old (append_new_fields updated m) final rest m infer later r.1
            (step_self fs updated m infer done r.0),
        unify_each (append_new_fields updated m) final rest infer later r.1,
      )
  unify_each fs final (_ ∷ rest) infer h r = absurd r.0

  AllFit-HasFields : (fs : FieldList) (m : Fields) → AllFit host fs m → HasFields host fs m
  unfolding Admits
  AllFit-HasFields no_fields m fit = tt
  AllFit-HasFields (field n t nullable aliases semantic metadata rest) m fit =
      (rw (host.get_entry n m) (by_entry (find_entry n m) fit.0), AllFit-HasFields rest m fit.1)
    where
      by_entry :
          (found : Option Value) → FieldFits host found t nullable → (elim found as (λ x. Type 0) [
            | none ↦ nullable ≡ true
            | some v ↦ NullOr v (Admits host t v)
          ])
      by_entry none f = f
      by_entry (some v) f =
          NullOr-map v ((is_unknown t ≡ false) × Admits host t v) (Admits host t v) (λ p. p.1) f

  validates :
      (fs : FieldList) (records : List Value)
      → All (RecordFits fs) records
      → All (λ v. validate_value host (record { root = DataType.record_of fs }) v ≡ ok tt) records
  unfolding Admits ConformsUpToNull
  validates fs [] fit = tt
  validates fs (Value.object m ∷ rest) fit = (
    (validate_value_iff host (record { root = DataType.record_of fs }) (Value.object m)).1
        (AllFit-HasFields fs m fit.0),
    validates fs rest fit.1,
  )
  validates fs (_ ∷ rest) fit = absurd fit.0

  -- The schema that `infer_schema` finds in records validates each of them, in every inference mode,
  -- where each record is an object with distinct keys whose values their own types admit.
  pub infer_schema-validate_value :
      (records : List Value) (infer : InferMode) (schema : Schema)
      → infer_schema host records infer ≡ ok schema
      → All IsRegular records
      → All (λ v. validate_value host schema v ≡ ok tt) records
  unfolding infer_schema
  infer_schema-validate_value [] infer schema h r = tt
  infer_schema-validate_value (Value.object m ∷ rest) infer schema h r =
      let (fs, unified, done) = >>=-eq-ok (unify_fields host (types_of m) rest infer) _ h in
      let first : Good (types_of m) m = (
        types_of-AllFit host m m (Regular-Coherent host m m r.0 (λ k v e. e)),
        types_of-Covered m,
      ) in
      subst (λ s. All (λ v. validate_value host s v ≡ ok tt) (Value.object m ∷ rest)) (ok_inj done)
        (validates fs (Value.object m ∷ rest) (
          unify_old (types_of m) fs rest m infer unified r.1 first,
          unify_each (types_of m) fs rest infer unified r.1,
        ))
  infer_schema-validate_value (_ ∷ rest) infer schema h r = absurd r.0
