-- ===== src/Formats/Appended.antt =====
-- formats.rs: the fields that `append_new_fields` adds, and the objects that they fit.
use shapeport.Prelude.{
  ◌≡◌, refl, subst, ◌||◌, inl, inr, true, false, Bool-cases, Text, text_eq, text_eq_iff,
  text_eq_refl, none, some, arith,
}
use shapeport.Host.{Host, find_entry}
use shapeport.Value.{Value, Fields}
use shapeport.Schema.{DataType, FieldList, no_fields, field}
use shapeport.Formats.Infer.{type_of, types_of, has_field, push_field, append_new_fields}
use shapeport.Formats.Fits.{Own, Own-Fits, FieldFits, AllFit}

-- A name that no field has is no key of the object.
abbrev pub Covered : FieldList → Fields → Type 0
Covered fs m = (k : Text) → has_field k fs ≡ false → find_entry k m ≡ none

push-has :
    (k name : Text) (ty : DataType) (fs : FieldList)
    → has_field k (push_field name ty fs) ≡ (has_field k fs || text_eq name k)
unfolding has_field push_field
push-has k name ty no_fields = ground arith
push-has k name ty (field n t nullable aliases semantic metadata rest) =
    ground (arith, push-has k name ty rest)

pub append-has :
    (k : Text) (fs : FieldList) (s : Fields)
    → has_field k (append_new_fields fs s) ≡ false
    → (has_field k fs ≡ false) × (find_entry k s ≡ none)
unfolding append_new_fields find_entry
append-has k fs Fields.no_fields h = (h, refl)
append-has k fs (Fields.field name v rest) h = elim (Bool-cases (has_field name fs)) [
  | inl old ↦
      let ih = append-has k fs rest (rw old at h) in
      (ih.0, ground (arith, ih.1, text_eq_iff name k, text_eq_refl k))
  | inr new ↦
      let ih = append-has k (push_field name (type_of v) fs) rest (rw new at h) in
      let parts = rw (push-has k name (type_of v) fs) at (ih.0) in
      (ground arith, ground (arith, ih.1))
]

module _ (host : Host) where
  -- The object is a map whose values have types that admit them.
  abbrev pub Regular : Fields → Type 0
  Regular Fields.no_fields = Unit
  Regular (Fields.field k v rest) = Own host v × (find_entry k rest ≡ none) × Regular rest

  pub Regular-Own :
      (m : Fields) (k : Text) (v : Value) → Regular m → find_entry k m ≡ some v → Own host v
  unfolding find_entry
  Regular-Own Fields.no_fields k v r h = cc h
  Regular-Own (Fields.field j w rest) k v r h = elim (Bool-cases (text_eq j k)) [
    | inl here ↦ subst (Own host) (some_inj (rw here at h)) r.0
    | inr later ↦ Regular-Own rest k v r.2 (rw later at h)
  ]
    where
      some_inj : some w ≡ some v → w ≡ v
      some_inj e = cc e

  -- The entries of `s` are those that the object has under their keys.
  abbrev Coherent : Fields → Fields → Type 0
  Coherent Fields.no_fields m = Unit
  Coherent (Fields.field k v rest) m = Own host v × (find_entry k m ≡ some v) × Coherent rest m

  pub Regular-Coherent :
      (s m : Fields)
      → Regular s
      → ((k : Text) (v : Value) → find_entry k s ≡ some v → find_entry k m ≡ some v)
      → Coherent s m
  unfolding find_entry
  Regular-Coherent Fields.no_fields m r sub = tt
  Regular-Coherent (Fields.field k v rest) m r sub = (
    r.0,
    sub k v (rw text_eq_refl refl),
    Regular-Coherent rest m r.2 (λ j w h. sub j w (ground (arith, r.1, h, text_eq_iff k j))),
  )

  pub types_of-AllFit : (s m : Fields) → Coherent s m → AllFit host (types_of s) m
  unfolding types_of
  types_of-AllFit Fields.no_fields m c = tt
  types_of-AllFit (Fields.field k v rest) m c =
      (rw c.1 (Own-Fits host v c.0), types_of-AllFit rest m c.2)

  push-AllFit :
      (name : Text) (ty : DataType) (fs : FieldList) (m : Fields)
      → FieldFits host (find_entry name m) ty true
      → AllFit host fs m
      → AllFit host (push_field name ty fs) m
  unfolding push_field
  push-AllFit name ty no_fields m new fit = (new, tt)
  push-AllFit name ty (field n t nullable aliases semantic metadata rest) m new fit =
      (fit.0, push-AllFit name ty rest m new fit.1)

  pub append_old :
      (fs : FieldList) (s old : Fields)
      → Covered fs old
      → AllFit host fs old
      → AllFit host (append_new_fields fs s) old
  unfolding append_new_fields
  append_old fs Fields.no_fields old covered fit = fit
  append_old fs (Fields.field name v rest) old covered fit = elim (Bool-cases (has_field name fs)) [
    | inl there ↦ rw there (append_old fs rest old covered fit)
    | inr new ↦ rw new (
        append_old (push_field name (type_of v) fs) rest old
          (λ k h. covered k (has_before k (rw (push-has k name (type_of v) fs) at h)))
          (push-AllFit name (type_of v) fs old (rw (covered name new) refl) fit))
  ]
    where
      has_before : (k : Text) → (has_field k fs || text_eq name k) ≡ false → has_field k fs ≡ false
      has_before k h = ground arith

  pub append_self :
      (fs : FieldList) (s m : Fields)
      → Coherent s m
      → AllFit host fs m
      → AllFit host (append_new_fields fs s) m
  unfolding append_new_fields
  append_self fs Fields.no_fields m c fit = fit
  append_self fs (Fields.field name v rest) m c fit = elim (Bool-cases (has_field name fs)) [
    | inl there ↦ rw there (append_self fs rest m c.2 fit)
    | inr new ↦ rw new (
        append_self (push_field name (type_of v) fs) rest m c.2
          (push-AllFit name (type_of v) fs m (rw c.1 (Own-Fits host v c.0)) fit))
  ]
