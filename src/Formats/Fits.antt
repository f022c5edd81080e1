-- ===== src/Formats/Fits.antt =====
-- formats.rs: fields that fit an object, and what unification keeps.
use shapeport.Prelude.{
  ◌≡◌, refl, sym, ap, subst, ◌∙◌, ◌||◌, inl, inr, Bool, true, false, Bool-cases, Option, none, some,
  if◌then◌else◌,
}
use shapeport.Error.{ok_inj, ok, >>=-eq-ok}
use shapeport.Host.{Host, find_entry}
use shapeport.Value.{Value, Fields, is_null}
use shapeport.Schema.{DataType, FieldList, no_fields, field, no_variants, variant}
use shapeport.Schema.Compatible.{type_eq, type_eq_iff, is_unknown}
use shapeport.Config.{InferMode}
use shapeport.JsonSchema.Conforms.{NullOr, Admits}
use shapeport.Formats.Infer.{type_of, is_conservative, unify_types, update_field}

pub NullOr-map : (v : Value) (P Q : Type 0) → (P → Q) → NullOr v P → NullOr v Q
NullOr-map Value.null P Q f p = tt
NullOr-map _ P Q f p = f p

NullOr-both : (v : Value) (P Q : Type 0) → NullOr v P → NullOr v Q → NullOr v (P × Q)
NullOr-both Value.null P Q p q = tt
NullOr-both _ P Q p q = (p, q)

type_of-known : (v : Value) → NullOr v (is_unknown (type_of v) ≡ false)
unfolding type_of is_unknown
type_of-known Value.null = tt
type_of-known _ = refl

false_ne : {b : Bool} → b ≡ false → b ≡ true → ⊥
false_ne p q = cc (sym p ∙ q)

module _ (host : Host) where
  -- A type that was inferred from values and admits this one.
  abbrev pub Fits : DataType → Value → Type 0
  Fits ty v = NullOr v ((is_unknown ty ≡ false) × Admits host ty v)

  -- The type of a value admits the value: no list that mixes types, no binary, date or timestamp.
  abbrev pub Own : Value → Type 0
  Own v = NullOr v (Admits host (type_of v) v)

  pub Own-Fits : (v : Value) → Own v → Fits (type_of v) v
  Own-Fits v own = NullOr-both v _ _ (type_of-known v) own

  abbrev pair_union : DataType → DataType → DataType
  pair_union l r = DataType.union_of (variant l (variant r no_variants))

  union-left : (l r : DataType) (v : Value) → Fits l v → Fits (pair_union l r) v
  unfolding Admits is_unknown
  union-left l r Value.null f = tt
  union-left l r _ f = (refl, inl f.1)

  union-right : (l r : DataType) (v : Value) → Fits r v → Fits (pair_union l r) v
  unfolding Admits is_unknown
  union-right l r Value.null f = tt
  union-right l r _ f = (refl, inr (inl f.1))

  -- What `unify_types` makes of two types admits what either admits.
  unify-left :
      (l r t : DataType) (infer : InferMode) (v : Value)
      → unify_types l r infer ≡ ok t
      → Fits l v
      → Fits t v
  unfolding unify_types
  unify-left l r t infer v h fits = elim (Bool-cases (is_unknown l)) [
    | inl unknown ↦
        NullOr-map v ((is_unknown l ≡ false) × Admits host l v) _
          (λ p. absurd (false_ne p.0 unknown)) fits
    | inr known ↦ elim (Bool-cases (is_unknown r || type_eq l r)) [
      | inl same ↦ subst (λ x. Fits x v) (ok_inj (rw (known, same) at h)) fits
      | inr other ↦ elim (Bool-cases (is_conservative infer)) [
        | inl strict ↦ cc (rw (known, other, strict) at h)
        | inr union ↦
            subst (λ x. Fits x v) (ok_inj (rw (known, other, union) at h)) (union-left l r v fits)
      ]
    ]
  ]

  unify-right :
      (l r t : DataType) (infer : InferMode) (v : Value)
      → unify_types l r infer ≡ ok t
      → Fits r v
      → Fits t v
  unfolding unify_types
  unify-right l r t infer v h fits = elim (Bool-cases (is_unknown l)) [
    | inl unknown ↦ subst (λ x. Fits x v) (ok_inj (rw unknown at h)) fits
    | inr known ↦ elim (Bool-cases (is_unknown r)) [
      | inl unknown ↦
          NullOr-map v ((is_unknown r ≡ false) × Admits host r v) _
            (λ p. absurd (false_ne p.0 unknown)) fits
      | inr known_too ↦ elim (Bool-cases (type_eq l r)) [
        | inl same ↦
            subst (λ x. Fits x v)
              (sym ((type_eq_iff l r).0 same) ∙ ok_inj (rw (known, known_too, same) at h)) fits
        | inr other ↦ elim (Bool-cases (is_conservative infer)) [
          | inl strict ↦ cc (rw (known, known_too, other, strict) at h)
          | inr union ↦
              subst (λ x. Fits x v) (ok_inj (rw (known, known_too, other, union) at h))
                (union-right l r v fits)
        ]
      ]
    ]
  ]

  -- What an object has under a name fits a field.
  abbrev pub FieldFits : Option Value → DataType → Bool → Type 0
  FieldFits none ty nullable = nullable ≡ true
  FieldFits (some v) ty nullable = Fits ty v

  abbrev pub AllFit : FieldList → Fields → Type 0
  AllFit no_fields m = Unit
  AllFit (field name ty nullable aliases semantic metadata rest) m =
      FieldFits (find_entry name m) ty nullable × AllFit rest m

  -- A field that an object fits, it still fits after an update by another object.
  pub update-keeps :
      (old : Option Value) (ty t : DataType) (nullable b : Bool) (new : Option Value)
      (infer : InferMode)
      → update_field host ty nullable new infer ≡ ok (t, b)
      → FieldFits old ty nullable
      → FieldFits old t b
  unfolding update_field
  update-keeps none ty t nullable b none infer h fits = ap (λ p. p.1) (sym (ok_inj h))
  update-keeps (some w) ty t nullable b none infer h fits =
      subst (λ x. Fits x w) (ap (λ p. p.0) (ok_inj h)) fits
  update-keeps none ty t nullable b (some v) infer h fits =
      let (u, unified, done) = >>=-eq-ok (unify_types ty (type_of v) infer) _ h in
      sym (ap (λ p. p.1) (ok_inj done)) ∙ kept (is_null v)
    where
      kept : (n : Bool) → (if n then true else nullable) ≡ true
      kept true = refl
      kept false = fits
  update-keeps (some w) ty t nullable b (some v) infer h fits =
      let (u, unified, done) = >>=-eq-ok (unify_types ty (type_of v) infer) _ h in
      subst (λ x. Fits x w) (ap (λ p. p.0) (ok_inj done))
        (unify-left ty (type_of v) u infer w unified fits)

  -- The object that updates a field fits it.
  pub update-fits :
      (new : Option Value) (ty t : DataType) (nullable b : Bool) (infer : InferMode)
      → update_field host ty nullable new infer ≡ ok (t, b)
      → ((v : Value) → new ≡ some v → Own v)
      → FieldFits new t b
  unfolding update_field
  update-fits none ty t nullable b infer h own = ap (λ p. p.1) (sym (ok_inj h))
  update-fits (some v) ty t nullable b infer h own =
      let (u, unified, done) = >>=-eq-ok (unify_types ty (type_of v) infer) _ h in
      subst (λ x. Fits x v) (ap (λ p. p.0) (ok_inj done))
        (unify-right ty (type_of v) u infer v unified (Own-Fits v (own v refl)))
