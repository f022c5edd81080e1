-- ===== src/JsonSchema/Conforms.antt =====
-- json_schema.rs: which values a type admits, and `validate_value`.
use shapeport.Prelude.{◌≡◌, ◌↔◌, ◌⊎◌, refl, inl, inr, Bool, true, false, Option, none, some}
use shapeport.Error.{Result, ok, err, ◌>>◌}
use shapeport.Host.{Host}
use shapeport.Value.{Value, Items, Fields, no_items, item}
use shapeport.Schema.{DataType, FieldList, Variants, Schema, no_fields, field, no_variants, variant}
use shapeport.JsonSchema.Validate.{
  unless_null, validate_items, missing_field, or_else, validate_present, validate_object,
  validate_union, validate_value,
}

-- Null, or what the predicate holds of.
abbrev pub NullOr : Value → Type 0 → Type 0
NullOr Value.null P = Unit
NullOr _ P = P

abbrev pub AllItems : (Value → Type 0) → Items → Type 0
AllItems P no_items = Unit
AllItems P (item v rest) = P v × AllItems P rest

module _ (host : Host) where
  unfoldable mutual
    -- The values but null that a type admits: numbers by their kind, decimals and texts alike, objects
    -- that have every field that may not be missing, lists of admitted items, and what any variant
    -- of a union admits.
    pub Admits : DataType → Value → Type 0
    Admits DataType.any v = Unit
    Admits DataType.unknown v = Unit
    Admits DataType.bool (Value.bool b) = Unit
    Admits (DataType.int bits signed) (Value.int n) = Unit
    Admits (DataType.int bits signed) (Value.uint n) = Unit
    Admits (DataType.float bits) (Value.float x) = Unit
    Admits (DataType.float bits) (Value.int n) = Unit
    Admits (DataType.float bits) (Value.uint n) = Unit
    Admits DataType.string (Value.string s) = Unit
    Admits DataType.string (Value.decimal d) = Unit
    Admits (DataType.decimal p s) (Value.string t) = Unit
    Admits (DataType.decimal p s) (Value.decimal d) = Unit
    Admits (DataType.record_of fs) (Value.object map) = HasFields fs map
    Admits (DataType.list_of element nullable) (Value.array items) =
        AllItems (λ v. NullOr v (Admits element v)) items
    Admits (DataType.union_of vs) v = AnyAdmits vs v
    Admits _ _ = ⊥

    pub HasFields : FieldList → Fields → Type 0
    HasFields no_fields map = Unit
    HasFields (field name ty nullable aliases semantic metadata rest) map =
        (elim (host.get name map) [ none ↦ nullable ≡ true | some v ↦ NullOr v (Admits ty v) ])
        × HasFields rest map

    pub AnyAdmits : Variants → Value → Type 0
    AnyAdmits no_variants v = ⊥
    AnyAdmits (variant ty rest) v = NullOr v (Admits ty v) ⊎ AnyAdmits rest v

  -- Null counts for every type here, whether or not it may be null.
  unfoldable pub ConformsUpToNull : DataType → Value → Type 0
  unfolding Admits
  ConformsUpToNull ty v = NullOr v (Admits ty v)

unless_null_iff :
    (v : Value) (r : Result (Unit {0})) (P : Type 0)
    → ((r ≡ ok tt) ↔ P)
    → (unless_null v r ≡ ok tt) ↔ NullOr v P
unless_null_iff Value.null r P e = (λ h. tt, λ p. refl)
unless_null_iff _ r P e = e

then_iff :
    (m k : Result (Unit {0})) (P Q : Type 0)
    → ((m ≡ ok tt) ↔ P)
    → ((k ≡ ok tt) ↔ Q)
    → ((m >> k) ≡ ok tt) ↔ (P × Q)
then_iff (ok tt) k P Q e f = (λ h. (e.0 refl, f.0 h), λ pq. f.1 pq.1)
then_iff (err x) k P Q e f = (λ h. cc h, λ pq. cc (e.1 pq.0))

items_iff :
    (check : Value → Result (Unit {0})) (P : Value → Type 0)
    → ((v : Value) → (check v ≡ ok tt) ↔ P v)
    → (items : Items) → (validate_items check items ≡ ok tt) ↔ AllItems P items
unfolding validate_items
items_iff check P e no_items = (λ h. tt, λ p. refl)
items_iff check P e (item v rest) =
    then_iff (check v) (validate_items check rest) (P v) (AllItems P rest) (e v)
      (items_iff check P e rest)

or_else_iff :
    (m k : Result (Unit {0})) (P Q : Type 0)
    → ((m ≡ ok tt) ↔ P)
    → ((k ≡ ok tt) ↔ Q)
    → (or_else m k ≡ ok tt) ↔ (P ⊎ Q)
unfolding or_else
or_else_iff (ok tt) k P Q e f = (λ h. inl (e.0 refl), λ pq. refl)
or_else_iff (err x) k P Q e f = (λ h. inr (f.0 h), either)
  where
    either : P ⊎ Q → k ≡ ok tt
    either (inl p) = cc (e.1 p)
    either (inr q) = f.1 q

missing_iff : (nullable : Bool) → (missing_field nullable ≡ ok tt) ↔ (nullable ≡ true)
unfolding missing_field
missing_iff true = (λ h. refl, λ h. refl)
missing_iff false = (λ h. cc h, λ h. cc h)

by_value :
    (found : Option Value) (nullable : Bool) (check : Value → Result (Unit {0}))
    (P : Value → Type 0)
    → ((v : Value) → (check v ≡ ok tt) ↔ P v)
    → ((elim found [ none ↦ missing_field nullable | some v ↦ unless_null v (check v) ]) ≡ ok tt)
      ↔ (elim found [ none ↦ nullable ≡ true | some v ↦ NullOr v (P v) ])
by_value none nullable check P e = missing_iff nullable
by_value (some v) nullable check P e = unless_null_iff v (check v) (P v) (e v)

module _ (host : Host) where
  mutual
    unfolding validate_present Admits

    present_iff :
        (ty : DataType) (v : Value) → (validate_present host ty v ≡ ok tt) ↔ Admits host ty v
    present_iff DataType.any v = (λ h. tt, λ p. refl)
    present_iff DataType.unknown v = (λ h. tt, λ p. refl)
    present_iff DataType.bool (Value.bool b) = (λ h. tt, λ p. refl)
    present_iff (DataType.int bits signed) (Value.int n) = (λ h. tt, λ p. refl)
    present_iff (DataType.int bits signed) (Value.uint n) = (λ h. tt, λ p. refl)
    present_iff (DataType.float bits) (Value.float x) = (λ h. tt, λ p. refl)
    present_iff (DataType.float bits) (Value.int n) = (λ h. tt, λ p. refl)
    present_iff (DataType.float bits) (Value.uint n) = (λ h. tt, λ p. refl)
    present_iff DataType.string (Value.string s) = (λ h. tt, λ p. refl)
    present_iff DataType.string (Value.decimal d) = (λ h. tt, λ p. refl)
    present_iff (DataType.decimal p s) (Value.string t) = (λ h. tt, λ q. refl)
    present_iff (DataType.decimal p s) (Value.decimal d) = (λ h. tt, λ q. refl)
    present_iff (DataType.record_of fs) (Value.object map) = object_iff fs map
    present_iff (DataType.list_of element nullable) (Value.array items) =
        items_iff _ (λ v. NullOr v (Admits host element v))
          (λ v.
            unless_null_iff v (validate_present host element v) (Admits host element v)
              (present_iff element v))
          items
    present_iff (DataType.union_of vs) v = union_iff vs v
    present_iff _ _ = (λ h. cc h, λ p. absurd p)

    object_iff :
        (fs : FieldList) (map : Fields)
        → (validate_object host fs map ≡ ok tt) ↔ HasFields host fs map
    object_iff no_fields map = (λ h. tt, λ p. refl)
    object_iff (field name ty nullable aliases semantic metadata rest) map =
        then_iff _ (validate_object host rest map) _ (HasFields host rest map)
          (by_value (host.get name map) nullable (λ v. validate_present host ty v)
            (λ v. Admits host ty v) (λ v. present_iff ty v))
          (object_iff rest map)

    union_iff :
        (vs : Variants) (v : Value) → (validate_union host vs v ≡ ok tt) ↔ AnyAdmits host vs v
    union_iff no_variants v = (λ h. cc h, λ p. absurd p)
    union_iff (variant ty rest) v =
        or_else_iff (unless_null v (validate_present host ty v)) (validate_union host rest v) _ _
          (unless_null_iff v (validate_present host ty v) (Admits host ty v) (present_iff ty v))
          (union_iff rest v)

  -- `validate_value` accepts exactly null and what the schema's root type admits.
  pub validate_value_iff :
      (schema : Schema) (v : Value)
      → (validate_value host schema v ≡ ok tt) ↔ ConformsUpToNull host schema.root v
  unfolding validate_value ConformsUpToNull
  validate_value_iff schema v =
      unless_null_iff v (validate_present host schema.root v) (Admits host schema.root v)
        (present_iff schema.root v)
