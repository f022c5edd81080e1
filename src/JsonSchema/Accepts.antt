-- ===== src/JsonSchema/Accepts.antt =====
-- json_schema.rs: `validate_value` against what the types of a schema mean.
use shapeport.Prelude.{
  ◌≡◌, ◌⊎◌, subst, inl, inr, Bool, true, Text, text_eq, Bool-cases, Option, none, some, sym,
}
use shapeport.Error.{ok}
use shapeport.Host.{Host, find_entry}
use shapeport.Value.{Value, Items, Fields, no_items, item}
use shapeport.Schema.{DataType, FieldList, Variants, Schema, no_fields, field, no_variants, variant}
use shapeport.JsonSchema.Validate.{validate_value}
use shapeport.JsonSchema.Meets.{
  Allowed, NullFree, NullFreeItems, NullFreeFields, HasNull, HasNullItem, HasNullField, Meets,
  MeetsFields, MeetsAny,
}
use shapeport.JsonSchema.Conforms.{NullOr, AllItems, Admits, HasFields, AnyAdmits}

both_cases : {A B C D : Type 0} → A ⊎ C → B ⊎ D → (A ⊎ B) ⊎ (C × D)
both_cases (inl a) b = inl (inl a)
both_cases (inr c) (inl b) = inl (inr b)
both_cases (inr c) (inr d) = inr (c, d)

mutual
  unfolding NullFree HasNull

  null_cases : (v : Value) → HasNull v ⊎ NullFree v
  null_cases Value.null = inl tt
  null_cases (Value.array items) = item_cases items
  null_cases (Value.object map) = field_cases map
  null_cases _ = inr tt

  item_cases : (items : Items) → HasNullItem items ⊎ NullFreeItems items
  item_cases no_items = inr tt
  item_cases (item v rest) = both_cases (null_cases v) (item_cases rest)

  field_cases : (map : Fields) → HasNullField map ⊎ NullFreeFields map
  field_cases Fields.no_fields = inr tt
  field_cases (Fields.field k v rest) = both_cases (null_cases v) (field_cases rest)

-- A found value is one of an object's, so null is not found where none of these has it.
find_entry-NullFree :
    (name : Text) (map : Fields)
    → NullFreeFields map
    → elim (find_entry name map) as (λ x. Type 0) [ none ↦ Unit | some v ↦ NullFree v ]
unfolding find_entry NullFree
find_entry-NullFree name Fields.no_fields h = tt
find_entry-NullFree name (Fields.field k v rest) h = elim (Bool-cases (text_eq k name)) [
  | inl same ↦ rw same h.0
  | inr other ↦ rw other (find_entry-NullFree name rest h.1)
]

up_to_null : (v : Value) (P : Type 0) → P → NullOr v P
up_to_null Value.null P p = tt
up_to_null _ P p = p

not_null : (v : Value) (P : Type 0) → NullFree v → NullOr v P → P
unfolding NullFree
not_null Value.null P free h = absurd free
not_null _ P free h = h

Allowed-NullOr :
    (nullable : Bool) (v : Value) (P Q : Type 0)
    → (P → NullOr v Q)
    → Allowed nullable v P
    → NullOr v Q
Allowed-NullOr nullable v P Q f (inl null) = subst (λ w. NullOr w Q) (sym null.1) tt
Allowed-NullOr nullable v P Q f (inr p) = f p

found-NullOr :
    (found : Option Value) (nullable : Bool) (P Q : Value → Type 0)
    → ((v : Value) → P v → NullOr v (Q v))
    → (elim found as (λ x. Type 0) [ none ↦ nullable ≡ true | some v ↦ Allowed nullable v (P v) ])
    → elim found as (λ x. Type 0) [ none ↦ nullable ≡ true | some v ↦ NullOr v (Q v) ]
found-NullOr none nullable P Q f h = h
found-NullOr (some v) nullable P Q f h = Allowed-NullOr nullable v (P v) (Q v) (f v) h

found-Allowed :
    (found : Option Value) (nullable : Bool) (P Q : Value → Type 0)
    → ((v : Value) → NullFree v → Q v → P v)
    → (elim found as (λ x. Type 0) [ none ↦ Unit | some v ↦ NullFree v ])
    → (elim found as (λ x. Type 0) [ none ↦ nullable ≡ true | some v ↦ NullOr v (Q v) ])
    → elim found as (λ x. Type 0) [ none ↦ nullable ≡ true | some v ↦ Allowed nullable v (P v) ]
found-Allowed none nullable P Q f free h = h
found-Allowed (some v) nullable P Q f free h = inr (f v free (not_null v (Q v) free h))

items-NullOr :
    (nullable : Bool) (P Q : Value → Type 0) (items : Items)
    → ((v : Value) → P v → NullOr v (Q v))
    → AllItems (λ v. Allowed nullable v (P v)) items
    → AllItems (λ v. NullOr v (Q v)) items
items-NullOr nullable P Q no_items f h = tt
items-NullOr nullable P Q (item v rest) f h =
    (Allowed-NullOr nullable v (P v) (Q v) (f v) h.0, items-NullOr nullable P Q rest f h.1)

items-Allowed :
    (nullable : Bool) (P Q : Value → Type 0) (items : Items)
    → ((v : Value) → NullFree v → Q v → P v)
    → NullFreeItems items
    → AllItems (λ v. NullOr v (Q v)) items
    → AllItems (λ v. Allowed nullable v (P v)) items
unfolding NullFree
items-Allowed nullable P Q no_items f free h = tt
items-Allowed nullable P Q (item v rest) f free h =
    (inr (f v free.0 (not_null v (Q v) free.0 h.0)), items-Allowed nullable P Q rest f free.1 h.1)

module _ (host : Host) where
  mutual
    unfolding Meets Admits

    Meets-NullOr : (ty : DataType) (v : Value) → Meets host ty v → NullOr v (Admits host ty v)
    Meets-NullOr DataType.any v h = up_to_null v Unit tt
    Meets-NullOr DataType.unknown v h = up_to_null v Unit tt
    Meets-NullOr DataType.null Value.null h = tt
    Meets-NullOr DataType.bool (Value.bool b) h = tt
    Meets-NullOr (DataType.int bits signed) (Value.int n) h = tt
    Meets-NullOr (DataType.int bits signed) (Value.uint n) h = tt
    Meets-NullOr (DataType.float bits) (Value.float x) h = tt
    Meets-NullOr (DataType.float bits) (Value.int n) h = tt
    Meets-NullOr (DataType.float bits) (Value.uint n) h = tt
    Meets-NullOr DataType.string (Value.string s) h = tt
    Meets-NullOr DataType.string (Value.decimal d) h = tt
    Meets-NullOr (DataType.decimal p s) (Value.string t) h = tt
    Meets-NullOr (DataType.decimal p s) (Value.decimal d) h = tt
    Meets-NullOr (DataType.record_of fs) (Value.object map) h = MeetsFields-HasFields fs map h
    Meets-NullOr (DataType.list_of element nullable) (Value.array items) h =
        items-NullOr nullable (λ v. Meets host element v) (λ v. Admits host element v) items
          (λ v m. Meets-NullOr element v m) h
    Meets-NullOr (DataType.union_of vs) v h =
        up_to_null v (AnyAdmits host vs v) (MeetsAny-AnyAdmits vs v h)
    Meets-NullOr _ _ h = absurd h

    MeetsFields-HasFields :
        (fs : FieldList) (map : Fields) → MeetsFields host fs map → HasFields host fs map
    MeetsFields-HasFields no_fields map h = tt
    MeetsFields-HasFields (field name ty nullable aliases semantic metadata rest) map h = (
      found-NullOr (host.get name map) nullable (λ v. Meets host ty v) (λ v. Admits host ty v)
          (λ v m. Meets-NullOr ty v m) h.0,
      MeetsFields-HasFields rest map h.1,
    )

    MeetsAny-AnyAdmits : (vs : Variants) (v : Value) → MeetsAny host vs v → AnyAdmits host vs v
    MeetsAny-AnyAdmits no_variants v h = absurd h
    MeetsAny-AnyAdmits (variant ty rest) v (inl h) = inl (Meets-NullOr ty v h)
    MeetsAny-AnyAdmits (variant ty rest) v (inr h) = inr (MeetsAny-AnyAdmits rest v h)

  mutual
    unfolding Meets Admits NullFree

    Admits-Meets : (ty : DataType) (v : Value) → NullFree v → Admits host ty v → Meets host ty v
    Admits-Meets DataType.any v free h = tt
    Admits-Meets DataType.unknown v free h = tt
    Admits-Meets DataType.bool (Value.bool b) free h = tt
    Admits-Meets (DataType.int bits signed) (Value.int n) free h = tt
    Admits-Meets (DataType.int bits signed) (Value.uint n) free h = tt
    Admits-Meets (DataType.float bits) (Value.float x) free h = tt
    Admits-Meets (DataType.float bits) (Value.int n) free h = tt
    Admits-Meets (DataType.float bits) (Value.uint n) free h = tt
    Admits-Meets DataType.string (Value.string s) free h = tt
    Admits-Meets DataType.string (Value.decimal d) free h = tt
    Admits-Meets (DataType.decimal p s) (Value.string t) free h = tt
    Admits-Meets (DataType.decimal p s) (Value.decimal d) free h = tt
    Admits-Meets (DataType.record_of fs) (Value.object map) free h =
        HasFields-MeetsFields fs map free h
    Admits-Meets (DataType.list_of element nullable) (Value.array items) free h =
        items-Allowed nullable (λ v. Meets host element v) (λ v. Admits host element v) items
          (λ v f a. Admits-Meets element v f a) free h
    Admits-Meets (DataType.union_of vs) v free h = AnyAdmits-MeetsAny vs v free h
    Admits-Meets _ _ free h = absurd h

    HasFields-MeetsFields :
        (fs : FieldList) (map : Fields)
        → NullFreeFields map
        → HasFields host fs map
        → MeetsFields host fs map
    HasFields-MeetsFields no_fields map free h = tt
    HasFields-MeetsFields (field name ty nullable aliases semantic metadata rest) map free h = (
      found-Allowed (host.get name map) nullable (λ v. Meets host ty v) (λ v. Admits host ty v)
          (λ v f a. Admits-Meets ty v f a)
          (rw (host.get_entry name map) (find_entry-NullFree name map free)) h.0,
      HasFields-MeetsFields rest map free h.1,
    )

    AnyAdmits-MeetsAny :
        (vs : Variants) (v : Value) → NullFree v → AnyAdmits host vs v → MeetsAny host vs v
    AnyAdmits-MeetsAny no_variants v free h = absurd h
    AnyAdmits-MeetsAny (variant ty rest) v free (inl h) =
        inl (Admits-Meets ty v free (not_null v (Admits host ty v) free h))
    AnyAdmits-MeetsAny (variant ty rest) v free (inr h) = inr (AnyAdmits-MeetsAny rest v free h)

  -- What `validate_value` accepts, which meets the schema or has a null in it.
  abbrev pub Accepted : Schema → Value → Type 0
  Accepted schema v =
      (validate_value host schema v ≡ ok tt) × (Meets host schema.root v ⊎ HasNull v)
