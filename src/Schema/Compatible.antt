-- ===== src/Schema/Compatible.antt =====
-- schema.rs: `types_compatible`, the assignability that the planner asks for.
use native.Mathlib.Decide.{ℕ_discrete}
use shapeport.Prelude.{ℕ, ◌≡◌, ◌↔◌, refl, Bool, true, false, ◌&&◌, ◌||◌, ◌==◌, if◌then◌else◌}
use shapeport.Schema.{DataType}

-- The derived `==` on types.
unfoldable pub DataType-discrete : Discrete DataType
DataType-discrete = hlevel ℕ_discrete

unfoldable pub type_eq : DataType → DataType → Bool
type_eq a b = elim (DataType-discrete a b) [ yes p ↦ true | no p ↦ false ]

-- `std::mem::discriminant`
unfoldable pub discriminant : DataType → ℕ
discriminant DataType.null = 0
discriminant DataType.bool = 1
discriminant (DataType.int bits signed) = 2
discriminant (DataType.float bits) = 3
discriminant (DataType.decimal precision scale) = 4
discriminant DataType.string = 5
discriminant DataType.binary = 6
discriminant DataType.date = 7
discriminant (DataType.time unit) = 8
discriminant (DataType.timestamp unit timezone) = 9
discriminant (DataType.duration unit) = 10
discriminant (DataType.record_of fs) = 11
discriminant (DataType.list_of element nullable) = 12
discriminant (DataType.map_of key value nullable) = 13
discriminant (DataType.union_of vs) = 14
discriminant DataType.unknown = 15
discriminant DataType.any = 16

unfoldable pub is_list : DataType → Bool
is_list (DataType.list_of element nullable) = true
is_list _ = false

unfoldable pub is_any : DataType → Bool
is_any DataType.any = true
is_any _ = false

unfoldable pub is_unknown : DataType → Bool
is_unknown DataType.unknown = true
is_unknown _ = false

-- The pairs of the last `matches!`.
unfoldable pub widens : DataType → DataType → Bool
widens (DataType.int bits signed) (DataType.float b) = true
widens (DataType.int bits signed) (DataType.decimal p s) = true
widens (DataType.int bits signed) DataType.string = true
widens (DataType.decimal p s) DataType.string = true
widens (DataType.decimal p s) (DataType.float b) = true
widens (DataType.float b) DataType.string = true
widens DataType.bool DataType.string = true
widens _ _ = false

unfoldable pub types_compatible : DataType → DataType → Bool
types_compatible source target =
    if is_any target || is_unknown source
    then true
    else if is_list source && is_list target
    then type_eq source target
    else if discriminant source == discriminant target
    then true
    else widens source target

-- `==` on types decides equality.
pub type_eq_iff : (a b : DataType) → (type_eq a b ≡ true) ↔ (a ≡ b)
unfolding type_eq
type_eq_iff a b =
    elim (DataType-discrete a b)
      as (λ d. (elim d [ yes p ↦ true | no p ↦ false ] ≡ true) ↔ (a ≡ b)) [
        | yes p ↦ (λ _. p, λ _. refl)
        | no p ↦ (λ h. cc h, λ e. absurd (p e))
      ]

list_not_any : (t : DataType) → is_list t ≡ true → is_any t ≡ false
unfolding is_list is_any
list_not_any DataType.any h = cc
list_not_any _ h = refl

list_not_unknown : (t : DataType) → is_list t ≡ true → is_unknown t ≡ false
unfolding is_list is_unknown
list_not_unknown DataType.unknown h = cc
list_not_unknown _ h = refl

-- Two list types are compatible exactly when they are equal, down to the field names of their
-- elements: a list is never assigned on its outer kind alone.
pub types_compatible_lists :
    (s t : DataType) → is_list s ≡ true → is_list t ≡ true → (types_compatible s t ≡ true) ↔ (s ≡ t)
unfolding types_compatible
types_compatible_lists s t hs ht =
    rw (list_not_any t ht, list_not_unknown s hs, hs, ht) (type_eq_iff s t)
