-- ===== src/Value/Equality.antt =====
-- value.rs: the derived `==` on values. Objects are equal as `IndexMap`s: the same number of entries,
-- and every entry of one found in the other, in any order. Floats compare as `f64`.
use native.Mathlib.Decide.{ℕ_discrete}
use shapeport.Prelude.{ℕ, suc, ℤ, text_eq, Bool, true, false, ◌&&◌, Option, none, some, ◌==◌}
use shapeport.Value.{Value, Items, Fields, no_items, item, no_fields, field}
use shapeport.Host.{Host}

unfoldable pub ℤ-discrete : Discrete ℤ
ℤ-discrete = hlevel ℕ_discrete

unfoldable pub int_eq : ℤ → ℤ → Bool
unfolding ℤ-discrete
int_eq a b = elim (ℤ-discrete a b) [ yes p ↦ true | no p ↦ false ]

unfoldable pub bool_eq : Bool → Bool → Bool
bool_eq true b = b
bool_eq false true = false
bool_eq false false = true

unfoldable pub len : Fields → ℕ
len no_fields = 0
len (field k v rest) = suc (len rest)

unfoldable pub holds_at : (Value → Bool) → Option Value → Bool
holds_at p none = false
holds_at p (some w) = p w

module _ (host : Host) where
  unfoldable mutual
    unfolding int_eq bool_eq len text_eq holds_at

    pub value_eq : Value → Value → Bool
    value_eq Value.null Value.null = true
    value_eq (Value.bool a) (Value.bool b) = bool_eq a b
    value_eq (Value.int a) (Value.int b) = int_eq a b
    value_eq (Value.uint a) (Value.uint b) = a == b
    value_eq (Value.float a) (Value.float b) = host.f64_eq a b
    value_eq (Value.decimal a) (Value.decimal b) =
        text_eq a.coefficient b.coefficient && int_eq a.scale b.scale
    value_eq (Value.string a) (Value.string b) = text_eq a b
    value_eq (Value.binary a) (Value.binary b) = text_eq a b
    value_eq (Value.date a) (Value.date b) = int_eq a b
    value_eq (Value.timestamp_micros a) (Value.timestamp_micros b) = int_eq a b
    value_eq (Value.array a) (Value.array b) = items_eq a b
    value_eq (Value.object a) (Value.object b) = len a == len b && entries_in a b
    value_eq _ _ = false

    pub items_eq : Items → Items → Bool
    items_eq no_items no_items = true
    items_eq (item a as_) (item b bs) = value_eq a b && items_eq as_ bs
    items_eq _ _ = false

    pub entries_in : Fields → Fields → Bool
    entries_in no_fields m = true
    entries_in (field k v rest) m = holds_at (value_eq v) (host.get k m) && entries_in rest m
