-- ===== src/Host.antt =====
-- What the program calls and does not implement: the `indexmap` crate (its maps are the `Fields` of
-- an object, in insertion order), the `regex` and `serde_json` crates, and the parts of Rust's
-- standard library that stand on Unicode tables or on the floating-point unit. An `f64` is its bit
-- pattern. The laws are the documented behaviour of `IndexMap::get`, `insert` and `shift_remove`.
use shapeport.Prelude.{
  ℕ, ℤ, Text, text_eq, Bool, true, false, Option, none, some, List, [], ◌∷◌, ◌≡◌, if◌then◌else◌,
}
use shapeport.Value.{Value, Fields, no_fields, field}

-- The keys of a map, in order.
unfoldable pub keys : Fields → List Text
keys no_fields = []
keys (field k v rest) = k ∷ keys rest

-- Whether a key is among others, and the others without it.
unfoldable pub has_key : Text → List Text → Bool
has_key k [] = false
has_key k (j ∷ ks) = if text_eq j k then true else has_key k ks

unfoldable pub without_key : Text → List Text → List Text
without_key k [] = []
without_key k (j ∷ ks) = let rest = without_key k ks in if text_eq j k then rest else j ∷ rest

unfoldable pub with_key : Text → List Text → List Text
with_key k [] = k ∷ []
with_key k (j ∷ ks) = let rest = with_key k ks in if text_eq j k then j ∷ ks else j ∷ rest

-- The value of the entry of a key.
unfoldable pub find_entry : Text → Fields → Option Value
find_entry k no_fields = none
find_entry k (field j v rest) =
    let later = find_entry k rest in if text_eq j k then some v else later

pub record Host : Type 0 where
  -- `IndexMap<String, Value>`
  pub get : Text → Fields → Option Value
  pub insert : Text → Value → Fields → Fields
  pub shift_remove : Text → Fields → Fields
  -- `f64`: `parse`, `to_string`, `{:020.10}`, `as` casts, rounding, `==`
  pub parse_f64 : Text → Option ℕ
  pub f64_to_text : ℕ → Text
  pub f64_padded : ℕ → Text
  pub f64_of_i64 : ℤ → ℕ
  pub f64_of_u64 : ℕ → ℕ
  pub i64_of_f64 : ℕ → ℤ
  pub f64_nan : ℕ
  pub f64_abs : ℕ → ℕ
  pub f64_round : ℕ → ℕ
  pub f64_floor : ℕ → ℕ
  pub f64_ceil : ℕ → ℕ
  pub f64_eq : ℕ → ℕ → Bool
  -- `str`
  pub to_lowercase : Text → Text
  pub to_uppercase : Text → Text
  pub trim : Text → Text
  -- `Regex::new` then `find`: no regex, no match, or the text matched
  pub regex_find : Text → Text → Option (Option Text)
  -- `serde_json::to_string(value).unwrap_or_default()`
  pub to_json : Value → Text
  -- a key that is new goes last; one that is there keeps its place
  pub get_entry : (k : Text) (m : Fields) → get k m ≡ find_entry k m
  pub get_empty : (k : Text) → get k no_fields ≡ none
  pub get_insert :
      (k j : Text) (v : Value) (m : Fields)
      → get j (insert k v m) ≡ (if text_eq k j then some v else get j m)
  pub get_remove :
      (k j : Text) (m : Fields) → get j (shift_remove k m) ≡ (if text_eq k j then none else get j m)
  pub keys_insert : (k : Text) (v : Value) (m : Fields) → keys (insert k v m) ≡ with_key k (keys m)
  pub keys_remove : (k : Text) (m : Fields) → keys (shift_remove k m) ≡ without_key k (keys m)
