-- ===== src/Samples/Machine.antt =====
-- A host that runs: objects as association lists, and simple stand-ins for what the tests do not
-- look at.
use shapeport.Prelude.{
  pos, Text, text_eq, text_eq_iff, Option, none, some, [], ◌≡◌, refl, ◌==◌, if◌then◌else◌, arith,
}
use shapeport.Host.{Host, find_entry, keys, with_key, without_key}
use shapeport.Value.{Value, Fields, no_fields, field}

unfoldable pub get : Text → Fields → Option Value
get k no_fields = none
get k (field j v rest) = if text_eq j k then some v else get k rest

unfoldable pub insert : Text → Value → Fields → Fields
insert k v no_fields = field k v no_fields
insert k v (field j w rest) =
    let later = insert k v rest in if text_eq j k then field j v rest else field j w later

unfoldable pub shift_remove : Text → Fields → Fields
shift_remove k no_fields = no_fields
shift_remove k (field j v rest) =
    let later = shift_remove k rest in if text_eq j k then later else field j v later

pub get-empty : (k : Text) → get k no_fields ≡ none
unfolding get
get-empty k = refl

pub get-entry : (k : Text) (m : Fields) → get k m ≡ find_entry k m
unfolding get find_entry
get-entry k no_fields = refl
get-entry k (field j v rest) = ground (arith, get-entry k rest)

pub get-insert :
    (k j : Text) (v : Value) (m : Fields)
    → get j (insert k v m) ≡ (if text_eq k j then some v else get j m)
unfolding get insert
get-insert k j v no_fields = refl
get-insert k j v (field i w rest) =
    ground (arith, get-insert k j v rest, text_eq_iff i k, text_eq_iff i j, text_eq_iff k j)

pub get-remove :
    (k j : Text) (m : Fields) → get j (shift_remove k m) ≡ (if text_eq k j then none else get j m)
unfolding get shift_remove
get-remove k j no_fields = ground arith
get-remove k j (field i w rest) =
    ground (arith, get-remove k j rest, text_eq_iff i k, text_eq_iff i j, text_eq_iff k j)

pub keys-insert : (k : Text) (v : Value) (m : Fields) → keys (insert k v m) ≡ with_key k (keys m)
unfolding keys insert with_key
keys-insert k v no_fields = refl
keys-insert k v (field j w rest) = ground (arith, keys-insert k v rest)

pub keys-remove : (k : Text) (m : Fields) → keys (shift_remove k m) ≡ without_key k (keys m)
unfolding keys shift_remove without_key
keys-remove k no_fields = refl
keys-remove k (field j w rest) = ground (arith, keys-remove k rest)

abbrev pub machine : Host
machine = record {
  get = get;
  insert = insert;
  shift_remove = shift_remove;
  parse_f64 = λ s. none;
  f64_to_text = λ x. [];
  f64_padded = λ x. [];
  f64_of_i64 = λ v. 0;
  f64_of_u64 = λ v. v;
  i64_of_f64 = λ x. pos 0;
  f64_nan = 0x7ff8_0000_0000_0000;
  f64_abs = λ x. x;
  f64_round = λ x. x;
  f64_floor = λ x. x;
  f64_ceil = λ x. x;
  f64_eq = λ a b. a == b;
  to_lowercase = λ s. s;
  to_uppercase = λ s. s;
  trim = λ s. s;
  regex_find = λ p s. some none;
  to_json = λ v. [];
  get_entry = get-entry;
  get_empty = get-empty;
  get_insert = get-insert;
  get_remove = get-remove;
  keys_insert = keys-insert;
  keys_remove = keys-remove;
}
