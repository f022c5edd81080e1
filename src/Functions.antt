-- ===== src/Functions.antt =====
-- crates/shapeport-core/src/functions.rs: the registry of functions that a plan may call.
pub mod Args
use text.Mathlib.Text.{◌==◌ as str_eq}
use shapeport.Prelude.{
  ℕ, zero, suc, ◌+◌, ◌^◌, ℤ, pos, negsuc, Text, String, codes, Bool, true, false, ◌||◌, Option,
  none, some, List, [], ◌∷◌, ◌++◌, length, is_empty, take, drop, ltb, text_eq, if◌then◌else◌,
}
use shapeport.Error
use shapeport.Error.{Result, ok, err, ◌>>=◌}
use shapeport.Host.{Host}
use shapeport.Value.{Value, Items, Fields, no_items, item, no_fields, field, is_null}
use shapeport.Value.Equality.{value_eq, len}
use Args.{int_arg, as_f64, value_as_text, i64_max, replace_text, utf8_len}

-- The arguments of a call, `&[Value]`.
abbrev pub Args : Type 0
Args = List Value

unfoldable pub one_string : Args → Result Text
one_string (Value.string text ∷ []) = ok text
one_string (Value.null ∷ []) = err (Error.transform "null_arg")
one_string _ = err (Error.transform "bad_args")

unfoldable pub unary_string : Args → (Text → Text) → Result Value
unfolding one_string
unary_string args map = do text ← one_string args; ok (Value.string (map text))

unfoldable pub clamp_i64 : ℕ → ℤ
clamp_i64 n = if ltb i64_max n then pos i64_max else pos n

unfoldable pub count : Items → ℕ
count no_items = 0
count (item v rest) = suc (count rest)

unfoldable pub length_of : Args → Result Value
unfolding clamp_i64 count len
length_of (Value.string text ∷ []) = ok (Value.int (clamp_i64 (length text)))
length_of (Value.array items ∷ []) = ok (Value.int (clamp_i64 (count items)))
length_of (Value.object map ∷ []) = ok (Value.int (clamp_i64 (len map)))
length_of (Value.null ∷ []) = ok (Value.int (pos 0))
length_of _ = err (Error.transform "bad_args")

-- The first argument that is not null.
unfoldable pub coalesce : Args → Value
unfolding is_null
coalesce [] = Value.null
coalesce (value ∷ rest) = if is_null value then coalesce rest else value

unfoldable pub first_is_null : Args → Bool
unfolding is_null
first_is_null [] = true
first_is_null (value ∷ rest) = is_null value

-- `temporal`, for the functions that take one text and for those that take more.
unfoldable pub temporal_one : Args → Result Value
temporal_one (Value.string text ∷ []) = ok (Value.string text)
temporal_one _ = err (Error.transform "bad_args")

unfoldable pub temporal_many : Args → Result Value
temporal_many (Value.string text ∷ rest) = ok (Value.string text)
temporal_many _ = err (Error.transform "bad_args")

-- `usize::try_from(v.max(0)).unwrap_or(0)`
unfoldable pub clamp_usize : ℤ → ℕ
clamp_usize (pos n) = n
clamp_usize (negsuc n) = 0

unfoldable pub replace_args : Args → Result Value
unfolding replace_text
replace_args (Value.string src ∷ Value.string from ∷ Value.string to ∷ []) =
    ok (Value.string (replace_text from to src))
replace_args _ = err (Error.transform "bad_args")

module _ (host : Host) where
  unfoldable pub concat_args : Text → Args → Value
  unfolding value_as_text
  concat_args out [] = Value.string out
  concat_args out (Value.null ∷ rest) = concat_args out rest
  concat_args out (Value.string text ∷ rest) = concat_args (out ++ text) rest
  concat_args out (other ∷ rest) = concat_args (out ++ value_as_text host other) rest

  unfoldable pub substring_args : Args → Result Value
  unfolding int_arg clamp_usize
  substring_args (Value.string src ∷ start ∷ []) = do
    s ← int_arg host start
    ok (Value.string (drop (clamp_usize s) src))
  substring_args (Value.string src ∷ start ∷ len ∷ []) = do
    s ← int_arg host start
    l ← int_arg host len
    ok (Value.string (take (clamp_usize l) (drop (clamp_usize s) src)))
  substring_args _ = err (Error.transform "bad_args")

  unfoldable pub found_text : Option (Option Text) → Result Value
  found_text none = err (Error.transform "invalid_regex")
  found_text (some none) = ok Value.null
  found_text (some (some text)) = ok (Value.string text)

  unfoldable pub regex_extract : Args → Result Value
  unfolding found_text utf8_len
  regex_extract (Value.string src ∷ Value.string pattern_text ∷ []) =
      if ltb 256 (utf8_len pattern_text)
      then err (Error.limit "regex_size")
      else found_text (host.regex_find pattern_text src)
  regex_extract _ = err (Error.transform "bad_args")

  unfoldable pub numeric_unary : Args → (ℕ → ℕ) → Result Value
  unfolding as_f64
  numeric_unary (value ∷ []) map = do number ← as_f64 host value; ok (Value.float (map number))
  numeric_unary _ map = err (Error.transform "bad_args")

  unfoldable pub null_if : Args → Result Value
  unfolding value_eq
  null_if (left ∷ right ∷ []) = ok (if value_eq host left right then Value.null else left)
  null_if _ = err (Error.transform "bad_args")

  unfoldable pub call : String → Args → Result Value
  unfolding unary_string concat_args replace_args substring_args regex_extract numeric_unary
      length_of first_is_null null_if coalesce temporal_one temporal_many
  call name args =
      if str_eq name "lower"
      then unary_string args host.to_lowercase
      else if str_eq name "upper"
      then unary_string args host.to_uppercase
      else if str_eq name "trim"
      then unary_string args host.trim
      else if str_eq name "concat"
      then ok (concat_args [] args)
      else if str_eq name "replace"
      then replace_args args
      else if str_eq name "substring"
      then substring_args args
      else if str_eq name "regex_extract"
      then regex_extract args
      else if str_eq name "abs"
      then numeric_unary args host.f64_abs
      else if str_eq name "round"
      then numeric_unary args host.f64_round
      else if str_eq name "floor"
      then numeric_unary args host.f64_floor
      else if str_eq name "ceil"
      then numeric_unary args host.f64_ceil
      else if str_eq name "length"
      then length_of args
      else if str_eq name "is_null"
      then ok (Value.bool (first_is_null args))
      else if str_eq name "null_if"
      then null_if args
      else if str_eq name "coalesce"
      then ok (coalesce args)
      else if str_eq name "parse_date" || str_eq name "parse_timestamp"
      then temporal_one args
      else if str_eq name "format_timestamp" || str_eq name "date_trunc"
      then temporal_many args
      else err (Error.plan "unknown_function")
