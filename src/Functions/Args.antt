-- ===== src/Functions/Args.antt =====
-- functions.rs: how arguments are read (`int_arg`, `as_f64`, `value_as_text`), and the operations of
-- Rust's standard library on texts and integers that the functions call.
use shapeport.Prelude.{
  ℕ, zero, suc, ◌+◌, ◌-◌, ◌^◌, ℤ, pos, negsuc, Text, codes, to_text, Bool, true, false, Option,
  none, some, [], ◌∷◌, ◌++◌, length, is_empty, ltb, ◌==◌, ◌&&◌, if◌then◌else◌,
}
use shapeport.Error
use shapeport.Error.{Error, Result, ok, err, ◌>>=◌}
use shapeport.Host.{Host}
use shapeport.Value.{Value}
use shapeport.Value.Decimal.{render_decimal}

abbrev pub i64_max : ℕ
i64_max = 2 ^ 63 - 1

-- `to_string` of an integer.
unfoldable pub int_to_text : ℤ → Text
unfolding to_text
int_to_text (pos n) = to_text n
int_to_text (negsuc n) = b'-' ∷ to_text (suc n)

unfoldable pub bool_to_text : Bool → Text
bool_to_text true = codes "true"
bool_to_text false = codes "false"

-- The bytes of a text in UTF-8.
unfoldable pub utf8_len : Text → ℕ
utf8_len [] = 0
utf8_len (c ∷ s) =
    (if ltb c 0x80 then 1 else if ltb c 0x800 then 2 else if ltb c 0x1_0000 then 3 else 4)
    + utf8_len s

unfoldable pub is_prefix : Text → Text → Bool
is_prefix [] s = true
is_prefix (a ∷ p) [] = false
is_prefix (a ∷ p) (c ∷ s) = a == c && is_prefix p s

-- `str::replace` with a pattern that is not empty, after `skip` characters of a match.
unfoldable pub replace_from : ℕ → Text → Text → Text → Text
unfolding is_prefix
replace_from skip from to [] = []
replace_from (suc skip) from to (c ∷ s) = replace_from skip from to s
replace_from zero from to (c ∷ s) = elim (is_prefix from (c ∷ s)) [
  | true ↦ to ++ replace_from (length from - 1) from to s
  | false ↦ c ∷ replace_from zero from to s
]

-- An empty pattern matches before every character and at the end.
unfoldable pub replace_empty : Text → Text → Text
replace_empty to [] = to
replace_empty to (c ∷ s) = to ++ c ∷ replace_empty to s

unfoldable pub replace_text : Text → Text → Text → Text
unfolding replace_from replace_empty
replace_text from to src =
    if is_empty from then replace_empty to src else replace_from 0 from to src

module _ (host : Host) where
  unfoldable pub int_arg : Value → Result ℤ
  int_arg (Value.int v) = ok v
  int_arg (Value.uint v) = if ltb i64_max v then err (Error.transform "overflow") else ok (pos v)
  int_arg (Value.float v) = ok (host.i64_of_f64 v)
  int_arg _ = err (Error.transform "bad_args")

  unfoldable pub parsed_or : Error → Option ℕ → Result ℕ
  parsed_or e none = err e
  parsed_or e (some v) = ok v

  unfoldable pub as_f64 : Value → Result ℕ
  unfolding parsed_or render_decimal
  as_f64 (Value.int v) = ok (host.f64_of_i64 v)
  as_f64 (Value.uint v) = ok (host.f64_of_u64 v)
  as_f64 (Value.float v) = ok v
  as_f64 (Value.string text) = parsed_or (Error.transform "cast_failed") (host.parse_f64 text)
  as_f64 (Value.decimal dec) =
      parsed_or (Error.transform "cast_failed") (host.parse_f64 (render_decimal dec))
  as_f64 _ = err (Error.transform "cast_failed")

  unfoldable pub value_as_text : Value → Text
  unfolding int_to_text bool_to_text render_decimal
  value_as_text (Value.string text) = text
  value_as_text (Value.int v) = int_to_text v
  value_as_text (Value.uint v) = to_text v
  value_as_text (Value.float v) = host.f64_to_text v
  value_as_text (Value.bool v) = bool_to_text v
  value_as_text (Value.decimal v) = render_decimal v
  value_as_text _ = []
