-- ===== src/Engine/Cast.antt =====
-- engine.rs: `cast_value`, `parse_int` and `stringify_value`.
use shapeport.Prelude.{
  ℕ, ◌-◌, ◌^◌, ℤ, pos, negsuc, Text, String, Bool, true, false, ◌&&◌, ◌||◌, not, Option, none, some,
  [], ◌∷◌, length, is_empty, all, is_digit, starts_with, to_text, value, ltb, ◌==◌, if◌then◌else◌,
}
use shapeport.Error
use shapeport.Error.{Error, Result, ok, err, ◌>>=◌}
use shapeport.Host.{Host}
use shapeport.Value.{Value, DecimalValue}
use shapeport.Value.Decimal.{parse_decimal, render_decimal}
use shapeport.Functions.Args.{int_to_text, bool_to_text}
use shapeport.Schema.{DataType}
use shapeport.Schema.Names.{from_target_name}
use shapeport.Plan.{CastPolicy, is_strict}

-- `parse::<i64>` after the sign: digits, at least one, in range.
unfoldable pub parse_magnitude : Bool → Text → Option ℤ
unfolding is_digit
parse_magnitude negative s =
    let n = value 0 s in
    if is_empty s || not (all is_digit s)
    then none
    else if negative
    then (if ltb (2 ^ 63) n then none else some (if n == 0 then pos 0 else negsuc (n - 1)))
    else if ltb n (2 ^ 63)
    then some (pos n)
    else none

unfoldable pub parse_i64 : Text → Option ℤ
unfolding parse_magnitude
parse_i64 [] = none
parse_i64 (c ∷ s) =
    if c == b'-'
    then parse_magnitude true s
    else if c == b'+'
    then parse_magnitude false s
    else parse_magnitude false (c ∷ s)

unfoldable pub parse_int : Text → CastPolicy → Result Value
unfolding parse_i64 is_strict starts_with
parse_int text policy =
    if is_strict policy && starts_with b'0' text && ltb 1 (length text)
    then err (Error.transform "leading_zero")
    else (elim (parse_i64 text) [
      | none ↦ err (Error.transform "cast_failed")
      | some v ↦ ok (Value.int v)
    ])

unfoldable pub decimal_or_failed : Option DecimalValue → Result Value
decimal_or_failed none = err (Error.transform "cast_failed")
decimal_or_failed (some dec) = ok (Value.decimal dec)

-- The last two arms of the match.
unfoldable pub no_cast : CastPolicy → Result Value
no_cast CastPolicy.try = ok Value.null
no_cast _ = err (Error.transform "cast_failed")

module _ (host : Host) where
  unfoldable pub stringify_value : Value → Text
  unfolding int_to_text bool_to_text render_decimal
  stringify_value (Value.string text) = text
  stringify_value (Value.decimal dec) = render_decimal dec
  stringify_value (Value.int v) = int_to_text v
  stringify_value (Value.uint v) = to_text v
  stringify_value (Value.float v) = host.f64_to_text v
  stringify_value (Value.bool v) = bool_to_text v
  stringify_value other = host.to_json other

  unfoldable pub float_or_nan : Option ℕ → ℕ
  float_or_nan none = host.f64_nan
  float_or_nan (some v) = v

  unfoldable pub cast_text_to_float : Option ℕ → CastPolicy → Result Value
  cast_text_to_float (some v) CastPolicy.lossy = ok (Value.float v)
  cast_text_to_float none CastPolicy.lossy = err (Error.transform "cast_failed")
  cast_text_to_float (some v) CastPolicy.try = ok (Value.float v)
  cast_text_to_float none CastPolicy.try = ok Value.null
  cast_text_to_float _ CastPolicy.strict = err (Error.transform "lossy_cast_required")

  unfoldable pub cast_to_float : Value → CastPolicy → Result Value
  unfolding cast_text_to_float float_or_nan no_cast render_decimal
  cast_to_float (Value.float v) policy = ok (Value.float v)
  cast_to_float (Value.int v) policy = ok (Value.float (host.f64_of_i64 v))
  cast_to_float (Value.decimal dec) CastPolicy.lossy =
      ok (Value.float (float_or_nan (host.parse_f64 (render_decimal dec))))
  cast_to_float (Value.decimal dec) policy = err (Error.plan "lossy_cast_required")
  cast_to_float (Value.string text) policy = cast_text_to_float (host.parse_f64 text) policy
  cast_to_float _ policy = no_cast policy

  -- The match of `cast_value` on the type and a value that is not null.
  unfoldable pub cast_to : DataType → Value → CastPolicy → Result Value
  unfolding stringify_value cast_to_float parse_int parse_decimal decimal_or_failed no_cast
  cast_to DataType.string v policy = ok (Value.string (stringify_value v))
  cast_to (DataType.int bits signed) (Value.int v) policy = ok (Value.int v)
  cast_to (DataType.int bits signed) (Value.string text) policy = parse_int text policy
  cast_to (DataType.float bits) v policy = cast_to_float v policy
  cast_to (DataType.decimal p s) (Value.decimal dec) policy = ok (Value.decimal dec)
  cast_to (DataType.decimal p s) (Value.string text) policy = decimal_or_failed (parse_decimal text)
  cast_to DataType.bool (Value.bool v) policy = ok (Value.bool v)
  cast_to _ v policy = no_cast policy

  unfoldable pub cast_value : Value → String → CastPolicy → Result Value
  unfolding cast_to
  cast_value Value.null target policy = ok Value.null
  cast_value v target policy = do ty ← from_target_name target; cast_to ty v policy
