-- ===== src/Value/Decimal.antt =====
-- value.rs: `parse_decimal`, `split_decimal_parts` and `render_decimal`.
use shapeport.Prelude.{
  ℕ, suc, ◌+◌, ◌-◌, ℤ, pos, negsuc, Text, Bool, not, ◌&&◌, ◌||◌, Option, none, some, [], ◌∷◌, ◌++◌,
  length, is_empty, take, drop, all, replicate, starts_with, is_digit, text_eq, ltb, leb, ◌==◌,
  if◌then◌else◌,
}
use shapeport.Value.{DecimalValue}

-- `body.matches('.').count()`
unfoldable pub count_dots : Text → ℕ
count_dots [] = 0
count_dots (c ∷ s) = if c == b'.' then suc (count_dots s) else count_dots s

-- `split_once('.')`
unfoldable pub split_once : Text → Option (Text × Text)
split_once [] = none
split_once (c ∷ s) = elim (split_once s) [
  | none ↦ if c == b'.' then some ([], s) else none
  | some (a, b) ↦ if c == b'.' then some ([], s) else some (c ∷ a, b)
]

unfoldable pub split_decimal_parts : Text → Option (Text × Text)
unfolding split_once is_digit
split_decimal_parts body = elim (split_once body) [
  | none ↦ some (body, [])
  | some (int_part, frac) ↦
      if not (all is_digit frac)
      then none
      else some (if is_empty int_part then b'0' ∷ [] else int_part, frac)
]

-- `trim_start_matches(c)`
unfoldable pub trim_start : ℕ → Text → Text
trim_start c [] = []
trim_start c (a ∷ s) = let rest = trim_start c s in if a == c then rest else a ∷ s

unfoldable pub strip_minus : Text → Text
strip_minus [] = []
strip_minus (c ∷ s) = if c == b'-' then s else c ∷ s

-- The coefficient that `parse_decimal` pushes together from the sign and the two parts.
unfoldable pub coefficient_of : Bool → Text → Text → Text
unfolding trim_start text_eq
coefficient_of negative int_part frac =
    let sign = if negative then b'-' ∷ [] else [] in
    let trimmed = sign ++ trim_start b'0' int_part in
    let filled =
      if text_eq trimmed (b'-' ∷ []) || is_empty trimmed
      then (if negative then b'-' ∷ b'0' ∷ [] else b'0' ∷ [])
      else trimmed in
    let whole = filled ++ frac in
    if text_eq whole (b'-' ∷ []) || text_eq whole (b'-' ∷ b'0' ∷ []) && is_empty frac
    then b'0' ∷ []
    else whole

unfoldable pub decimal_of_parts : Bool → Option (Text × Text) → Option DecimalValue
unfolding coefficient_of
decimal_of_parts negative none = none
decimal_of_parts negative (some (int_part, frac)) =
    if is_empty int_part
    then none
    else if ltb 127 (length frac)
    then none
    else some
        (record { coefficient = coefficient_of negative int_part frac; scale = pos (length frac) })

unfoldable pub parse_decimal : Text → Option DecimalValue
unfolding strip_minus starts_with count_dots split_decimal_parts decimal_of_parts is_digit
parse_decimal raw =
    let body = strip_minus raw in
    if is_empty raw
    then none
    else if is_empty body || not (all (λ ch. is_digit ch || ch == b'.') body)
    then none
    else if ltb 1 (count_dots body)
    then none
    else decimal_of_parts (starts_with b'-' raw) (split_decimal_parts body)

-- `usize::from(u8::try_from(scale.max(0)).unwrap_or(0))`
unfoldable pub scale_digits : ℤ → ℕ
scale_digits (pos n) = n
scale_digits (negsuc n) = 0

unfoldable pub render_decimal : DecimalValue → Text
unfolding starts_with trim_start scale_digits
render_decimal value =
    let negative = starts_with b'-' value.coefficient in
    let digits = trim_start b'-' value.coefficient in
    let scale = scale_digits value.scale in
    let padded =
      if leb (length digits) scale
      then replicate (scale + 1 - length digits) b'0' ++ digits
      else digits in
    let split_at = length padded - scale in
    let rendered =
      if scale == 0 then digits else take split_at padded ++ b'.' ∷ drop split_at padded in
    if negative then b'-' ∷ rendered else rendered
