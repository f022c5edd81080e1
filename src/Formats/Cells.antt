-- ===== src/Formats/Cells.antt =====
-- formats.rs: the cells of delimited text, from text to a value and back.
use shapeport.Prelude.{
  ℕ, Text, text_eq, codes, contains, is_digit, to_text, Bool, true, false, not, ◌&&◌, ◌||◌, ◌==◌,
  Option, none, some, List, [], ◌∷◌, if◌then◌else◌,
}
use shapeport.Error
use shapeport.Error.{Result, ok, err}
use shapeport.Host.{Host, has_key}
use shapeport.Value.{DecimalValue, Value}
use shapeport.Value.Decimal.{parse_decimal, render_decimal}
use shapeport.Functions.Args.{int_to_text, bool_to_text}
use shapeport.Engine.Cast.{parse_i64}
use shapeport.Config.{InferMode}

pub record DecodeOptions : Type 0 where
  pub infer : InferMode
  pub null_spellings : List Text

unfoldable pub has_leading_zero_numeric : Text → Bool
unfolding is_digit
has_leading_zero_numeric (a ∷ b ∷ s) = a == b'0' && is_digit b
has_leading_zero_numeric _ = false

-- The end of `conservative_cell`, by the decimal that the cell is.
abbrev pub decimal_cell : Text → Option DecimalValue → Value
decimal_cell cell (some d) = Value.decimal d
decimal_cell cell none = Value.string cell

unfoldable pub conservative_cell : Text → Value
unfolding has_leading_zero_numeric parse_i64 contains
conservative_cell cell =
    if has_leading_zero_numeric cell then Value.string cell else (elim (parse_i64 cell) [
      | some n ↦ Value.int n
      | none ↦
          if contains b'.' cell then decimal_cell cell (parse_decimal cell) else Value.string cell
    ])

module _ (host : Host) where
  unfoldable pub try_parse_float : Text → Option ℕ
  unfolding has_leading_zero_numeric contains
  try_parse_float cell =
      if not (contains b'.' cell) || has_leading_zero_numeric cell
      then none
      else host.parse_f64 cell

  abbrev pub is_true_cell : Text → Bool
  is_true_cell cell =
      text_eq cell (codes "true") || text_eq cell (codes "TRUE") || text_eq cell (codes "yes")

  abbrev pub is_false_cell : Text → Bool
  is_false_cell cell =
      text_eq cell (codes "false") || text_eq cell (codes "FALSE") || text_eq cell (codes "no")

  -- The end of `aggressive_cell`, by the float that the cell is.
  unfoldable pub float_cell : Text → Option ℕ → Value
  unfolding conservative_cell
  float_cell cell (some x) = Value.float x
  float_cell cell none = conservative_cell cell

  unfoldable pub aggressive_cell : Text → Value
  unfolding try_parse_float float_cell text_eq
  aggressive_cell cell =
      if is_true_cell cell
      then Value.bool true
      else if is_false_cell cell
      then Value.bool false
      else float_cell cell (try_parse_float cell)

  abbrev pub cell_by_mode : InferMode → Text → Value
  cell_by_mode InferMode.off cell = Value.string cell
  cell_by_mode InferMode.conservative cell = conservative_cell cell
  cell_by_mode InferMode.aggressive cell = aggressive_cell cell

  unfoldable pub infer_cell : Text → DecodeOptions → Value
  unfolding aggressive_cell conservative_cell has_key
  infer_cell cell options =
      if has_key cell options.null_spellings then Value.null else cell_by_mode options.infer cell

  unfoldable pub cell_text : Value → Result Text
  cell_text Value.null = ok []
  cell_text (Value.string text) = ok text
  cell_text (Value.bool flag) = ok (bool_to_text flag)
  cell_text (Value.int n) = ok (int_to_text n)
  cell_text (Value.uint n) = ok (to_text n)
  cell_text (Value.float x) = ok (host.f64_to_text x)
  cell_text (Value.decimal d) = ok (render_decimal d)
  cell_text (Value.array items) = err (Error.transform "csv_nested")
  cell_text (Value.object map) = err (Error.transform "csv_nested")
  cell_text other = ok (host.to_json other)
