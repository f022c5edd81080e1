-- ===== src/Formats/Decoded.antt =====
-- formats.rs: the records that are decoded from delimited text, and the schema found in them.
use shapeport.Prelude.{
  ◌≡◌, refl, subst, Bool, true, false, Bool-cases, inl, inr, Text, text_eq, text_eq_iff,
  text_eq_refl, contains, ℕ, ◌||◌, Option, none, some, List, [], ◌∷◌, All, if◌then◌else◌, arith,
}
use shapeport.Error.{Result, ok, >>=-eq-ok, ok_inj}
use shapeport.Host.{Host, keys, has_key, with_key, find_entry}
use shapeport.Value.{DecimalValue, Value, Fields}
use shapeport.Value.Decimal.{parse_decimal}
use shapeport.Engine.Cast.{parse_i64}
use shapeport.Schema.{Schema}
use shapeport.Config.{InferMode}
use shapeport.Security.Files.{Bytes}
use shapeport.JsonSchema.Validate.{validate_value}
use shapeport.JsonSchema.Conforms.{Admits}
use shapeport.Formats.Adapters.{Adapters}
use shapeport.Formats.Cells.{
  DecodeOptions, decimal_cell, cell_by_mode, has_leading_zero_numeric, conservative_cell,
  try_parse_float, float_cell, is_true_cell, is_false_cell, aggressive_cell, infer_cell,
}
use shapeport.Formats.Codec.{decode_row, decode_rows, decode_delimited, next_cell, later_cells}
use shapeport.Formats.Infer.{type_of, infer_schema}
use shapeport.Formats.Fits.{Own}
use shapeport.Formats.Appended.{Regular}
use shapeport.Formats.Inferred.{IsRegular, infer_schema-validate_value}

-- No key twice.
abbrev DistinctKeys : List Text → Type 0
DistinctKeys [] = Unit
DistinctKeys (k ∷ ks) = (has_key k ks ≡ false) × DistinctKeys ks

has_key-with_key :
    (j k : Text) (ks : List Text) → has_key j (with_key k ks) ≡ (text_eq k j || has_key j ks)
unfolding has_key with_key
has_key-with_key j k [] = ground arith
has_key-with_key j k (i ∷ ks) =
    ground (arith, has_key-with_key j k ks, text_eq_iff i k, text_eq_iff i j, text_eq_iff k j)

with_key-DistinctKeys : (k : Text) (ks : List Text) → DistinctKeys ks → DistinctKeys (with_key k ks)
unfolding has_key with_key
with_key-DistinctKeys k [] d = (refl, tt)
with_key-DistinctKeys k (i ∷ ks) d = elim (Bool-cases (text_eq i k)) [
  | inl same ↦ rw same d
  | inr other ↦ rw other (
    ground (arith, has_key-with_key i k ks, d.0, other, text_eq_iff i k, text_eq_iff k i),
    with_key-DistinctKeys k ks d.1,
  )
]

absent-entry : (k : Text) (m : Fields) → has_key k (keys m) ≡ false → find_entry k m ≡ none
unfolding has_key keys find_entry
absent-entry k Fields.no_fields h = refl
absent-entry k (Fields.field j v rest) h = ground (arith, absent-entry k rest)

module _ (host : Host) (adapters : Adapters) where
  -- What is found in the object are values that their own types admit.
  abbrev AllOwn : Fields → Type 0
  AllOwn m = (k : Text) (v : Value) → find_entry k m ≡ some v → Own host v

  DistinctKeys-Regular : (m : Fields) → DistinctKeys (keys m) → AllOwn m → Regular host m
  unfolding find_entry keys
  DistinctKeys-Regular Fields.no_fields d own = tt
  DistinctKeys-Regular (Fields.field k v rest) d own = (
    own k v (rw text_eq_refl refl),
    absent-entry k rest d.0,
    DistinctKeys-Regular rest d.1
        (λ j w found. own j w (ground (arith, found, absent-entry k rest d.0, text_eq_iff k j))),
  )

  insert-AllOwn :
      (k : Text) (v : Value) (m : Fields) → Own host v → AllOwn m → AllOwn (host.insert k v m)
  insert-AllOwn k v m own all j w found = elim (Bool-cases (text_eq k j)) [
    | inl same ↦ subst (Own host) (some_inj (rw same at entry)) own
    | inr other ↦ all j w (rw other at entry)
  ]
    where
      entry : (if text_eq k j then some v else find_entry j m) ≡ some w
      entry =
          rw (← (host.get_entry j m))
            (rw (← (host.get_insert k j v m)) (rw (host.get_entry j (host.insert k v m)) found))

      some_inj : some v ≡ some w → v ≡ w
      some_inj e = cc e

  if_both : (b : Bool) (x y : Value) → Own host x → Own host y → Own host (if b then x else y)
  if_both true x y p q = p
  if_both false x y p q = q

  conservative-Own : (cell : Text) → Own host (conservative_cell cell)
  unfolding conservative_cell Admits type_of
  conservative-Own cell = if_both (has_leading_zero_numeric cell) _ _ tt (number (parse_i64 cell))
    where
      decimal : (found : Option DecimalValue) → Own host (decimal_cell cell found)
      decimal none = tt
      decimal (some d) = tt

      number :
          (found : Option shapeport.Prelude.ℤ)
          → Own host (elim found as (λ x. Value) [
            | some n ↦ Value.int n
            | none ↦
                if contains b'.' cell
                then decimal_cell cell (parse_decimal cell)
                else Value.string cell
          ])
      number none = if_both (contains b'.' cell) _ _ (decimal (parse_decimal cell)) tt
      number (some n) = tt

  float_cell-Own : (cell : Text) (found : Option ℕ) → Own host (float_cell host cell found)
  unfolding float_cell Admits type_of
  float_cell-Own cell none = conservative-Own cell
  float_cell-Own cell (some x) = tt

  aggressive-Own : (cell : Text) → Own host (aggressive_cell host cell)
  unfolding aggressive_cell Admits type_of
  aggressive-Own cell =
      let float : Value = float_cell host cell (try_parse_float host cell) in
      if_both (is_true_cell host cell) (Value.bool true)
        (if is_false_cell host cell then Value.bool false else float) tt
        (if_both (is_false_cell host cell) (Value.bool false) float tt
          (float_cell-Own cell (try_parse_float host cell)))

  infer_cell-Own : (cell : Text) (options : DecodeOptions) → Own host (infer_cell host cell options)
  unfolding infer_cell Admits type_of
  infer_cell-Own cell options =
      if_both (has_key cell options.null_spellings) Value.null
        (cell_by_mode host options.infer cell) tt (by_mode options.infer)
    where
      by_mode : (mode : InferMode) → Own host (cell_by_mode host mode cell)
      by_mode InferMode.off = tt
      by_mode InferMode.conservative = conservative-Own cell
      by_mode InferMode.aggressive = aggressive-Own cell

  row-Regular :
      (headers row : List Text) (options : DecodeOptions) (m : Fields)
      → DistinctKeys (keys m)
      → AllOwn m
      → Regular host (decode_row host adapters headers row options m)
  unfolding decode_row
  row-Regular [] row options m d own = DistinctKeys-Regular m d own
  row-Regular (header ∷ headers) row options m d own =
      row-Regular headers (later_cells row) options
        (host.insert header (infer_cell host (next_cell row) options) m)
        (rw (host.keys_insert header (infer_cell host (next_cell row) options) m)
          (with_key-DistinctKeys header (keys m) d))
        (insert-AllOwn header (infer_cell host (next_cell row) options) m
          (infer_cell-Own (next_cell row) options) own)

  rows-Regular :
      (headers : List Text) (rows : List (Result (List Text))) (options : DecodeOptions)
      (records : List Value)
      → decode_rows host adapters headers rows options ≡ ok records
      → All (IsRegular host) records
  unfolding decode_rows keys find_entry
  rows-Regular headers [] options records h = subst (All (IsRegular host)) (ok_inj h) tt
  rows-Regular headers (row ∷ rows) options records h =
      let (cells, read, h₁) = >>=-eq-ok row _ h in
      let (later, others, h₂) = >>=-eq-ok (decode_rows host adapters headers rows options) _ h₁ in
      subst (All (IsRegular host)) (ok_inj h₂) (
        row-Regular headers cells options Fields.no_fields tt (λ k v e. absurd (none_some e)),
        rows-Regular headers rows options later others,
      )
    where
      none_some : {v : Value} → none ≡ some v → ⊥
      none_some e = cc e

  -- The schema that `infer_schema` finds in the records of a delimited text that is decoded validates
  -- each of them, in every inference mode and with every null spelling.
  pub decode_delimited-infer_schema :
      (bytes : Bytes) (delimiter : ℕ) (options : DecodeOptions) (infer : InferMode)
      (records : List Value) (schema : Schema)
      → decode_delimited host adapters bytes delimiter options ≡ ok records
      → infer_schema host records infer ≡ ok schema
      → All (λ v. validate_value host schema v ≡ ok tt) records
  unfolding decode_delimited
  decode_delimited-infer_schema bytes delimiter options infer records schema decoded found =
      let (headers, read, h) = >>=-eq-ok (adapters.csv_headers delimiter bytes) _ decoded in
      infer_schema-validate_value host records infer schema found
        (rows-Regular headers (adapters.csv_rows delimiter bytes) options records h)
