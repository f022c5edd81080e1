-- ===== src/Engine/Order.antt =====
-- engine.rs: `rank_value`, `compare_values`, `compare_records` and `sort_records`.
pub mod Total
pub mod Sorted
use shapeport.Prelude.{
  ℕ, suc, ◌+◌, ◌-◌, ℤ, pos, negsuc, Text, to_text, Bool, true, false, List, [], ◌∷◌, ◌++◌, length,
  replicate, compare, Ordering, leb,
}
use shapeport.Sorting.{reverse_order, sort_by}
use shapeport.Error
use shapeport.Error.{Error, Result, ok, err}
use shapeport.Host.{Host}
use shapeport.Value.{Value, is_null}
use shapeport.Value.Decimal.{render_decimal}
use shapeport.Functions.Args.{bool_to_text}
use shapeport.Plan.{SortKey, SortOrder, NullsOrder}
use shapeport.Engine.Access.{read_segments}

-- `str::cmp`: by bytes, which for UTF-8 is by code points.
unfoldable pub text_cmp : Text → Text → Ordering
text_cmp [] [] = Ordering.eq
text_cmp [] (b ∷ t) = Ordering.lt
text_cmp (a ∷ s) [] = Ordering.gt
text_cmp (a ∷ s) (b ∷ t) = elim (compare a b) [
  | Ordering.lt ↦ Ordering.lt
  | Ordering.gt ↦ Ordering.gt
  | Ordering.eq ↦ text_cmp s t
]

-- `{:0width$}` of a number without its sign.
unfoldable pub pad_digits : ℕ → ℕ → Text
pad_digits width n = let s = to_text n in replicate (width - length s) b'0' ++ s

-- `{v:020}` of an integer: the sign counts and stands before the zeros.
unfoldable pub padded_int : ℤ → Text
unfolding pad_digits
padded_int (pos n) = pad_digits 20 n
padded_int (negsuc n) = b'-' ∷ pad_digits 19 (suc n)

unfoldable pub null_order : NullsOrder → Ordering
null_order NullsOrder.first = Ordering.lt
null_order NullsOrder.last = Ordering.gt

unfoldable pub directed : SortOrder → Ordering → Ordering
unfolding reverse_order
directed SortOrder.asc o = o
directed SortOrder.desc o = reverse_order o

module _ (host : Host) where
  unfoldable pub rank_value : Value → Text
  unfolding padded_int pad_digits bool_to_text render_decimal
  rank_value (Value.string text) = text
  rank_value (Value.int v) = padded_int v
  rank_value (Value.uint v) = pad_digits 20 v
  rank_value (Value.float v) = host.f64_padded v
  rank_value (Value.bool v) = bool_to_text v
  rank_value (Value.decimal v) = render_decimal v
  rank_value other = host.to_json other

  unfoldable pub compare_values : Value → Value → NullsOrder → Ordering
  unfolding null_order reverse_order
  compare_values left right nulls = elim (is_null left) [
    | true ↦ elim (is_null right) [ true ↦ Ordering.eq | false ↦ null_order nulls ]
    | false ↦ elim (is_null right) [
      | true ↦ reverse_order (null_order nulls)
      | false ↦ text_cmp (rank_value left) (rank_value right)
    ]
  ]

  unfoldable pub compare_records : Value → Value → List SortKey → Ordering
  unfolding directed
  compare_records left right [] = Ordering.eq
  compare_records left right (key ∷ keys) =
      let lv = read_segments host left key.field.segments in
      let rv = read_segments host right key.field.segments in
      elim (compare_values lv rv key.nulls) [
        | Ordering.eq ↦ compare_records left right keys
        | other ↦ directed key.order other
      ]

  unfoldable pub sort_records : List SortKey → List Value → Result (List Value)
  sort_records [] records = err (Error.plan "invalid_sort")
  sort_records (key ∷ keys) records =
      ok (sort_by (λ left right. compare_records left right (key ∷ keys)) records)
