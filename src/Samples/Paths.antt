-- ===== src/Samples/Paths.antt =====
-- Field paths: runs of the parser, and its theorems at concrete paths.
use shapeport.Prelude.{◌≡◌, refl, [], ◌∷◌, codes, value}
use shapeport.Error
use shapeport.Error.{Result, ok, err}
use shapeport.Paths.{
  FieldPath, field, index, parse, render_path, reject_jsonpath, parse_segments, parse_one,
  parse_index, parse_inner, find, parse_ident, ident_len, ident_rest_len, skip_dot_or_keep,
  is_ident_start, is_ident_continue,
}
use shapeport.Paths.Valid.{ValidPath, parse-ValidPath}
use shapeport.Paths.RoundTrip.{parse-render_path}

-- items[0].sku
abbrev sku : FieldPath
sku = record { segments = field (codes "items") ∷ index 0 ∷ field (codes "sku") ∷ [] }

sku_parses : parse (codes "items[0].sku") ≡ ok sku
unfolding parse reject_jsonpath parse_segments parse_one parse_index parse_inner find parse_ident
    ident_len ident_rest_len skip_dot_or_keep is_ident_start is_ident_continue value
sku_parses = refl

leading_zero : parse (codes "items[01]") ≡ err (Error.plan "invalid_path")
unfolding parse reject_jsonpath parse_segments parse_one parse_index parse_inner find parse_ident
    ident_len ident_rest_len skip_dot_or_keep is_ident_start is_ident_continue
leading_zero = refl

-- A dot before a bracket, and an index with no name before it, are accepted.
loose_index :
    (parse (codes "a.[0]") ≡ ok (record { segments = field (codes "a") ∷ index 0 ∷ [] }))
    × (parse (codes "[0]") ≡ ok (record { segments = index 0 ∷ [] }))
unfolding parse reject_jsonpath parse_segments parse_one parse_index parse_inner find parse_ident
    ident_len ident_rest_len skip_dot_or_keep is_ident_start is_ident_continue value
loose_index = (refl, refl)

parse-ValidPath_example : ValidPath sku
parse-ValidPath_example = parse-ValidPath (codes "items[0].sku") sku sku_parses

parse-render_path_example : parse (render_path sku) ≡ ok sku
parse-render_path_example = parse-render_path sku parse-ValidPath_example
