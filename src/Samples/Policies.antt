-- ===== src/Samples/Policies.antt =====
-- Runs of the policy on URIs, of the detection of formats and of the cells of delimited text.
use shapeport.Prelude.{
  pos, text_eq, codes, contains, is_digit, value, ◌≡◌, refl, none, some, [], ◌∷◌,
}
use shapeport.Error
use shapeport.Error.{Result, ok, err}
use shapeport.Functions.Args.{is_prefix}
use shapeport.Value.{Value, Items, Fields}
use shapeport.Engine.Cast.{parse_i64}
use shapeport.Security.Components.{
  Component, split_onto, component_of, later_components, first_components, path_from, parent,
}
use shapeport.Security.{strip_prefix, contains_text, strip_file_uri}
use shapeport.Formats.{FormatId}
use shapeport.Formats.Cells.{has_leading_zero_numeric, conservative_cell}
use shapeport.Formats.Detect.{
  last_extension, to_ascii_lowercase, format_from_path, split_lines, strip_return, strip_returns,
  ends_with_newline, lines,
}
use shapeport.App.{max_of, value_depth}
use shapeport.Samples.Data.{id}

refuses_http : strip_file_uri (codes "https://example.com/x") ≡ err (Error.security "uri_denied")
unfolding strip_file_uri strip_prefix contains_text is_prefix
refuses_http = refl

takes_file :
    strip_file_uri (codes "file:///tmp/./x")
    ≡ ok (Component.root_dir ∷ Component.normal (codes "tmp") ∷ Component.normal (codes "x") ∷ [])
unfolding strip_file_uri strip_prefix is_prefix path_from first_components later_components
    component_of split_onto text_eq
takes_file = refl

refuses_artifacts :
    strip_file_uri (codes "shapeport-artifact://abc") ≡ err (Error.security "uri_denied")
unfolding strip_file_uri strip_prefix contains_text is_prefix
refuses_artifacts = refl

parent_of_name : parent (Component.normal (codes "a") ∷ []) ≡ some []
unfolding parent
parent_of_name = refl

reads_extension : format_from_path (path_from (codes "/data/t.old.CSV")) ≡ some FormatId.csv
unfolding format_from_path path_from first_components later_components component_of split_onto
    text_eq last_extension to_ascii_lowercase contains
reads_extension = refl

hidden_file : format_from_path (path_from (codes ".json")) ≡ none
unfolding format_from_path path_from first_components later_components component_of split_onto
    text_eq last_extension to_ascii_lowercase contains
hidden_file = refl

splits_lines : lines (codes "a\r\n\nb") ≡ (codes "a" ∷ [] ∷ codes "b" ∷ [])
unfolding lines split_lines strip_returns strip_return ends_with_newline
splits_lines = refl

keeps_zero : conservative_cell (codes "01") ≡ Value.string (codes "01")
unfolding conservative_cell has_leading_zero_numeric is_digit
keeps_zero = refl

drops_plus : conservative_cell (codes "+49") ≡ Value.int (pos 49)
unfolding conservative_cell has_leading_zero_numeric is_digit parse_i64 value
drops_plus = refl

-- {"id": [{"id": null}]}
nested_depth :
    value_depth (
      Value.object (
        Fields.field id
          (Value.array (
            Items.item (Value.object (Fields.field id Value.null Fields.no_fields)) Items.no_items))
          Fields.no_fields))
    ≡ 4
unfolding value_depth max_of
nested_depth = refl
