-- ===== src/Samples/Data.antt =====
-- Records and plans that the runs use.
use shapeport.Prelude.{pos, Text, codes, [], ◌∷◌}
use shapeport.Paths.{FieldPath, PathSegment}
use shapeport.Value.{Value, Items, Fields}
use shapeport.Plan.{
  CastPolicy, ErrorPolicy, SortOrder, NullsOrder, Expr, Entries, SortKey, Operation,
  TransformationPlan, api_version, plan_kind,
}

abbrev pub id : Text
id = codes "id"

abbrev pub qty : Text
qty = codes "qty"

abbrev pub at : Text → FieldPath
at name = record { segments = PathSegment.field name ∷ [] }

-- {"id": "a", "qty": "7"}
abbrev pub row : Fields
row =
    Fields.field id (Value.string (codes "a"))
      (Fields.field qty (Value.string (codes "7")) Fields.no_fields)

abbrev pub good : Value
good = Value.object row

-- {"id": "b", "qty": "x"}
abbrev pub bad : Value
bad = Value.object (
    Fields.field id (Value.string (codes "b"))
      (Fields.field qty (Value.string (codes "x")) Fields.no_fields))

abbrev pub two_tags : Items
two_tags = Items.item (Value.int (pos 1)) (Items.item Value.null Items.no_items)

-- {"id": [1, null]}
abbrev pub tagged : Value
tagged = Value.object (Fields.field id (Value.array two_tags) Fields.no_fields)

abbrev pub to_int : Operation
to_int = Operation.cast (at qty) "int" CastPolicy.strict

abbrev pub entries : Entries
entries =
    Entries.entry id (Expr.field (at id)) (
      Entries.entry qty (Expr.cast (Expr.field (at qty)) "int" CastPolicy.strict)
        Entries.no_entries)

abbrev pub by_qty : SortKey
by_qty = record { field = at qty; order = SortOrder.desc; nulls = NullsOrder.first }

abbrev pub cast_plan : ErrorPolicy → TransformationPlan
cast_plan policy = record {
  api_version = api_version;
  kind = plan_kind;
  operations = to_int ∷ Operation.map_fields entries ∷ [];
  error_policy = policy;
  backend = "document";
  output = "required";
}
