-- ===== src/Samples/Records.antt =====
-- Operations on one record, and the theorems on them at a concrete record.
use shapeport.Prelude.{
  ◌≡◌, refl, pos, Text, codes, text_eq, [], ◌∷◌, none, some, if◌then◌else◌, value,
}
use shapeport.Error.{Result, ok}
use shapeport.Host.{keys, has_key}
use shapeport.Schema.Names.{from_target_name}
use shapeport.Paths.{simple_name, simple_of}
use shapeport.Value.{Value, Items, Fields}
use shapeport.Functions.{count}
use shapeport.Plan.{CastPolicy, Expr}
use shapeport.Engine.Access.{read_segments, read_path, insert_field, write_simple}
use shapeport.Engine.Cast.{cast_value, parse_int, parse_i64}
use shapeport.Engine.Eval.{eval_expr, eval_object, list_map_value}
use shapeport.Engine.Eval.ListMap.{Pointwise, list_map_value-array}
use shapeport.Engine.Records.Renamed.{after_pairs, rename_lem}
use shapeport.Engine.Records.{rename, project, drop_fields, cast_field}
use shapeport.Engine.Records.Written.{
  is_named, read_name, drop_fields_lem, cast_field_lem, project_lem,
}
use shapeport.Engine.Records.Objects.{names, Distinct, EntriesHold, eval_object_lem}
use shapeport.Samples.Machine.{get, insert, machine}
use shapeport.Samples.Data.{id, qty, at, row, good, two_tags, entries}

-- {"id": "a", "qty": 7}
abbrev counted : Fields
counted =
    Fields.field id (Value.string (codes "a"))
      (Fields.field qty (Value.int (pos 7)) Fields.no_fields)

drop_fields_lem_example :
    (out : Fields) × (drop_fields machine good (at id ∷ []) ≡ ok (Value.object out))
    × ((j : Text)
        → machine.get j out ≡ (if is_named j (at id ∷ []) then none else machine.get j row))
drop_fields_lem_example = drop_fields_lem machine row (at id ∷ [])

cast_runs : cast_field machine good (at qty) "int" CastPolicy.strict ≡ ok (Value.object counted)
unfolding cast_field cast_value write_simple insert_field read_path get insert from_target_name
    value parse_i64 parse_int simple_of
cast_runs = refl

cast_field_lem_example :
    (name : Text) × (x : Value) × (out : Fields) × (simple_name (at qty) ≡ some name)
    × (cast_value machine (read_segments machine good (at qty).segments) "int" CastPolicy.strict
        ≡ ok x)
    × (Value.object counted ≡ Value.object out)
    × ((j : Text) → machine.get j out ≡ (if text_eq name j then some x else machine.get j row))
cast_field_lem_example =
    cast_field_lem machine row (at qty) "int" CastPolicy.strict (Value.object counted) cast_runs

-- {"qty": "7"}
abbrev only_qty : Fields
only_qty = Fields.field qty (Value.string (codes "7")) Fields.no_fields

project_runs : project machine good (at qty ∷ []) ≡ ok (Value.object only_qty)
unfolding project read_path get insert simple_of text_eq
project_runs = refl

project_lem_example :
    (out : Fields) × (Value.object only_qty ≡ Value.object out)
    × (machine.get qty out
        ≡ (if is_named qty (at qty ∷ []) then some (read_name machine good qty) else none))
project_lem_example =
    project_lem machine good (at qty ∷ []) (Value.object only_qty) project_runs qty

object_runs : eval_object machine good entries ≡ ok (Value.object counted)
unfolding eval_object eval_expr cast_value read_path get insert from_target_name value parse_i64
    parse_int
object_runs = refl

entries-Distinct : Distinct (names entries)
unfolding names has_key text_eq
entries-Distinct = (refl, (refl, tt))

eval_object_lem_example :
    (out : Fields) × (Value.object counted ≡ Value.object out)
    × (keys out ≡ names entries)
    × EntriesHold machine good entries out
eval_object_lem_example =
    eval_object_lem machine good entries (Value.object counted) object_runs entries-Distinct

-- [1, null] under `field: []` of each item, which is null for a number.
abbrev eval_id : Value → Result Value
eval_id v = eval_expr machine v (Expr.field (at id))

abbrev nulls : Items
nulls = Items.item Value.null (Items.item Value.null Items.no_items)

list_runs : list_map_value eval_id (Value.array two_tags) ≡ ok (Value.array nulls)
unfolding list_map_value eval_expr read_path
list_runs = refl

list_map_value-array_example :
    (out : Items) × (Value.array nulls ≡ Value.array out)
    × (count out ≡ count two_tags)
    × Pointwise eval_id two_tags out
list_map_value-array_example = list_map_value-array eval_id two_tags (Value.array nulls) list_runs

rename_lem_example :
    (out : Fields) × (rename machine good ((id, qty) ∷ []) ≡ ok (Value.object out))
    × ((j : Text) → machine.get j out ≡ after_pairs ((id, qty) ∷ []) (λ k. machine.get k row) j)
rename_lem_example = rename_lem machine row ((id, qty) ∷ [])
