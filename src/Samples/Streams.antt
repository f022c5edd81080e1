-- ===== src/Samples/Streams.antt =====
-- Plans on several records, and the theorems on them at concrete inputs.
use mathlib.Core.List.{Perm}
use shapeport.Prelude.{
  ◌+◌, ◌≡◌, refl, pos, negsuc, codes, List, [], ◌∷◌, length, to_text, none, true, value, Ordering,
  text_eq,
}
use shapeport.Error.{Result, ok}
use shapeport.Diagnostics.{RejectedRecord}
use shapeport.Schema.Names.{from_target_name}
use shapeport.Paths.{simple_of}
use shapeport.Value.{Value, Fields}
use shapeport.Plan.{ErrorPolicy, Expr, validate_shape}
use shapeport.Sorting.{IsOrder}
use shapeport.Sorting.Laws.{IsSorted, class_of}
use shapeport.Engine.Access.{read_path, insert_field, write_simple}
use shapeport.Engine.Cast.{cast_value, parse_int, parse_i64}
use shapeport.Engine.Eval.{eval_expr, eval_object}
use shapeport.Engine.Records.{cast_field, apply_record}
use shapeport.Engine.Order.{compare_records, sort_records, rank_value, text_cmp}
use shapeport.Engine.Order.Total.{compare_records-IsOrder}
use shapeport.Engine.Order.Sorted.{by_keys, sort_records_lem}
use shapeport.Engine.Stream.{ExecuteOutcome, map_from, explode_records, execute_detailed}
use shapeport.Engine.Stream.Explode.{total, explode_records-length}
use shapeport.Engine.Stream.Loops.{once, loop_outcome, map_from-eq}
use shapeport.Engine.Stream.Conserves.{map_collect_conserves}
use shapeport.Engine.Stream.Agreement.{records_of}
use shapeport.Engine.Stream.Policies.{skip-eq-collect, execute_fail_ok}
use shapeport.Samples.Machine.{get, insert, machine}
use shapeport.Samples.Data.{id, qty, at, good, bad, tagged, to_int, by_qty, cast_plan}

compare_records-IsOrder_example :
    IsOrder (λ left right. compare_records machine left right (by_qty ∷ []))
compare_records-IsOrder_example = compare_records-IsOrder machine (by_qty ∷ [])

sort_records_lem_example :
    (out : List Value) × (sort_records machine (by_qty ∷ []) (good ∷ bad ∷ []) ≡ ok out)
    × Perm out (good ∷ bad ∷ [])
    × IsSorted (by_keys machine (by_qty ∷ [])) out
    × ((u : Value)
        → class_of (by_keys machine (by_qty ∷ [])) u out
          ≡ class_of (by_keys machine (by_qty ∷ [])) u (good ∷ bad ∷ []))
sort_records_lem_example = sort_records_lem machine (by_qty ∷ []) (good ∷ bad ∷ []) (λ e. cc e)

abbrev exploded : List Value
exploded =
    Value.object (Fields.field id (Value.int (pos 1)) Fields.no_fields)
    ∷ Value.object (Fields.field id Value.null Fields.no_fields)
    ∷ []

explode_runs : explode_records machine (at id) none true (tagged ∷ []) ≡ ok exploded
unfolding explode_records insert_field read_path get insert simple_of text_eq
explode_runs = refl

explode_records-length_example : length exploded ≡ total machine (at id) none true (tagged ∷ [])
explode_records-length_example =
    explode_records-length machine (at id) none true (tagged ∷ []) exploded explode_runs

abbrev empty_outcome : ExecuteOutcome
empty_outcome = record { records = []; rejects = [] }

abbrev cast_qty : Value → Result Value
cast_qty v = apply_record machine to_int v

map_from-eq_example :
    map_from cast_qty 0 (good ∷ bad ∷ []) ErrorPolicy.collect empty_outcome
    ≡ loop_outcome (λ v. once (cast_qty v)) 0 (good ∷ bad ∷ []) ErrorPolicy.collect empty_outcome
map_from-eq_example = map_from-eq cast_qty 0 (good ∷ bad ∷ []) ErrorPolicy.collect empty_outcome

abbrev has_qty : Value → Result Value
has_qty v = eval_expr machine v (Expr.field (at qty))

map_collect_conserves_example :
    (s : ExecuteOutcome) × (map_from cast_qty 0
        (good ∷ bad ∷ [])
        ErrorPolicy.collect
        (record { records = []; rejects = [] })
      ≡ ok s)
    × (length s.records + length s.rejects
        ≡ length (good ∷ bad ∷ []) + length {A = RejectedRecord} [])
map_collect_conserves_example = map_collect_conserves cast_qty (good ∷ bad ∷ []) []

skip-eq-collect_example :
    records_of (
      execute_detailed machine
        (record (cast_plan ErrorPolicy.fail) { error_policy = ErrorPolicy.skip })
        (good ∷ bad ∷ []))
    ≡ records_of (
        execute_detailed machine
          (record (cast_plan ErrorPolicy.fail) { error_policy = ErrorPolicy.collect })
          (good ∷ bad ∷ []))
skip-eq-collect_example = skip-eq-collect machine (cast_plan ErrorPolicy.fail) (good ∷ bad ∷ [])

abbrev good_outcome : ExecuteOutcome
good_outcome = record {
  records =
      Value.object (
        Fields.field id (Value.string (codes "a"))
          (Fields.field qty (Value.int (pos 7)) Fields.no_fields))
      ∷ [];
  rejects = [];
}

plan_runs : execute_detailed machine (cast_plan ErrorPolicy.fail) (good ∷ []) ≡ ok good_outcome
unfolding execute_detailed validate_shape apply_record cast_field eval_object eval_expr cast_value
    write_simple insert_field read_path get insert from_target_name value parse_i64 parse_int
    simple_of map_from
plan_runs = refl

execute_fail_ok_example :
    (execute_detailed machine
        (record (cast_plan ErrorPolicy.fail) { error_policy = ErrorPolicy.skip })
        (good ∷ [])
      ≡ ok good_outcome)
    × (good_outcome.rejects ≡ [])
execute_fail_ok_example =
    execute_fail_ok machine (cast_plan ErrorPolicy.fail) ErrorPolicy.skip (good ∷ []) good_outcome
      plan_runs

-- Zeros are filled in after the sign, so that -5 stands before -10.
negative_ranks :
    text_cmp (rank_value machine (Value.int (negsuc 4))) (rank_value machine (Value.int (negsuc 9)))
    ≡ Ordering.lt
unfolding rank_value text_cmp to_text
negative_ranks = refl
