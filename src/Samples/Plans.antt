-- ===== src/Samples/Plans.antt =====
-- Plans and types: the theorems on names, assignability and validation at concrete inputs.
use shapeport.Prelude.{◌≡◌, ◌↔◌, ◌≢◌, true, codes}
use shapeport.Error.{ok, err}
use shapeport.Schema.{DataType}
use shapeport.Schema.Names.{target_name, from_target_name, named, from_target_name-target_name}
use shapeport.Plan.{ErrorPolicy, validate_shape}
use shapeport.Plan.Checked.{WellFormedPlan, validate_shape_iff}
use shapeport.Paths.{out_of_fuel, parse}
use shapeport.Paths.Fuel.{parse_terminates}
use shapeport.Samples.Data.{cast_plan}

from_target_name-target_name_example :
    from_target_name (target_name (DataType.int 32 true)) ≡ named (DataType.int 32 true)
from_target_name-target_name_example = from_target_name-target_name (DataType.int 32 true)

validate_shape_iff_example :
    (validate_shape (cast_plan ErrorPolicy.collect) ≡ ok tt)
    ↔ WellFormedPlan (cast_plan ErrorPolicy.collect)
validate_shape_iff_example = validate_shape_iff (cast_plan ErrorPolicy.collect)

parse_terminates_example : parse (codes "a.[0].b") ≢ err out_of_fuel
parse_terminates_example = parse_terminates (codes "a.[0].b")
