-- ===== src/Schema/Names.antt =====
-- schema.rs: the names of scalar types in plans (`target_name`, `parse_target_name`).
use text.Mathlib.Text.{◌==◌ as str_eq}
use shapeport.Prelude.{
  ℕ, pos, String, ◌≡◌, refl, inl, inr, Bool-cases, ==_iff, Bool, true, false, not, ◌&&◌, ◌||◌, none,
  ◌==◌, if◌then◌else◌,
}
use shapeport.Error
use shapeport.Error.{Result, ok, err}
use shapeport.Schema.{TimeUnit, DataType}

unfoldable pub int_name : ℕ → Bool → String
int_name bits signed =
    if signed && bits == 64
    then "int64"
    else if signed && bits == 32
    then "int32"
    else if not signed && bits == 64
    then "uint64"
    else "complex"

unfoldable pub float_name : ℕ → String
float_name bits = if bits == 64 then "float64" else if bits == 32 then "float32" else "complex"

unfoldable pub target_name : DataType → String
unfolding int_name float_name
target_name DataType.null = "null"
target_name DataType.bool = "bool"
target_name (DataType.int bits signed) = int_name bits signed
target_name (DataType.float bits) = float_name bits
target_name (DataType.decimal precision scale) = "decimal"
target_name DataType.string = "string"
target_name DataType.binary = "binary"
target_name DataType.date = "date"
target_name (DataType.timestamp unit timezone) = "timestamp"
target_name DataType.unknown = "unknown"
target_name DataType.any = "any"
target_name _ = "complex"

unfoldable pub parse_target_name : String → Result DataType
parse_target_name name =
    if str_eq name "null"
    then ok DataType.null
    else if str_eq name "bool" || str_eq name "boolean"
    then ok DataType.bool
    else if str_eq name "int" || str_eq name "int64"
    then ok (DataType.int 64 true)
    else if str_eq name "int32"
    then ok (DataType.int 32 true)
    else if str_eq name "uint64"
    then ok (DataType.int 64 false)
    else if str_eq name "float" || str_eq name "float64" || str_eq name "number"
    then ok (DataType.float 64)
    else if str_eq name "float32"
    then ok (DataType.float 32)
    else if str_eq name "decimal"
    then ok (DataType.decimal 38 (pos 10))
    else if str_eq name "string"
    then ok DataType.string
    else if str_eq name "binary"
    then ok DataType.binary
    else if str_eq name "date"
    then ok DataType.date
    else if str_eq name "timestamp"
    then ok (DataType.timestamp TimeUnit.microsecond none)
    else err (Error.plan "unknown_cast_target")

unfoldable pub from_target_name : String → Result DataType
unfolding parse_target_name
from_target_name name = parse_target_name name

-- The types that a plan can name, and the type that such a name stands for: a decimal and a
-- timestamp lose their parameters.
abbrev pub named : DataType → Result DataType
named (DataType.int bits signed) =
    if bits == 64 || signed && bits == 32
    then ok (DataType.int bits signed)
    else err (Error.plan "unknown_cast_target")
named (DataType.float bits) =
    if bits == 64 || bits == 32
    then ok (DataType.float bits)
    else err (Error.plan "unknown_cast_target")
named (DataType.decimal precision scale) = ok (DataType.decimal 38 (pos 10))
named (DataType.timestamp unit timezone) = ok (DataType.timestamp TimeUnit.microsecond none)
named DataType.null = ok DataType.null
named DataType.bool = ok DataType.bool
named DataType.string = ok DataType.string
named DataType.binary = ok DataType.binary
named DataType.date = ok DataType.date
named _ = err (Error.plan "unknown_cast_target")

from_int_name :
    (bits : ℕ) (signed : Bool)
    → from_target_name (int_name bits signed) ≡ named (DataType.int bits signed)
unfolding from_target_name int_name
from_int_name bits true = elim (Bool-cases (bits == 64)) [
  | inl same ↦ rw ((==_iff bits 64).0 same)
  | inr other ↦ elim (Bool-cases (bits == 32)) [
    | inl same ↦ rw ((==_iff bits 32).0 same)
    | inr neither ↦ rw (other, neither)
  ]
]
from_int_name bits false = elim (Bool-cases (bits == 64)) [
  | inl same ↦ rw ((==_iff bits 64).0 same)
  | inr other ↦ rw other
]

from_float_name : (bits : ℕ) → from_target_name (float_name bits) ≡ named (DataType.float bits)
unfolding from_target_name float_name
from_float_name bits = elim (Bool-cases (bits == 64)) [
  | inl same ↦ rw ((==_iff bits 64).0 same)
  | inr other ↦ elim (Bool-cases (bits == 32)) [
    | inl same ↦ rw ((==_iff bits 32).0 same)
    | inr neither ↦ rw (other, neither)
  ]
]

-- Reading the name of a type gives the type, up to the parameters that a name does not carry, and
-- fails with `unknown_cast_target` on every type that a plan cannot name.
pub from_target_name-target_name : (t : DataType) → from_target_name (target_name t) ≡ named t
unfolding target_name
from_target_name-target_name (DataType.int bits signed) = from_int_name bits signed
from_target_name-target_name (DataType.float bits) = from_float_name bits
from_target_name-target_name _ = unfold from_target_name in refl
