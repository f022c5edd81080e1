-- ===== src/Diagnostics.antt =====
-- crates/shapeport-core/src/diagnostics.rs, and the rejected records of engine.rs. As for errors, the
-- message for people is not modelled; `error` leaves path and hint empty.
use shapeport.Prelude.{ℕ, String, Option, none}
use shapeport.Paths.{FieldPath}

pub data Severity : Type 0 where
  error warning info : Severity

pub record Diagnostic : Type 0 where
  pub severity : Severity
  pub code : String
  pub path : Option FieldPath
  pub hint : Option String

-- `Diagnostic::error`
abbrev pub error_diagnostic : String → Diagnostic
error_diagnostic code = record { severity = Severity.error; code = code; path = none; hint = none }

-- A record that was dropped, by its position within the operation that dropped it.
pub record RejectedRecord : Type 0 where
  pub index : ℕ
  pub diagnostic : Diagnostic
