-- ===== src/JsonSchema.antt =====
-- crates/shapeport-core/src/json_schema.rs: JSON Schema to and from schemas, and the validation of
-- values.
pub mod Validate
pub mod Conforms
pub mod Meets
pub mod Accepts
pub mod Emit
