-- ===== src/Engine.antt =====
-- crates/shapeport-core/src/engine.rs: the document VM that executes plans.
pub mod Access
pub mod Cast
pub mod Eval
pub mod Records
pub mod Order
pub mod Stream
