-- ===== src/Exprs.antt =====
-- dqengine/runtime/core/exprs.py: the evaluator of rule expressions.
mod Defs
pub mod Returns
mod Tests
unfoldable pub use Defs.*
