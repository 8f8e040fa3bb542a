-- ===== src/Consolidator.antt =====
-- dqengine/runtime/consolidators.py: bars aggregated into buckets of a span.
mod Defs
pub mod Grouping
pub mod Sessions
mod Tests
unfoldable pub use Defs.*
