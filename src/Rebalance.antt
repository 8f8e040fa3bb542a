-- ===== src/Rebalance.antt =====
-- dqengine/runtime/allocation.py: the orders that bring a sleeve to its target weights.
mod Defs
pub mod Once
pub mod Targets
mod Tests
unfoldable pub use Defs.*
