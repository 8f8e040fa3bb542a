-- ===== src/Indicators.antt =====
-- dqengine/runtime/core/indicators.py: daily series, the indicators on them, and their cache.
pub mod Series
pub mod Plain
pub mod Nodes
pub mod History
pub mod Engine
pub mod Frozen
pub mod FrozenHistory
pub mod Extremes
pub mod Cache
pub mod Answers
pub mod Fresh
mod Tests
