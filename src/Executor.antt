-- ===== src/Executor.antt =====
-- dqengine/live/executor.py: the rules that the executor applies before it sends anything.
pub mod Gateway
pub mod Prices
pub mod Kept
pub mod Retry
pub mod Tif
pub mod KeptBounds
mod Tests
