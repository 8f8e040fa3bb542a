-- ===== src/Seconds.antt =====
-- dqengine/live/secbars.py: second bars, from a day's trades at once and from a stream of trades.
mod Defs
pub mod Streams
pub mod Equivalence
mod Tests
unfoldable pub use Defs.*
