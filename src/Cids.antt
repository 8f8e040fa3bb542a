-- ===== src/Cids.antt =====
-- dqengine/live/executor.py: the client order ids that it mints, and the levels read back off them.
pub mod Base36
mod Defs
pub mod Tokens
pub mod Remembers
pub mod Length
pub mod RoundTrip
pub mod Prefix
mod Tests
unfoldable pub use Defs.*
