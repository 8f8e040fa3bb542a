-- ===== src/LiveBook.antt =====
-- dqengine/live/book.py: the cache of a broker connection's state, and its gate on direct submission.
mod Defs
pub mod Gate
pub mod Audit
mod Tests
unfoldable pub use Defs.*
