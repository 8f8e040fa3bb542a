-- ===== src/Ledger.antt =====
-- dqengine/runtime/core/ledger.py: the broker-execution ledger. A day is its ordinal, times are
-- milliseconds of the day, and the set `_taken` of row indices is a list. `none` is the answer
-- `None` (unknown), `some []` the answer `[]` (the broker did not fill).
mod Defs
pub mod Sublists
pub mod Answers
pub mod Conservation
pub mod Runs
pub mod Rows
pub mod Capped
mod Tests
unfoldable pub use Defs.*
