-- ===== src/Sleeve.antt =====
-- dqengine/runtime/core/portfolio.py: positions, cash, margin, fills and the order log of a sleeve.
mod Defs
pub mod Basis
pub mod Positions
mod Tests
unfoldable pub use Defs.*
