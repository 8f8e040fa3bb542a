-- ===== src/Weights.antt =====
-- dqengine/runtime/core/weights.py: weight trees, and the shadow returns of their strategies.
pub mod Metrics
pub mod Tree
pub mod Engine
pub mod Shadows
mod Tests
