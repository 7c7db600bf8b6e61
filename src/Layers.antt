-- ===== src/Layers.antt =====
-- packages/react/src/core/peer-quality-engine.ts: which layer of each camera a page asks for.
pub mod Engine
pub mod Statistics
pub mod Timers
pub mod Settled
pub mod Changes
pub mod Answers
pub mod Following
pub mod Runs
pub mod Entries
pub mod Starving
mod Tests
