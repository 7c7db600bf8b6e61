-- ===== src/Egress.antt =====
-- apps/server/src/egress/: the sessions that record or stream a room.
pub mod Inputs
pub mod Order
pub mod State
pub mod Ports
pub mod Pipeline
pub mod Service
pub mod Frames
pub mod Failing
pub mod Restarts
pub mod Endings
pub mod Late
pub mod Stops
pub mod Cascade
pub mod Targets
pub mod Screening
pub mod Output
pub mod Lines
pub mod Tail
mod Tests
