-- ===== src/Media.antt =====
-- apps/server/src/sfu/sfu.service.ts and worker-manager.ts: the media of the members of a room.
pub mod Pool
pub mod State
pub mod Producers
pub mod Closing
pub mod Muting
pub mod Consumers
pub mod Sessions
pub mod Joining
pub mod Balance
pub mod Quiet
pub mod Guards
pub mod Screens
pub mod Spares
pub mod Leaving
pub mod Silence
pub mod Frames
pub mod Attached
pub mod Mild
pub mod Receiving
pub mod Entries
pub mod Reach
mod Tests
