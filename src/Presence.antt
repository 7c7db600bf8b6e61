-- ===== src/Presence.antt =====
-- apps/server/src/sfu/room-presence.service.ts: who is in which room.
pub mod State
pub mod Rooms
pub mod Members
pub mod Join
pub mod Seats
pub mod Invariant
pub mod Reach
pub mod Steps
pub mod Moderation
pub mod Locks
pub mod Ending
pub mod Restore
pub mod Grace
pub mod Expiry
pub mod Authority
pub mod Moves
pub mod Lookups
mod Tests
pub mod Control
pub mod Lookup
