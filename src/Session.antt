-- ===== src/Session.antt =====
-- packages/client/src/sfu/manager.ts and its units: the client's side of a meeting.
pub mod State
pub mod Publish
pub mod Producers
pub mod Subscribe
pub mod Recovery
pub mod Facade
pub mod Core
pub mod Mild
pub mod Receiving
pub mod Sound
pub mod Quiet
pub mod Events
pub mod Answers
pub mod Endings
pub mod Runs
pub mod Queue
pub mod Broken
pub mod Blip
pub mod Rate
pub mod Races
pub mod Sharing
mod Tests
