-- ===== src/Webhooks.antt =====
-- apps/server/src/webhooks: the deliveries of a project's events to its endpoint.
pub mod Queue
pub mod Dispatch
pub mod Retries
pub mod Fifo
mod Tests
