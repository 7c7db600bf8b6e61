-- ===== src/Client.antt =====
-- packages/client/src: the library that runs in the browser.
pub mod Quality
pub mod Capture
pub mod Registry
pub mod Detach
